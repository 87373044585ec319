-- ===== src/Webhooks/Schedule.antt =====
-- When a delivery is due, and what an attempt's outcome means (src/lib/webhooks.ts). Clocks are in
-- whole seconds since 1970; `Date.parse` gives milliseconds, and none stands for NaN. A stored time or
-- token is no empty text.
use final_arc.Base.{
  ℕ, suc, zero, ◌*◌, Bool, true, false, ◌&&◌, ◌||◌, Option, none, some, if◌then◌else◌, ltb, leb,
  ◌==◌, Text,
}
use final_arc.Webhooks.{WebhookDeliveryRecord, WebhookDeliveryStatus, pending, retrying}

-- `toISOString` of a second, and `Date.parse`.
pub record WebhookClock : Type 0 where
  pub iso : ℕ → Text
  pub parse : Text → Option ℕ

abbrev pub webhook_max_attempts : ℕ
webhook_max_attempts = 5

abbrev pub webhook_claim_lease_seconds : ℕ
webhook_claim_lease_seconds = 60

abbrev pub webhook_max_due_per_run : ℕ
webhook_max_due_per_run = 25

-- `WEBHOOK_RETRY_DELAYS_SECONDS`, by index.
unfoldable pub webhook_retry_delays_seconds : ℕ → Option ℕ
webhook_retry_delays_seconds zero = some 60
webhook_retry_delays_seconds (suc zero) = some 300
webhook_retry_delays_seconds (suc (suc zero)) = some 900
webhook_retry_delays_seconds (suc (suc (suc zero))) = some 3600
webhook_retry_delays_seconds _ = none

-- `retryDelaySeconds`.
unfoldable pub retry_delay_seconds : ℕ → Option ℕ
unfolding webhook_retry_delays_seconds
retry_delay_seconds zero = none
retry_delay_seconds (suc n) =
    if leb webhook_max_attempts (suc n) then none else webhook_retry_delays_seconds n

module _ (c : WebhookClock) where
  -- `!Number.isNaN(at) && at / 1000 > nowSeconds`.
  abbrev pub later_than : Option ℕ → ℕ → Bool
  later_than none now = false
  later_than (some at) now = ltb (now * 1000) at

  -- `!Number.isNaN(at) && at / 1000 <= nowSeconds`.
  abbrev pub reached_by : Option ℕ → ℕ → Bool
  reached_by none now = false
  reached_by (some at) now = leb at (now * 1000)

  unfoldable pub lease_lives : Option Text → Option Text → ℕ → Bool
  lease_lives (some owner) (some expires_at) now = later_than (c.parse expires_at) now
  lease_lives _ _ now = false

  -- `leaseActive`.
  unfoldable pub lease_active : WebhookDeliveryRecord → ℕ → Bool
  unfolding lease_lives
  lease_active row now = lease_lives row.lease_owner row.lease_expires_at now

  unfoldable pub schedule_ready : WebhookDeliveryStatus → Option Text → ℕ → Bool
  schedule_ready pending none now = true
  schedule_ready pending (some at) now = reached_by (c.parse at) now
  schedule_ready retrying (some at) now = reached_by (c.parse at) now
  schedule_ready _ _ now = false

  -- `isWebhookDeliveryDue`.
  unfoldable pub is_webhook_delivery_due : WebhookDeliveryRecord → ℕ → Bool
  unfolding lease_active schedule_ready
  is_webhook_delivery_due row now =
      if lease_active row now then false else schedule_ready row.status row.next_retry_at now

pub data AttemptKind : Type 0 where
  succeeded retryable permanent : AttemptKind

-- `classifyWebhookAttempt`.
unfoldable pub classify_status : ℕ → AttemptKind
classify_status s =
    if leb 200 s && ltb s 300
    then succeeded
    else (if s == 408 || s == 429
        then retryable
        else (if leb 500 s && leb s 599 then retryable else permanent))

unfoldable pub classify_webhook_attempt : Option ℕ → (network_error : Bool) → AttemptKind
unfolding classify_status
classify_webhook_attempt none network_error = retryable
classify_webhook_attempt (some s) true = retryable
classify_webhook_attempt (some s) false = classify_status s
