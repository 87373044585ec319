-- ===== src/Webhooks/Due.antt =====
-- The scheduled run (src/lib/webhooks.ts): `processDueWebhookDeliveries`.
use final_arc.Base.{
  ℕ, ◌+◌, Bool, true, false, Option, none, some, List, [], ◌∷◌, ◌++◌, if◌then◌else◌, ltb, leb, get,
  take, values, Text, codes,
}
use final_arc.Webhooks.{
  WebhookEndpointRecord, WebhookDeliveryRecord, WebhookDeliveryStatus, pending, failed, retrying,
  WebhookStoreSection, WebhookEnvelope,
}
use final_arc.Webhooks.Schedule.{
  webhook_max_attempts, webhook_max_due_per_run, is_webhook_delivery_due,
}
use final_arc.Webhooks.Queue.{readable, Patch}
use final_arc.Webhooks.Deliver.{
  WebhookDeps, World, read_store, load_endpoint, claim, lease_token, finalize, now_iso,
  deliver_once,
}

-- The readable rows that are due.
unfoldable pub due_rows :
    (WebhookDeliveryRecord → Bool)
    → List (Option WebhookDeliveryRecord)
    → List WebhookDeliveryRecord
due_rows due [] = []
due_rows due (none ∷ rows) = due_rows due rows
due_rows due (some row ∷ rows) = if due row then row ∷ due_rows due rows else due_rows due rows

-- A row that the run reports, or none.
abbrev pub reported : Option WebhookDeliveryRecord → List WebhookDeliveryRecord
reported none = []
reported (some row) = row ∷ []

-- `a ?? b`, where both may be missing.
abbrev pub some_or {ℓ} : {A : Type ℓ} → Option A → Option A → Option A
some_or none b = b
some_or (some a) b = some a

-- What a run gives: none where it throws.
abbrev pub Ran : Type 0
Ran = Option (List WebhookDeliveryRecord) × World

-- The rows reported before.
abbrev pub prefix_rows : List WebhookDeliveryRecord → Ran → Ran
prefix_rows out (none, w) = (none, w)
prefix_rows out (some rows, w) = (some (out ++ rows), w)

module _ (d : WebhookDeps) where
  abbrev pub delivered : Option WebhookDeliveryRecord × World → Ran
  delivered (none, w) = (none, w)
  delivered (some row, w) = (some (row ∷ []), w)

  abbrev pub stopped :
      (error : Option (Option Text)) → (attempted_at : Option (Option Text)) → Patch
  stopped error attempted_at = record {
    status = some failed;
    http_status = none;
    attempted_at = attempted_at;
    next_retry_at = some none;
    error = error;
    attempt = none;
  }

  -- Claim a row only to close it; a missing endpoint is reported.
  unfoldable pub close_claimed :
      WebhookDeliveryRecord
      → (error : Text) → (report : Bool) → (token : Text) → Option WebhookDeliveryRecord
      → World
      → Ran
  unfolding finalize
  close_claimed prior error report token none w = (some [], w)
  close_claimed prior error report token (some claimed) w =
      let done =
        finalize d claimed.delivery_id token
          (stopped (some (some error)) (some (some (now_iso d w)))) w in
      (some (if report then reported done.0 else []), done.1)

  unfoldable pub close_row : WebhookDeliveryRecord → (error : Text) → (report : Bool) → World → Ran
  unfolding close_claimed claim
  close_row prior error report w =
      let claimed = claim d prior.delivery_id w in
      close_claimed prior error report (lease_token d w) claimed.0 claimed.1

  unfoldable pub pending_parsed :
      WebhookDeliveryRecord → WebhookEndpointRecord → Option WebhookEnvelope → World → Ran
  unfolding close_row deliver_once
  pending_parsed prior endpoint none w = close_row prior (codes "invalid_body") false w
  pending_parsed prior endpoint (some envelope) w =
      delivered (deliver_once d endpoint envelope prior.body prior.attempt (some prior) w)

  unfoldable pub pending_found : WebhookDeliveryRecord → Option WebhookEndpointRecord → World → Ran
  unfolding close_row pending_parsed
  pending_found prior none w = close_row prior (codes "endpoint_unavailable") true w
  pending_found prior (some endpoint) w =
      pending_parsed prior endpoint (d.parse_envelope prior.body) w

  -- The endpoint of the store that the run began with, or the current one.
  unfoldable pub process_pending :
      WebhookDeliveryRecord → Option WebhookEndpointRecord → World → Ran
  unfolding pending_found load_endpoint
  process_pending prior (some endpoint) w = pending_found prior (some endpoint) w
  process_pending prior none w =
      let live = load_endpoint d prior.webhook_id w in pending_found prior live.0 live.1

  abbrev pub used_up : WebhookDeliveryRecord → Patch
  used_up prior = record {
    status = some (if leb webhook_max_attempts prior.attempt then failed else retrying);
    http_status = none;
    attempted_at = none;
    next_retry_at = some none;
    error = some prior.error;
    attempt = none;
  }

  -- "Consume this schedule slot".
  unfoldable pub use_slot : WebhookDeliveryRecord → (id token : Text) → World → World
  unfolding finalize
  use_slot prior id token w = (finalize d id token (used_up prior) w).1

  -- The slot of this attempt is used up before the next attempt is enqueued.
  unfoldable pub next_attempt :
      WebhookDeliveryRecord
      → WebhookEndpointRecord
      → WebhookEnvelope
      → (id token : Text) → World
      → Ran
  unfolding finalize deliver_once use_slot
  next_attempt prior endpoint envelope id token w =
      if ltb webhook_max_attempts (prior.attempt + 1)
      then (some [], (finalize d id token (stopped none none) w).1)
      else delivered (
          deliver_once d endpoint envelope prior.body (prior.attempt + 1) none
            (use_slot prior id token w))

  unfoldable pub retry_parsed :
      WebhookDeliveryRecord
      → WebhookEndpointRecord
      → Option WebhookEnvelope
      → (id token : Text) → World
      → Ran
  unfolding next_attempt finalize
  retry_parsed prior endpoint none id token w =
      (some [], (finalize d id token (stopped (some (some (codes "invalid_body"))) none) w).1)
  retry_parsed prior endpoint (some envelope) id token w =
      next_attempt prior endpoint envelope id token w

  unfoldable pub retry_unavailable : (id token : Text) → World → Ran
  unfolding finalize
  retry_unavailable id token w =
      let done =
        finalize d id token (stopped (some (some (codes "endpoint_unavailable"))) none) w in
      (some (reported done.0), done.1)

  unfoldable pub retry_found :
      WebhookDeliveryRecord → Option WebhookEndpointRecord → (id token : Text) → World → Ran
  unfolding retry_unavailable retry_parsed
  retry_found prior none id token w = retry_unavailable id token w
  retry_found prior (some endpoint) id token w =
      if endpoint.enabled
      then retry_parsed prior endpoint (d.parse_envelope prior.body) id token w
      else retry_unavailable id token w

  unfoldable pub retry_claimed :
      WebhookDeliveryRecord
      → (first : Option WebhookEndpointRecord) → (token : Text) → Option WebhookDeliveryRecord
      → World
      → Ran
  unfolding retry_found load_endpoint
  retry_claimed prior first token none w = (some [], w)
  retry_claimed prior first token (some claimed) w =
      let live = load_endpoint d prior.webhook_id w in
      retry_found prior (some_or live.0 first) claimed.delivery_id token live.1

  unfoldable pub process_retrying :
      WebhookDeliveryRecord → Option WebhookEndpointRecord → World → Ran
  unfolding retry_claimed claim
  process_retrying prior first w =
      let claimed = claim d prior.delivery_id w in
      retry_claimed prior first (lease_token d w) claimed.0 claimed.1

  -- One turn of the loop, with the endpoint of the store that the run began with.
  unfoldable pub process_row :
      WebhookDeliveryRecord → WebhookDeliveryStatus → Option WebhookEndpointRecord → World → Ran
  unfolding process_pending process_retrying
  process_row prior pending first w = process_pending prior first w
  process_row prior _ first w = process_retrying prior first w

  -- The turns that follow one.
  unfoldable pub after_row : (World → Ran) → Ran → Ran
  after_row rest (none, w) = (none, w)
  after_row rest (some out, w) = prefix_rows out (rest w)

  unfoldable pub process_rows : WebhookStoreSection → List WebhookDeliveryRecord → World → Ran
  unfolding process_row after_row get
  process_rows s [] w = (some [], w)
  process_rows s (prior ∷ rows) w =
      after_row (process_rows s rows)
        (process_row prior prior.status (readable (get prior.webhook_id s.endpoints)) w)

  -- The rows of a run.
  unfoldable pub due_now : WebhookStoreSection → ℕ → List WebhookDeliveryRecord
  unfolding due_rows is_webhook_delivery_due
  due_now s now = take webhook_max_due_per_run (
      d.earliest_first
        (due_rows (λ row. is_webhook_delivery_due d.clock row now) (values s.deliveries)))

  -- `processDueWebhookDeliveries`.
  unfoldable pub process_due_webhook_deliveries : World → Ran
  unfolding process_rows due_now read_store
  process_due_webhook_deliveries w =
      let s = read_store d (λ s. s) w in process_rows s.0 (due_now s.0 (d.now_seconds s.1.step)) s.1
