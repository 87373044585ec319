-- ===== src/Webhooks/Deliver.antt =====
-- One delivery attempt (src/lib/webhooks.ts): `httpDeliver` and `deliverOnce`. Between two steps on the
-- store any other callers may change it; the clock, random ids, the resolver and the other end of the
-- connection answer by the number of the step.
use final_arc.Base.{
  ℕ, suc, ◌+◌, Bool, true, false, ◌&&◌, Option, none, some, List, ◌∷◌, ◌++◌, if◌then◌else◌, ltb,
  leb, or_else, get, Text, codes,
}
use final_arc.Webhooks.{
  WebhookEndpointRecord, WebhookDeliveryRecord, WebhookDeliveryStatus, success, failed, retrying,
  WebhookStoreSection, WebhookEnvelope, Deliveries,
}
use final_arc.Webhooks.Schedule.{
  WebhookClock, AttemptKind, succeeded, retryable, permanent, classify_webhook_attempt,
  retry_delay_seconds,
}
use final_arc.Webhooks.Queue.{
  DeliveryRequest, enqueue_pending_delivery, find_delivery, readable, claim_delivery, Patch,
  finalized, finalize_claimed_delivery,
}
use final_arc.Webhooks.Destination.{
  Url, Checked, allowed, refused, thrown, assert_safe_webhook_destination,
}

-- What goes over the wire.
pub record Post : Type 0 where
  pub url : Text
  pub addresses : List Text
  pub webhook_id : Text
  pub timestamp : ℕ
  pub signature : Text
  pub body : Text

-- `WebhookDeps` and the modules that the code calls: `decrypt` is none where it throws a
-- `WebhookSecretCryptoError`, `fetch` is none where it rejects, else the status.
pub record WebhookDeps : Type 0 where
  pub clock : WebhookClock
  pub now_seconds : ℕ → ℕ
  pub random_id : Text → ℕ → Text
  pub others : ℕ → WebhookStoreSection → WebhookStoreSection
  pub newest_first : List WebhookDeliveryRecord → List WebhookDeliveryRecord
  pub earliest_first : List WebhookDeliveryRecord → List WebhookDeliveryRecord
  pub parse_envelope : Text → Option WebhookEnvelope
  pub decrypt : WebhookEndpointRecord → Option Text
  pub hmac_hex : (secret payload : Text) → Text
  pub show_number : ℕ → Text
  pub parse_url : Text → Option Url
  pub is_ip : Text → Bool
  pub resolve_host : ℕ → Text → Option (List Text)
  pub fetch : ℕ → Post → Option ℕ

-- The store, the steps so far, and the requests sent, the last one first.
pub record World : Type 0 where
  pub step : ℕ
  pub store : WebhookStoreSection
  pub posts : List Post

pub record HttpResult : Type 0 where
  pub http_status : Option ℕ
  pub error : Option Text
  pub network_error : Bool

-- A mutator of the deliveries on the section.
unfoldable pub on_deliveries {ℓ} :
    {A : Type ℓ} → (Deliveries → A × Deliveries) → WebhookStoreSection → A × WebhookStoreSection
on_deliveries f s = let r = f s.deliveries in (r.0, record s { deliveries = r.1 })

module _ (d : WebhookDeps) where
  -- One step on the store, after those of other callers.
  unfoldable pub mutate {ℓ} :
      {A : Type ℓ} → (WebhookStoreSection → A × WebhookStoreSection) → World → A × World
  mutate f w =
      let r = f (d.others w.step w.store) in (r.0, record w { step = suc w.step; store = r.1 })

  -- The row that `deliverOnce` has enqueued, due at once.
  abbrev pub request_of :
      WebhookEndpointRecord → WebhookEnvelope → Text → ℕ → World → DeliveryRequest
  request_of endpoint envelope raw_body attempt w = record {
    delivery_id = d.random_id (codes "dlv") w.step;
    event_id = envelope.id;
    event_type = envelope.event_type;
    endpoint = endpoint;
    attempt = attempt;
    next_retry_at = none;
    raw_body = raw_body;
    now = d.now_seconds w.step;
  }

  unfoldable pub enqueue :
      WebhookEndpointRecord
      → WebhookEnvelope
      → Text
      → ℕ
      → World
      → Option WebhookDeliveryRecord × World
  unfolding mutate on_deliveries enqueue_pending_delivery
  enqueue endpoint envelope raw_body attempt w =
      mutate
        (on_deliveries (
          enqueue_pending_delivery d.clock d.newest_first
            (request_of endpoint envelope raw_body attempt w)))
        w

  -- `readPayStoreBlob` and what the caller takes from it.
  unfoldable pub read_store {ℓ} : {A : Type ℓ} → (WebhookStoreSection → A) → World → A × World
  unfolding mutate
  read_store f w = mutate (λ s. (f s, s)) w

  -- `loadEndpoint`.
  unfoldable pub load_endpoint : Text → World → Option WebhookEndpointRecord × World
  unfolding read_store get
  load_endpoint id w = read_store (λ s. readable (get id s.endpoints)) w

  -- The token that a claim draws.
  abbrev pub lease_token : World → Text
  lease_token w = d.random_id (codes "lease") w.step

  unfoldable pub claim : Text → World → Option WebhookDeliveryRecord × World
  unfolding mutate on_deliveries claim_delivery
  claim id w =
      mutate (on_deliveries (claim_delivery d.clock id (lease_token w) (d.now_seconds w.step))) w

  unfoldable pub finalize : (id token : Text) → Patch → World → Option WebhookDeliveryRecord × World
  unfolding mutate on_deliveries finalize_claimed_delivery
  finalize id token p w = mutate (on_deliveries (finalize_claimed_delivery id token p)) w

  abbrev pub now_iso : World → Text
  now_iso w = d.clock.iso (d.now_seconds w.step)

  -- `signWebhookBody`.
  unfoldable pub sign_webhook_body : (secret : Text) → ℕ → Text → Text
  sign_webhook_body secret timestamp raw_body =
      d.hmac_hex secret (d.show_number timestamp ++ (b'.' ∷ raw_body))

  -- What the answer to a request means.
  unfoldable pub answered : Option ℕ → HttpResult
  answered none = record {
    http_status = none;
    error = some (codes "network_error");
    network_error = true;
  }
  answered (some status) = record {
    http_status = some status;
    error =
        if leb 200 status && ltb status 300
        then none
        else some (codes "HTTP " ++ d.show_number status);
    network_error = false;
  }

  unfoldable pub post_to :
      WebhookEndpointRecord
      → WebhookEnvelope
      → Text
      → (secret : Text) → Checked (List Text)
      → World
      → HttpResult × World
  unfolding answered sign_webhook_body
  post_to endpoint envelope raw_body secret (refused message) w =
      (record { http_status = none; error = some message; network_error = false }, w)
  post_to endpoint envelope raw_body secret thrown w = (answered none, w)
  post_to endpoint envelope raw_body secret (allowed addresses) w =
      let post : Post = record {
        url = endpoint.url;
        addresses = addresses;
        webhook_id = envelope.id;
        timestamp = d.now_seconds w.step;
        signature = sign_webhook_body secret (d.now_seconds w.step) raw_body;
        body = raw_body;
      } in
      (answered (d.fetch w.step post), record w { step = suc w.step; posts = post ∷ w.posts })

  unfoldable pub deliver_signed :
      WebhookEndpointRecord → WebhookEnvelope → Text → Option Text → World → HttpResult × World
  unfolding post_to assert_safe_webhook_destination
  deliver_signed endpoint envelope raw_body none w = (
    record {
      http_status = none;
      error = some (codes "webhook_secret_unavailable");
      network_error = true;
    },
    w,
  )
  deliver_signed endpoint envelope raw_body (some secret) w =
      post_to endpoint envelope raw_body secret
        (assert_safe_webhook_destination d.parse_url d.is_ip (d.resolve_host w.step) endpoint.url) w

  -- `httpDeliver`.
  unfoldable pub http_deliver :
      WebhookEndpointRecord → WebhookEnvelope → Text → World → HttpResult × World
  unfolding deliver_signed
  http_deliver endpoint envelope raw_body w =
      deliver_signed endpoint envelope raw_body (d.decrypt endpoint) w

  -- The status and the next time that an outcome leads to.
  unfoldable pub after_attempt :
      AttemptKind → Option ℕ → (now : ℕ) → WebhookDeliveryStatus × Option Text
  after_attempt succeeded delay now = (success, none)
  after_attempt retryable none now = (failed, none)
  after_attempt retryable (some delay) now = (retrying, some (d.clock.iso (now + delay)))
  after_attempt permanent delay now = (failed, none)

  -- What `deliverOnce` writes after the request.
  unfoldable pub outcome_patch : HttpResult → (attempt : ℕ) → World → Patch
  unfolding after_attempt classify_webhook_attempt retry_delay_seconds
  outcome_patch result attempt w =
      let next =
        after_attempt (classify_webhook_attempt result.http_status result.network_error)
          (retry_delay_seconds attempt) (d.now_seconds w.step) in
      record {
        status = some next.0;
        http_status = some result.http_status;
        attempted_at = some (some (now_iso w));
        next_retry_at = some next.1;
        error = some result.error;
        attempt = none;
      }

  abbrev pub endpoint_unavailable : World → Patch
  endpoint_unavailable w = record {
    status = some failed;
    http_status = some none;
    attempted_at = some (some (now_iso w));
    next_retry_at = some none;
    error = some (some (codes "endpoint_unavailable"));
    attempt = none;
  }

  -- The request, and the finalization under the lease.
  unfoldable pub deliver_live :
      WebhookEndpointRecord
      → WebhookEnvelope
      → Text
      → ℕ
      → WebhookDeliveryRecord
      → (token : Text) → World
      → WebhookDeliveryRecord × World
  unfolding http_deliver outcome_patch finalize finalized
  deliver_live live envelope raw_body attempt row token w =
      let sent = http_deliver live envelope raw_body w in
      let p = outcome_patch sent.0 attempt sent.1 in
      let done = finalize row.delivery_id token p sent.1 in
      (or_else done.0 (finalized p row), done.1)

  unfoldable pub deliver_failed :
      WebhookDeliveryRecord → (token : Text) → World → WebhookDeliveryRecord × World
  unfolding finalize
  deliver_failed row token w =
      let done = finalize row.delivery_id token (endpoint_unavailable w) w in
      (or_else done.0 row, done.1)

  unfoldable pub deliver_claimed :
      WebhookEnvelope
      → Text
      → ℕ
      → WebhookDeliveryRecord
      → (token : Text) → Option WebhookEndpointRecord
      → World
      → WebhookDeliveryRecord × World
  unfolding deliver_live deliver_failed
  deliver_claimed envelope raw_body attempt row token none w = deliver_failed row token w
  deliver_claimed envelope raw_body attempt row token (some live) w =
      if live.enabled
      then deliver_live live envelope raw_body attempt row token w
      else deliver_failed row token w

  -- Past the claim of `deliverOnce`.
  unfoldable pub after_claim :
      WebhookEndpointRecord
      → WebhookEnvelope
      → Text
      → ℕ
      → WebhookDeliveryRecord
      → (token : Text) → Option WebhookDeliveryRecord
      → World
      → WebhookDeliveryRecord × World
  unfolding deliver_claimed load_endpoint read_store get
  after_claim endpoint envelope raw_body attempt row token none w =
      let now = read_store (λ s. readable (get row.delivery_id s.deliveries)) w in
      (or_else now.0 row, now.1)
  after_claim endpoint envelope raw_body attempt row token (some claimed) w =
      let live = load_endpoint endpoint.id w in
      deliver_claimed envelope raw_body attempt claimed token live.0 live.1

  unfoldable pub deliver_row :
      WebhookEndpointRecord
      → WebhookEnvelope
      → Text
      → ℕ
      → WebhookDeliveryRecord
      → World
      → WebhookDeliveryRecord × World
  unfolding after_claim claim
  deliver_row endpoint envelope raw_body attempt row w =
      let claimed = claim row.delivery_id w in
      after_claim endpoint envelope raw_body attempt row (lease_token w) claimed.0 claimed.1

  -- A refused enqueue: the row that stood in its way; none is "Webhook enqueue failed.".
  unfoldable pub after_enqueue :
      WebhookEndpointRecord
      → WebhookEnvelope
      → Text
      → ℕ
      → Option WebhookDeliveryRecord
      → World
      → Option WebhookDeliveryRecord × World
  unfolding deliver_row read_store find_delivery
  after_enqueue endpoint envelope raw_body attempt none w =
      read_store (λ s. find_delivery envelope.id endpoint.id attempt s.deliveries) w
  after_enqueue endpoint envelope raw_body attempt (some row) w =
      let done = deliver_row endpoint envelope raw_body attempt row w in (some done.0, done.1)

  -- `deliverOnce`; none where it throws.
  unfoldable pub deliver_once :
      WebhookEndpointRecord
      → WebhookEnvelope
      → Text
      → ℕ
      → Option WebhookDeliveryRecord
      → World
      → Option WebhookDeliveryRecord × World
  unfolding after_enqueue deliver_row enqueue
  deliver_once endpoint envelope raw_body attempt (some existing) w =
      let done = deliver_row endpoint envelope raw_body attempt existing w in (some done.0, done.1)
  deliver_once endpoint envelope raw_body attempt none w =
      let stored = enqueue endpoint envelope raw_body attempt w in
      after_enqueue endpoint envelope raw_body attempt stored.0 stored.1
