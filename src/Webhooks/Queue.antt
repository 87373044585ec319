-- ===== src/Webhooks/Queue.antt =====
-- The deliveries in the store (src/lib/webhooks.ts): each function is what the mutator of one call
-- makes of them, and what the call returns.
use final_arc.Base.{
  ℕ, ◌+◌, Bool, false, not, ◌&&◌, ◌||◌, Option, none, some, List, [], ◌∷◌, if◌then◌else◌, ◌==◌,
  Text, text_eq, drop, any_of, or_else, get, put, remove, values,
}
use final_arc.Webhooks.{
  WebhookEndpointRecord, WebhookDeliveryStatus, WebhookDeliveryRecord, pending, Deliveries,
}
use final_arc.Webhooks.Schedule.{WebhookClock, webhook_claim_lease_seconds, is_webhook_delivery_due}

-- The test of `hasDeliveryForEventEndpoint`: any attempt stands in the way of a first one.
unfoldable pub is_same_attempt :
    (event_id webhook_id : Text) (attempt : ℕ) → Option WebhookDeliveryRecord → Bool
is_same_attempt event_id webhook_id attempt none = false
is_same_attempt event_id webhook_id attempt (some row) =
    text_eq row.event_id event_id
    && text_eq row.webhook_id webhook_id
    && (attempt == 1 || row.attempt == attempt)

-- `hasDeliveryForEventEndpoint`.
unfoldable pub has_delivery_for_event_endpoint : Deliveries → Text → Text → ℕ → Bool
unfolding is_same_attempt
has_delivery_for_event_endpoint deliveries event_id webhook_id attempt =
    any_of (is_same_attempt event_id webhook_id attempt) (values deliveries)

-- The readable rows of a webhook.
unfoldable pub rows_of : Text → List (Option WebhookDeliveryRecord) → List WebhookDeliveryRecord
rows_of webhook_id [] = []
rows_of webhook_id (none ∷ rows) = rows_of webhook_id rows
rows_of webhook_id (some row ∷ rows) =
    if text_eq row.webhook_id webhook_id
    then row ∷ rows_of webhook_id rows
    else rows_of webhook_id rows

unfoldable pub remove_rows : List WebhookDeliveryRecord → Deliveries → Deliveries
unfolding remove
remove_rows [] deliveries = deliveries
remove_rows (row ∷ rows) deliveries = remove_rows rows (remove row.delivery_id deliveries)

abbrev pub keep_deliveries : ℕ
keep_deliveries = 100

-- `pruneDeliveries`. The comparison that the source sorts by does not say how ties go, so the sort
-- is an argument.
unfoldable pub prune_deliveries :
    (List WebhookDeliveryRecord → List WebhookDeliveryRecord) → Text → Deliveries → Deliveries
unfolding rows_of remove_rows
prune_deliveries newest_first webhook_id deliveries =
    remove_rows (drop keep_deliveries (newest_first (rows_of webhook_id (values deliveries))))
      deliveries

-- What one enqueue writes.
pub record DeliveryRequest : Type 0 where
  pub delivery_id : Text
  pub event_id : Text
  pub event_type : Text
  pub endpoint : WebhookEndpointRecord
  pub attempt : ℕ
  pub next_retry_at : Option Text
  pub raw_body : Text
  pub now : ℕ

unfoldable pub pending_row : WebhookClock → DeliveryRequest → WebhookDeliveryRecord
pending_row c r = record {
  delivery_id = r.delivery_id;
  event_id = r.event_id;
  event_type = r.event_type;
  webhook_id = r.endpoint.id;
  merchant = r.endpoint.merchant;
  attempt = r.attempt;
  status = pending;
  http_status = none;
  created_at = c.iso r.now;
  attempted_at = none;
  next_retry_at = r.next_retry_at;
  error = none;
  body = r.raw_body;
  lease_owner = none;
  lease_expires_at = none;
}

-- `enqueuePendingDelivery`.
unfoldable pub enqueue_pending_delivery :
    WebhookClock
    → (List WebhookDeliveryRecord → List WebhookDeliveryRecord)
    → DeliveryRequest
    → Deliveries
    → Option WebhookDeliveryRecord × Deliveries
unfolding pending_row has_delivery_for_event_endpoint prune_deliveries
enqueue_pending_delivery c newest_first r deliveries =
    if has_delivery_for_event_endpoint deliveries r.event_id r.endpoint.id r.attempt
    then (none, deliveries)
    else (
      some (pending_row c r),
      prune_deliveries newest_first r.endpoint.id
          (put r.delivery_id (some (pending_row c r)) deliveries),
    )

-- The first row of an attempt: `findDelivery`.
unfoldable pub find_in :
    (event_id webhook_id : Text) (attempt : ℕ)
    → List (Option WebhookDeliveryRecord)
    → Option WebhookDeliveryRecord
find_in event_id webhook_id attempt [] = none
find_in event_id webhook_id attempt (none ∷ rows) = find_in event_id webhook_id attempt rows
find_in event_id webhook_id attempt (some row ∷ rows) =
    if text_eq row.event_id event_id && text_eq row.webhook_id webhook_id && row.attempt == attempt
    then some row
    else find_in event_id webhook_id attempt rows

unfoldable pub find_delivery :
    (event_id webhook_id : Text) (attempt : ℕ) → Deliveries → Option WebhookDeliveryRecord
unfolding find_in
find_delivery event_id webhook_id attempt deliveries =
    find_in event_id webhook_id attempt (values deliveries)

-- `asDelivery(deliveries[id])`, and `asEndpoint` likewise.
abbrev pub readable {ℓ} : {A : Type ℓ} → Option (Option A) → Option A
readable none = none
readable (some row) = row

unfoldable pub leased : WebhookClock → Text → ℕ → WebhookDeliveryRecord → WebhookDeliveryRecord
leased c token now row = record row {
  lease_owner = some token;
  lease_expires_at = some (c.iso (now + webhook_claim_lease_seconds));
}

unfoldable pub claim_row :
    WebhookClock
    → (id token : Text) → ℕ
    → Deliveries
    → Option WebhookDeliveryRecord
    → Option WebhookDeliveryRecord × Deliveries
unfolding leased is_webhook_delivery_due
claim_row c id token now deliveries none = (none, deliveries)
claim_row c id token now deliveries (some row) =
    if not (is_webhook_delivery_due c row now)
    then (none, deliveries)
    else (some (leased c token now row), put id (some (leased c token now row)) deliveries)

-- `claimDelivery`, with the token that it drew and its clock.
unfoldable pub claim_delivery :
    WebhookClock → (id token : Text) → ℕ → Deliveries → Option WebhookDeliveryRecord × Deliveries
unfolding claim_row
claim_delivery c id token now deliveries =
    claim_row c id token now deliveries (readable (get id deliveries))

-- The patch of a finalization: a property that it leaves out is none.
pub record Patch : Type 0 where
  pub status : Option WebhookDeliveryStatus
  pub http_status : Option (Option ℕ)
  pub attempted_at : Option (Option Text)
  pub next_retry_at : Option (Option Text)
  pub error : Option (Option Text)
  pub attempt : Option ℕ

unfoldable pub finalized : Patch → WebhookDeliveryRecord → WebhookDeliveryRecord
finalized p row = record row {
  status = or_else p.status row.status;
  http_status = or_else p.http_status row.http_status;
  attempted_at = or_else p.attempted_at row.attempted_at;
  next_retry_at = or_else p.next_retry_at row.next_retry_at;
  error = or_else p.error row.error;
  attempt = or_else p.attempt row.attempt;
  lease_owner = none;
  lease_expires_at = none;
}

-- `current.leaseOwner === token`.
abbrev pub owned_by : Text → Option Text → Bool
owned_by token none = false
owned_by token (some owner) = text_eq owner token

unfoldable pub finalize_row :
    (id token : Text)
    → Patch
    → Deliveries
    → Option WebhookDeliveryRecord
    → Option WebhookDeliveryRecord × Deliveries
unfolding finalized
finalize_row id token p deliveries none = (none, deliveries)
finalize_row id token p deliveries (some row) =
    if not (owned_by token row.lease_owner)
    then (none, deliveries)
    else (some (finalized p row), put id (some (finalized p row)) deliveries)

-- `finalizeClaimedDelivery`.
unfoldable pub finalize_claimed_delivery :
    (id token : Text) → Patch → Deliveries → Option WebhookDeliveryRecord × Deliveries
unfolding finalize_row
finalize_claimed_delivery id token p deliveries =
    finalize_row id token p deliveries (readable (get id deliveries))
