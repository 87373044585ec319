-- ===== src/Orchestration/Enqueue.antt =====
-- `enqueuePaymentPaidInStore` and `settleAndEnqueue` of src/lib/settlement.ts.
use final_arc.Base.{
  ℕ, suc, Bool, true, false, not, ◌&&◌, Option, none, some, List, [], ◌∷◌, ◌++◌, if◌then◌else◌,
  ◌==◌, Text, text_eq, includes, codes, to_lower_case, take, is_empty, any_of, put, values,
}
use final_arc.Base.Int.{ℤ}
use final_arc.Webhooks.{
  WebhookEndpointRecord, WebhookDeliveryRecord, pending, Endpoints, Deliveries,
}
use final_arc.Payments.{PayRecord, PaidProof, same_id}
use final_arc.Payments.Settle.{
  Records, SettleApplyResult, settled, refused, apply_settlement_to_store,
}

-- The sections of the store that a settlement touches; a missing section is read as an empty one.
pub record StoreFile : Type 0 where
  pub records : Records
  pub endpoints : Endpoints
  pub deliveries : Deliveries

-- What the code takes from outside: `sha256` in hex digits, the ISO text of a second, the JSON text
-- of the event's envelope, and the ids that `randomBytes` gives to one run of the loop.
pub record Outside : Type 0 where
  pub sha256_hex : Text → Text
  pub iso : ℤ → Text
  pub envelope : (event_id created_at : Text) → PayRecord → Text → Text
  pub random_id : ℕ → Text

abbrev pub payment_paid : Text
payment_paid = codes "payment.paid"

-- `paymentPaidEventId`.
unfoldable pub payment_paid_event_id : Outside → PayRecord → Text → Text
unfolding to_lower_case
payment_paid_event_id x row paid_tx =
    let id = to_lower_case (if is_empty row.id then row.token else row.id) in
    codes "evt_paid_" ++ take 32 (x.sha256_hex (id ++ b':' ∷ to_lower_case paid_tx))

-- The test of `hasDelivery`, on rows that can be read: a row that `asDelivery` cannot read has no
-- fields here.
unfoldable pub is_first_attempt : Text → Text → Option WebhookDeliveryRecord → Bool
is_first_attempt event_id webhook_id none = false
is_first_attempt event_id webhook_id (some row) =
    text_eq row.event_id event_id && text_eq row.webhook_id webhook_id && row.attempt == 1

-- `hasDelivery`.
unfoldable pub has_delivery : Deliveries → Text → Text → Bool
unfolding is_first_attempt
has_delivery deliveries event_id webhook_id =
    any_of (is_first_attempt event_id webhook_id) (values deliveries)

-- The guards of the loop on an endpoint, but for the last.
unfoldable pub subscribes : Text → WebhookEndpointRecord → Bool
unfolding same_id includes
subscribes merchant e = e.enabled && same_id e.merchant merchant && includes e.events payment_paid

-- The endpoint of an entry, where the loop inserts a delivery for it.
unfoldable pub target :
    Text → Text → Deliveries → Option WebhookEndpointRecord → Option WebhookEndpointRecord
unfolding subscribes has_delivery
target merchant event_id deliveries none = none
target merchant event_id deliveries (some e) =
    if subscribes merchant e && not (has_delivery deliveries event_id e.id) then some e else none

-- What the deliveries of one event share.
pub record Event : Type 0 where
  pub id : Text
  pub merchant : Text
  pub created_at : Text
  pub raw_body : Text

unfoldable pub first_delivery : Event → Text → WebhookEndpointRecord → WebhookDeliveryRecord
first_delivery v delivery_id e = record {
  delivery_id = delivery_id;
  event_id = v.id;
  event_type = payment_paid;
  webhook_id = e.id;
  merchant = e.merchant;
  attempt = 1;
  status = pending;
  http_status = none;
  created_at = v.created_at;
  attempted_at = none;
  next_retry_at = none;
  error = none;
  body = v.raw_body;
  lease_owner = none;
  lease_expires_at = none;
}

-- `` `dlv_${randomBytes(12)}` ``, of the nth draw.
unfoldable pub fresh_id : Outside → ℕ → Text
fresh_id x n = codes "dlv_" ++ x.random_id n

-- The loop over the endpoints, after `n` insertions: the inserted ids, and the deliveries.
unfoldable pub enqueue_loop :
    Outside → Event → List (Option WebhookEndpointRecord) → ℕ → Deliveries → List Text × Deliveries
unfolding target first_delivery fresh_id
enqueue_loop x v [] n deliveries = ([], deliveries)
enqueue_loop x v (value ∷ rest) n deliveries = elim (target v.merchant v.id deliveries value) [
  | none ↦ enqueue_loop x v rest n deliveries
  | some e ↦
      let id = fresh_id x n in
      let (inserted, final) =
        enqueue_loop x v rest (suc n) (put id (some (first_delivery v id e)) deliveries) in
      (id ∷ inserted, final)
]

unfoldable pub paid_event : Outside → PayRecord → Text → ℤ → Event
unfolding payment_paid_event_id
paid_event x row paid_tx now_seconds =
    let id = payment_paid_event_id x row paid_tx in
    record {
      id = id;
      merchant = row.to;
      created_at = x.iso now_seconds;
      raw_body = x.envelope id (x.iso now_seconds) row paid_tx;
    }

-- `row.paidTx && sameHex(row.paidTx, paidTx)`.
unfoldable pub is_paid_by : Text → Option Text → Bool
unfolding same_id
is_paid_by paid_tx none = false
is_paid_by paid_tx (some tx) = same_id tx paid_tx

-- `enqueuePaymentPaidInStore`.
unfoldable pub enqueue_payment_paid_in_store :
    Outside → StoreFile → PayRecord → Text → ℤ → List Text × StoreFile
unfolding enqueue_loop is_paid_by paid_event
enqueue_payment_paid_in_store x store row paid_tx now_seconds =
    if not (is_paid_by paid_tx row.paid_tx)
    then ([], store)
    else (let (inserted, deliveries) =
          enqueue_loop x (paid_event x row paid_tx now_seconds) (values store.endpoints) 0
            store.deliveries in
        (inserted, record store { deliveries = deliveries }))

pub record SettleWithWebhookResult : Type 0 where
  pub outcome : SettleApplyResult
  pub delivery_ids : List Text
  pub event_id : Option Text

-- The end of the mutator of `settleAndEnqueue`: a transition to paid is announced.
unfoldable pub announce :
    Outside → StoreFile → PayRecord → Option Text → ℤ → StoreFile × SettleWithWebhookResult
unfolding enqueue_payment_paid_in_store
announce x store row none now_seconds =
    (store, record { outcome = settled row true; delivery_ids = []; event_id = none })
announce x store row (some paid) now_seconds =
    let (ids, store') = enqueue_payment_paid_in_store x store row paid now_seconds in
    (
      store',
      record {
        outcome = settled row true;
        delivery_ids = ids;
        event_id = some (payment_paid_event_id x row paid);
      },
    )

unfoldable pub after_settlement :
    Outside → StoreFile → SettleApplyResult → ℤ → StoreFile × SettleWithWebhookResult
unfolding announce
after_settlement x store (settled row true) now_seconds =
    announce x store row row.paid_tx now_seconds
after_settlement x store (settled row false) now_seconds =
    (store, record { outcome = settled row false; delivery_ids = []; event_id = none })
after_settlement x store (refused code row) now_seconds =
    (store, record { outcome = refused code row; delivery_ids = []; event_id = none })

-- `settleAndEnqueue`: what its mutator makes of the store.
unfoldable pub settle_and_enqueue :
    Outside → Text → PaidProof → ℤ → StoreFile → StoreFile × SettleWithWebhookResult
unfolding after_settlement apply_settlement_to_store
settle_and_enqueue x token proof now_seconds store =
    let (records, outcome) = apply_settlement_to_store store.records token proof in
    after_settlement x (record store { records = records }) outcome now_seconds
