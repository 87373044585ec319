-- ===== src/Webhooks/Attempts.antt =====
-- The attempts of stored deliveries (src/lib/webhooks.ts): no row has an attempt beyond the last.
use final_arc.Base.{
  ℕ, ◌≤◌, Bool, true, false, not, Option, none, some, List, [], ◌∷◌, if◌then◌else◌, All, Text,
  text_eq, get, values,
}
use final_arc.Webhooks.{WebhookDeliveryRecord}
use final_arc.Webhooks.Queue.{readable}
use final_arc.Webhooks.Schedule.{is_webhook_delivery_due, webhook_max_attempts}
use final_arc.Base.{or_else, put, remove, drop}
use final_arc.Webhooks.{Deliveries}
use final_arc.Webhooks.Schedule.{WebhookClock}
use final_arc.Webhooks.Queue.{
  DeliveryRequest, pending_row, keep_deliveries, rows_of, remove_rows, prune_deliveries,
  enqueue_pending_delivery, has_delivery_for_event_endpoint, leased, claim_row, claim_delivery,
  Patch, finalized, owned_by, finalize_row, finalize_claimed_delivery,
}

-- An attempt between the first and the last.
abbrev pub InRange : ℕ → Type 0
InRange attempt = (1 ≤ attempt) × (attempt ≤ webhook_max_attempts)

abbrev pub RowInRange : Option WebhookDeliveryRecord → Type 0
RowInRange none = Unit
RowInRange (some row) = InRange row.attempt

abbrev pub AttemptsInRange : Deliveries → Type 0
AttemptsInRange deliveries = All RowInRange (values deliveries)

pub get-InRange :
    (id : Text) (deliveries : Deliveries)
    → AttemptsInRange deliveries
    → RowInRange (readable (get id deliveries))
unfolding get
get-InRange id [] a = tt
get-InRange id ((j, row) ∷ rest) a = from (text_eq j id) (get-InRange id rest a.1)
  where
    from :
        (b : Bool)
        → RowInRange (readable (get id rest))
        → RowInRange (readable (if b then some row else get id rest))
    from true r = a.0
    from false r = r

put-InRange :
    (id : Text) (row : Option WebhookDeliveryRecord) (deliveries : Deliveries)
    → RowInRange row
    → AttemptsInRange deliveries
    → AttemptsInRange (put id row deliveries)
unfolding put
put-InRange id row [] h a = (h, tt)
put-InRange id row ((j, old) ∷ rest) h a = from (text_eq j id) (put-InRange id row rest h a.1)
  where
    from :
        (b : Bool)
        → AttemptsInRange (put id row rest)
        → AttemptsInRange (if b then (j, row) ∷ rest else (j, old) ∷ put id row rest)
    from true r = (h, a.1)
    from false r = (a.0, r)

remove-InRange :
    (id : Text) (deliveries : Deliveries)
    → AttemptsInRange deliveries
    → AttemptsInRange (remove id deliveries)
unfolding remove
remove-InRange id [] a = tt
remove-InRange id ((j, old) ∷ rest) a = from (text_eq j id) (remove-InRange id rest a.1)
  where
    from :
        (b : Bool)
        → AttemptsInRange (remove id rest)
        → AttemptsInRange (if b then remove id rest else (j, old) ∷ remove id rest)
    from true r = r
    from false r = (a.0, r)

remove_rows-InRange :
    (rows : List WebhookDeliveryRecord) (deliveries : Deliveries)
    → AttemptsInRange deliveries
    → AttemptsInRange (remove_rows rows deliveries)
unfolding remove_rows
remove_rows-InRange [] deliveries a = a
remove_rows-InRange (row ∷ rows) deliveries a =
    remove_rows-InRange rows (remove row.delivery_id deliveries)
      (remove-InRange row.delivery_id deliveries a)

-- A call on the deliveries keeps the range, and so does what it returns.
abbrev Kept : Option WebhookDeliveryRecord × Deliveries → Type 0
Kept r = RowInRange r.0 × AttemptsInRange r.1

if-Kept :
    (b : Bool) (x y : Option WebhookDeliveryRecord × Deliveries)
    → Kept x
    → Kept y
    → Kept (if b then x else y)
if-Kept true x y f g = f
if-Kept false x y f g = g

pub enqueue-InRange :
    (c : WebhookClock) (newest_first : List WebhookDeliveryRecord → List WebhookDeliveryRecord)
    (r : DeliveryRequest) (deliveries : Deliveries)
    → InRange r.attempt
    → AttemptsInRange deliveries
    → Kept (enqueue_pending_delivery c newest_first r deliveries)
unfolding enqueue_pending_delivery prune_deliveries pending_row
enqueue-InRange c newest_first r deliveries h a =
    if-Kept (has_delivery_for_event_endpoint deliveries r.event_id r.endpoint.id r.attempt)
      (none, deliveries)
      (
        some (pending_row c r),
        prune_deliveries newest_first r.endpoint.id
            (put r.delivery_id (some (pending_row c r)) deliveries),
      )
      (tt, a)
      (
        h,
        remove_rows-InRange
            (drop keep_deliveries (
              newest_first (
                rows_of r.endpoint.id
                  (values (put r.delivery_id (some (pending_row c r)) deliveries)))))
            (put r.delivery_id (some (pending_row c r)) deliveries)
            (put-InRange r.delivery_id (some (pending_row c r)) deliveries h a),
      )

pub claim-InRange :
    (c : WebhookClock) (id token : Text) (now : ℕ) (deliveries : Deliveries)
    → AttemptsInRange deliveries
    → Kept (claim_delivery c id token now deliveries)
unfolding claim_delivery claim_row leased
claim-InRange c id token now deliveries a =
    from (readable (get id deliveries)) (get-InRange id deliveries a)
  where
    from :
        (o : Option WebhookDeliveryRecord)
        → RowInRange o
        → Kept (claim_row c id token now deliveries o)
    from none h = (tt, a)
    from (some row) h =
        if-Kept (not (is_webhook_delivery_due c row now)) (none, deliveries)
          (some (leased c token now row), put id (some (leased c token now row)) deliveries) (tt, a)
          (h, put-InRange id (some (leased c token now row)) deliveries h a)

-- The attempt that a patch sets, if it sets one.
abbrev pub PatchInRange : Option ℕ → Type 0
PatchInRange none = Unit
PatchInRange (some n) = InRange n

patched-InRange : (o : Option ℕ) (n : ℕ) → PatchInRange o → InRange n → InRange (or_else o n)
patched-InRange none n p h = h
patched-InRange (some m) n p h = p

pub finalize-InRange :
    (id token : Text) (p : Patch) (deliveries : Deliveries)
    → PatchInRange p.attempt
    → AttemptsInRange deliveries
    → Kept (finalize_claimed_delivery id token p deliveries)
unfolding finalize_claimed_delivery finalize_row finalized
finalize-InRange id token p deliveries q a =
    from (readable (get id deliveries)) (get-InRange id deliveries a)
  where
    from :
        (o : Option WebhookDeliveryRecord)
        → RowInRange o
        → Kept (finalize_row id token p deliveries o)
    from none h = (tt, a)
    from (some row) h =
        if-Kept (not (owned_by token row.lease_owner)) (none, deliveries)
          (some (finalized p row), put id (some (finalized p row)) deliveries) (tt, a)
          (let k = patched-InRange p.attempt row.attempt q h in
            (k, put-InRange id (some (finalized p row)) deliveries k a))
