-- ===== src/Orchestration/Refines.antt =====
-- `settleAndEnqueue` of src/lib/settlement.ts is the settlement of the records, with deliveries.
use final_arc.Base.{
  ◌≡◌, refl, sym, ap, subst, ◌∙◌, true, false, Option, none, some, Text, Bool-cases, inl, inr,
}
use final_arc.Base.Int.{ℤ}
use final_arc.Payments.{PayRecord, PaidProof}
use final_arc.Payments.Settle.{SettleApplyResult, settled, refused, apply_settlement_to_store}
use final_arc.Payments.Once.{settlement_once}
use final_arc.Orchestration.Enqueue.{
  StoreFile, Outside, SettleWithWebhookResult, is_paid_by, enqueue_payment_paid_in_store, announce,
  after_settlement, settle_and_enqueue,
}

-- The result is the settlement's, the records stay, and only a transition adds deliveries.
Extends : StoreFile → SettleApplyResult → StoreFile × SettleWithWebhookResult → Type 0
Extends store outcome result =
    (result.0.records ≡ store.records)
    × (result.0.endpoints ≡ store.endpoints)
    × (result.1.outcome ≡ outcome)

enqueue-records :
    (x : Outside) (store : StoreFile) (row : PayRecord) (tx : Text) (now : ℤ)
    → ((enqueue_payment_paid_in_store x store row tx now).1.records ≡ store.records)
      × ((enqueue_payment_paid_in_store x store row tx now).1.endpoints ≡ store.endpoints)
unfolding enqueue_payment_paid_in_store
enqueue-records x store row tx now = elim (Bool-cases (is_paid_by tx row.paid_tx)) [
  | inl e ↦ rw e (refl, refl)
  | inr e ↦ rw e (refl, refl)
]

announce-Extends :
    (x : Outside) (store : StoreFile) (row : PayRecord) (o : Option Text) (now : ℤ)
    → Extends store (settled row true) (announce x store row o now)
unfolding announce Extends
announce-Extends x store row none now = (refl, refl, refl)
announce-Extends x store row (some tx) now =
    let e = enqueue-records x store row tx now in (e.0, e.1, refl)

after_settlement-Extends :
    (x : Outside) (store : StoreFile) (outcome : SettleApplyResult) (now : ℤ)
    → Extends store outcome (after_settlement x store outcome now)
unfolding after_settlement Extends
after_settlement-Extends x store (settled row true) now =
    announce-Extends x store row row.paid_tx now
after_settlement-Extends x store (settled row false) now = (refl, refl, refl)
after_settlement-Extends x store (refused code row) now = (refl, refl, refl)

-- `settleAndEnqueue` does to the records, and answers, what `applySettlementToStore` does, and it
-- leaves the endpoints as they are.
pub settle_and_enqueue-apply_settlement_to_store :
    (x : Outside) (token : Text) (proof : PaidProof) (now : ℤ) (store : StoreFile)
    → let result = settle_and_enqueue x token proof now store in
      (result.0.records ≡ (apply_settlement_to_store store.records token proof).0)
      × (result.0.endpoints ≡ store.endpoints)
      × (result.1.outcome ≡ (apply_settlement_to_store store.records token proof).1)
unfolding settle_and_enqueue Extends
settle_and_enqueue-apply_settlement_to_store x token proof now store =
    after_settlement-Extends x _ (apply_settlement_to_store store.records token proof).1 now

quiet_settlement :
    (x : Outside) (store : StoreFile) (outcome : SettleApplyResult) (now : ℤ) (row : PayRecord)
    → outcome ≡ settled row false
    → (after_settlement x store outcome now).0 ≡ store
unfolding after_settlement
quiet_settlement x store outcome now row e = rw e refl

settle_and_enqueue-quiet :
    (x : Outside) (token : Text) (proof : PaidProof) (now : ℤ) (store : StoreFile) (row : PayRecord)
    → (apply_settlement_to_store store.records token proof).1 ≡ settled row false
    → (settle_and_enqueue x token proof now store).0.deliveries ≡ store.deliveries
unfolding settle_and_enqueue
settle_and_enqueue-quiet x token proof now store row e =
    ap (λ s. s.deliveries)
      (quiet_settlement x
        (record store { records = (apply_settlement_to_store store.records token proof).0 })
        (apply_settlement_to_store store.records token proof).1 now row e)

-- When a settlement makes a row paid, the same settlement again, at any time and with any random
-- ids, adds no delivery.
pub settle_and_enqueue_once :
    (x y : Outside) (token : Text) (proof : PaidProof) (now later : ℤ) (store : StoreFile)
    (row : PayRecord)
    → (settle_and_enqueue x token proof now store).1.outcome ≡ settled row true
    → let after = (settle_and_enqueue x token proof now store).0 in
      (settle_and_enqueue y token proof later after).0.deliveries ≡ after.deliveries
settle_and_enqueue_once x y token proof now later store row h =
    let r = settle_and_enqueue-apply_settlement_to_store x token proof now store in
    let once = settlement_once store.records token proof row (sym r.2 ∙ h) in
    settle_and_enqueue-quiet y token proof later (settle_and_enqueue x token proof now store).0 row
      (subst (λ m. (apply_settlement_to_store m token proof).1 ≡ settled row false) (sym r.0)
        (ap (λ q. q.1) once.1))
