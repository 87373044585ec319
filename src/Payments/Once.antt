-- ===== src/Payments/Once.antt =====
-- `applySettlementToStore` of src/lib/payStore.ts makes the transition to paid once.
use final_arc.Base.{
  ◌≡◌, refl, ap, ◌∙◌, true, false, Option, none, some, Text, text_eq_refl, get, put, get-put, arith,
}
use final_arc.Payments.{PayRecord, PaidProof, proof_tx, next_paid_record}
use final_arc.Payments.Settle.{
  Records, SettleApplyResult, settled, apply_settlement_to_store, settle_row, settle_next,
  pays_with,
}

-- What a settlement that made the transition has written.
abbrev Written : Records → Text → PaidProof → PayRecord → Records × SettleApplyResult → Type 0
Written store token proof row result =
    (result.0 ≡ put token row store) × (pays_with (proof_tx proof) row.paid_tx ≡ true)

settle_next-Written :
    (store : Records) (token : Text) (proof : PaidProof) (old row : PayRecord)
    (next : Option PayRecord)
    → (settle_next store token proof old next).1 ≡ settled row true
    → Written store token proof row (settle_next store token proof old next)
unfolding settle_next
settle_next-Written store token proof old row none h = ground arith
settle_next-Written store token proof old row (some new) h = ground arith

settle_row-Written :
    (store : Records) (token : Text) (proof : PaidProof) (old row : PayRecord) (paid : Option Text)
    → (settle_row store token proof old paid).1 ≡ settled row true
    → (paid ≡ none) × Written store token proof row (settle_row store token proof old paid)
unfolding settle_row
settle_row-Written store token proof old row (some t) h = ground arith
settle_row-Written store token proof old row none h = (
  refl,
  ground (arith, settle_next-Written store token proof old row (next_paid_record old proof)),
)

settlement-Written :
    (store : Records) (token : Text) (proof : PaidProof) (row : PayRecord)
    → (apply_settlement_to_store store token proof).1 ≡ settled row true
    → Written store token proof row (apply_settlement_to_store store token proof)
unfolding apply_settlement_to_store
settlement-Written store token proof row h =
    ground (arith, λ (old : PayRecord). settle_row-Written store token proof old row old.paid_tx)

settle_row_again :
    (store : Records) (token : Text) (proof : PaidProof) (row : PayRecord) (paid : Option Text)
    → pays_with (proof_tx proof) paid ≡ true
    → settle_row store token proof row paid ≡ (store, settled row false)
unfolding settle_row pays_with
settle_row_again store token proof row none h = cc
settle_row_again store token proof row (some t) h = ground arith

settlement_found :
    (store : Records) (token : Text) (proof : PaidProof) (row : PayRecord)
    → get token store ≡ some row
    → apply_settlement_to_store store token proof ≡ settle_row store token proof row row.paid_tx
unfolding apply_settlement_to_store
settlement_found store token proof row e = rw (e, apply_settlement_to_store)

get_self :
    (store : Records) (token : Text) (row : PayRecord) → get token (put token row store) ≡ some row
get_self store token row = rw (get-put token token row store, text_eq_refl token)

-- When a settlement makes the transition to paid, the same settlement again finds the row paid by
-- this transaction, makes no transition and leaves the rows as they are.
pub settlement_once :
    (store : Records) (token : Text) (proof : PaidProof) (row : PayRecord)
    → (apply_settlement_to_store store token proof).1 ≡ settled row true
    → let after = (apply_settlement_to_store store token proof).0 in
      (get token after ≡ some row)
      × (apply_settlement_to_store after token proof ≡ (after, settled row false))
settlement_once store token proof row h =
    let (eq, pays) = settlement-Written store token proof row h in
    let found = ap (get token) eq ∙ get_self store token row in
    (
      found,
      settlement_found (apply_settlement_to_store store token proof).0 token proof row found
          ∙ settle_row_again (apply_settlement_to_store store token proof).0 token proof row
              row.paid_tx pays,
    )
