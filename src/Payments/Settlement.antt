-- ===== src/Payments/Settlement.antt =====
-- What `applySettlementToStore` of src/lib/payStore.ts does to a row that is not paid yet.
use final_arc.Base.{
  ◌≡◌, refl, ◌⊎◌, inl, inr, true, false, Option, none, some, Text, put, values, any_of, arith,
  Bool-cases,
}
use final_arc.Payments.{PayRecord, PaidProof, proof_tx, next_paid_record, is_late_settlement}
use final_arc.Payments.Settle.{
  Records, SettleApplyResult, settle_row, settle_next, pays_with, replays, pays_request,
}

-- The row is paid by this proof: no other row has used the transaction, no other row of the request
-- is paid, and the row's own rules accept the proof.
abbrev pub Pays : Records → Text → PaidProof → PayRecord → PayRecord → Type 0
Pays store token proof row new =
    (any_of (replays token (proof_tx proof)) (values store) ≡ false)
    × (any_of (pays_request token proof) (values store) ≡ false)
    × (next_paid_record row proof ≡ some new)
    × (pays_with (proof_tx proof) new.paid_tx ≡ true)

abbrev pub Outcomes : Records → Text → PaidProof → PayRecord → Records × SettleApplyResult → Type 0
Outcomes store token proof row result =
    (result.0 ≡ store)
    ⊎ ((new : PayRecord) × (result.0 ≡ put token new store)
        × (Pays store token proof row new
            ⊎ ((new.token ≡ row.token) × (new.paid_tx ≡ row.paid_tx))))

settle_next_cases :
    (store : Records) (token : Text) (proof : PaidProof) (row : PayRecord) (next : Option PayRecord)
    → any_of (replays token (proof_tx proof)) (values store) ≡ false
    → any_of (pays_request token proof) (values store) ≡ false
    → next_paid_record row proof ≡ next
    → Outcomes store token proof row (settle_next store token proof row next)
unfolding settle_next
settle_next_cases store token proof row none r q n =
    elim (Bool-cases (is_late_settlement row proof)) [
      | inl l ↦
          rw l (
            inr (record row { late_settlement_tx = some (proof_tx proof) }, refl, inr (refl, refl)))
      | inr l ↦ rw l (inl refl)
    ]
settle_next_cases store token proof row (some new) r q n =
    elim (Bool-cases (pays_with (proof_tx proof) new.paid_tx)) [
      | inl p ↦ rw (p, settle_next) (inr (new, refl, inl (r, q, n, p)))
      | inr p ↦ elim (Bool-cases (is_late_settlement row proof)) [
        | inl l ↦
            rw (p, l)
              (inr
                (record row { late_settlement_tx = some (proof_tx proof) }, refl, inr (refl, refl)))
        | inr l ↦ rw (p, l) (inl refl)
      ]
    ]

settle_row_open :
    (store : Records) (token : Text) (proof : PaidProof) (row : PayRecord)
    → any_of (replays token (proof_tx proof)) (values store) ≡ false
    → any_of (pays_request token proof) (values store) ≡ false
    → settle_row store token proof row none
      ≡ settle_next store token proof row (next_paid_record row proof)
unfolding settle_row
settle_row_open store token proof row r q = rw (r, q)

settle_row_same :
    (store : Records) (token : Text) (proof : PaidProof) (row : PayRecord)
    → (any_of (replays token (proof_tx proof)) (values store) ≡ true)
      ⊎ (any_of (pays_request token proof) (values store) ≡ true)
    → (settle_row store token proof row none).0 ≡ store
unfolding settle_row
settle_row_same store token proof row h = ground arith

-- The rows stay as they are, or the one row is replaced: paid by the proof, or with the late
-- transaction noted and the payment unchanged.
pub settle_unpaid_cases :
    (store : Records) (token : Text) (proof : PaidProof) (row : PayRecord)
    → Outcomes store token proof row (settle_row store token proof row none)
settle_unpaid_cases store token proof row =
    elim (Bool-cases (any_of (replays token (proof_tx proof)) (values store))) [
      | inl r ↦ inl (settle_row_same store token proof row (inl r))
      | inr r ↦ elim (Bool-cases (any_of (pays_request token proof) (values store))) [
        | inl q ↦ inl (settle_row_same store token proof row (inr q))
        | inr q ↦
            rw (settle_row_open store token proof row r q)
              (settle_next_cases store token proof row _ r q refl)
      ]
    ]
