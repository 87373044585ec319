-- ===== src/Orchestration/Proofs.antt =====
-- What src/lib/settlement.ts needs to call a payment paid.
use final_arc.Base.{
  ℕ, ◌≡◌, ◌≢◌, inl, inr, refl, ◌∙◌, Bool, true, false, not, ◌&&◌, Option, none, some, [], Text,
  text_eq_iff, get, put, get-put, or_else, any_of, leb, length, to_lower_case, arith, Bool-cases,
  Option-cases,
}
use final_arc.Base.Int.{ℤ}
use final_arc.Payments.{PayRecord, PaidProof, same_id}
use final_arc.Payments.Settle.{Records, settled, is_hash, add_submitted_hash, add_hash}
use final_arc.Payments.Final.{add_hash-paid_tx}
use final_arc.Orchestration.Enqueue.{StoreFile, Outside, settle_and_enqueue}
use final_arc.Orchestration.Submit.{
  SubmittedProofResult, proof, no_receipt, no_answer, failed_tx, no_match, after_verify,
  add_candidate, with_candidate, within_limit, submit_unpaid, submit_by, submit_transaction_hash,
  max_submit_candidates,
}

-- The transaction that the store says a token is paid by.
abbrev paid_of_row : Option PayRecord → Option Text
paid_of_row none = none
paid_of_row (some row) = row.paid_tx

abbrev pub paid_of : Text → StoreFile → Option Text
paid_of t store = paid_of_row (get t store.records)

add_hash-paid_of :
    (t token hash : Text) (records : Records) (row : PayRecord)
    → get token records ≡ some row
    → paid_of_row (get t (put token (add_hash hash row) records)) ≡ paid_of_row (get t records)
add_hash-paid_of t token hash records row e = ground (
  arith,
  get-put t token (add_hash hash row) records,
  text_eq_iff token t,
  add_hash-paid_tx hash row,
)

add_submitted_hash-paid_of :
    (t token tx : Text) (records : Records)
    → paid_of_row (get t (add_submitted_hash token tx records)) ≡ paid_of_row (get t records)
unfolding add_submitted_hash
add_submitted_hash-paid_of t token tx records = elim (Bool-cases (is_hash (to_lower_case tx))) [
  | inr e ↦ rw e refl
  | inl e ↦ elim (Option-cases (get token records)) [
    | inl n ↦ rw (e, n) refl
    | inr (row, r) ↦ rw (e, r) (add_hash-paid_of t token (to_lower_case tx) records row r)
  ]
]

-- A proof of the transaction, and the settlement of the store that it made.
abbrev pub Settles :
    Outside → (Text → SubmittedProofResult) → Text → Text → ℤ → PayRecord → Bool → Type 0
Settles x verify token tx now r transitioned =
    (p : PaidProof) × (verify tx ≡ proof p)
    × ((s : StoreFile) × ((settle_and_enqueue x token p now s).1.outcome ≡ settled r transitioned))

module _ (x : Outside) (verify : Text → SubmittedProofResult) (others : ℕ → StoreFile → StoreFile)
    (token tx : Text) (now : ℤ) where
  module _ (t : Text) (unproved : (p : PaidProof) → verify tx ≢ proof p)
      (kept : (n : ℕ) (s : StoreFile) → paid_of t (others n s) ≡ paid_of t s) where
    with_candidate-paid_of :
        (known : Bool) (row : PayRecord) (store : StoreFile)
        → paid_of t (with_candidate known (others 0) token tx row store).0 ≡ paid_of t store
    unfolding with_candidate add_candidate
    with_candidate-paid_of true row store = refl
    with_candidate-paid_of false row store =
        add_submitted_hash-paid_of t token tx (others 0 store).records ∙ kept 0 store

    after_verify-paid_of :
        (row : PayRecord) (store : StoreFile) (v : SubmittedProofResult)
        → verify tx ≡ v
        → paid_of t (after_verify x (others 1) token now row store v).store ≡ paid_of t store
    unfolding after_verify
    after_verify-paid_of row store (proof p) e = absurd (unproved p e)
    after_verify-paid_of row store no_receipt e = refl
    after_verify-paid_of row store no_answer e = refl
    after_verify-paid_of row store failed_tx e = refl
    after_verify-paid_of row store no_match e = refl

    within_limit-paid_of :
        (full : Bool) (row : PayRecord) (store : StoreFile) (next : StoreFile × PayRecord)
        → paid_of t next.0 ≡ paid_of t store
        → paid_of t (within_limit x verify others token tx now full row store next).store
          ≡ paid_of t store
    unfolding within_limit
    within_limit-paid_of true row store next e = refl
    within_limit-paid_of false row store next e =
        after_verify-paid_of next.1 next.0 (verify tx) refl ∙ e

    submit_unpaid-paid_of :
        (row : PayRecord) (store : StoreFile)
        → paid_of t (submit_unpaid x verify others token tx now row store).store ≡ paid_of t store
    unfolding submit_unpaid
    submit_unpaid-paid_of row store =
        let known = any_of (λ k. same_id k tx) (or_else row.submitted_hashes []) in
        let full = leb max_submit_candidates (length (or_else row.submitted_hashes [])) in
        within_limit-paid_of (not known && full) row store
          (with_candidate known (others 0) token tx row store)
          (with_candidate-paid_of known row store)

    by_paid :
        (same : Bool) (q : Text) (row : PayRecord) (store : StoreFile)
        → same ≡ same_id q tx
        → paid_of t (submit_by x verify others token tx now row store (some q)).store
          ≡ paid_of t store
    unfolding submit_by
    by_paid true q row store e = rw⁻¹ e refl
    by_paid false q row store e = rw⁻¹ e refl

    submit_by-paid_of :
        (row : PayRecord) (store : StoreFile) (o : Option Text)
        → paid_of t (submit_by x verify others token tx now row store o).store ≡ paid_of t store
    unfolding submit_by
    submit_by-paid_of row store none = submit_unpaid-paid_of row store
    submit_by-paid_of row store (some q) = by_paid (same_id q tx) q row store refl

    -- A submission whose transaction the check does not accept changes no row's payment, as long as
    -- the other writers leave that payment alone.
    pub submit_transaction_hash-unproved :
        (row : PayRecord) (store : StoreFile)
        → paid_of t (submit_transaction_hash x verify others token tx now row store).store
          ≡ paid_of t store
    unfolding submit_transaction_hash
    submit_transaction_hash-unproved row store = submit_by-paid_of row store row.paid_tx
