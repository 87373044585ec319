-- ===== src/Orchestration/Submit.antt =====
-- `submitTransactionHash` of src/lib/settlement.ts. The check of the transaction on the chain is an
-- argument, as it is in the code; other writers of the store may come between any two steps.
use final_arc.Base.{
  ℕ, Bool, true, false, not, ◌&&◌, Option, none, some, [], if◌then◌else◌, leb, Text, codes,
  to_lower_case, any_of, length, or_else, get,
}
use final_arc.Base.Int.{ℤ}
use final_arc.Payments.{PayRecord, PaidProof, same_id}
use final_arc.Payments.Settle.{
  SettleApplyResult, SettleConflictCode, settled, refused, not_found, settlement_used,
  duplicate_request, already_paid_different, rejected, late_settlement, is_hash, add_submitted_hash,
}
use final_arc.Orchestration.Enqueue.{StoreFile, Outside, settle_and_enqueue}

abbrev pub max_submit_candidates : ℕ
max_submit_candidates = 3

-- `proof`, `not_found`, `rpc_unavailable`, `reverted` and `mismatch`.
pub data SubmittedProofResult : Type 0 where
  proof : PaidProof → SubmittedProofResult
  no_receipt no_answer failed_tx no_match : SubmittedProofResult

pub data CandidateReason : Type 0 where
  tx_not_found rpc_unavailable reverted mismatch pending : CandidateReason

-- A rejection carries its HTTP status, its message and its code.
pub data SubmitOutcome : Type 0 where
  paid : PayRecord → (transitioned : Bool) → SubmitOutcome
  candidate : PayRecord → CandidateReason → SubmitOutcome
  turned_down : (status : ℕ) (error code : Text) → Option PayRecord → SubmitOutcome

-- What a call leaves: its answer, the store, and whether it starts the first delivery.
pub record Submitted : Type 0 where
  pub answer : SubmitOutcome
  pub store : StoreFile
  pub kicked : Bool

-- The code's words for what the store refused; the other refusals keep the candidate.
unfoldable pub refused_answer : PayRecord → SettleConflictCode → Option PayRecord → SubmitOutcome
refused_answer row settlement_used record_ =
    turned_down 409 (codes "Transaction already settles another payment request.")
      (codes "settlement_used") record_
refused_answer row duplicate_request record_ =
    turned_down 409 (codes "This requestId is already settled on another row.")
      (codes "duplicate_request") record_
refused_answer row late_settlement record_ =
    turned_down 409 (codes "Settlement was mined at or after cancellation.")
      (codes "late_settlement") record_
refused_answer row already_paid_different record_ =
    turned_down 409 (codes "Payment already settled with a different transaction.")
      (codes "already_paid_different") record_
refused_answer row not_found record_ = candidate row mismatch
refused_answer row rejected record_ = candidate row mismatch

unfoldable pub settled_answer : PayRecord → StoreFile → PayRecord → Bool → Option Text → Submitted
settled_answer row store new transitioned none = record {
  answer = candidate row mismatch;
  store = store;
  kicked = false;
}
settled_answer row store new transitioned (some tx) = record {
  answer = paid new transitioned;
  store = store;
  kicked = transitioned;
}

unfoldable pub after_settle : PayRecord → StoreFile → SettleApplyResult → Submitted
unfolding settled_answer refused_answer
after_settle row store (settled new transitioned) =
    settled_answer row store new transitioned new.paid_tx
after_settle row store (refused code record_) = record {
  answer = refused_answer row code record_;
  store = store;
  kicked = false;
}

-- What follows the check of the transaction, for the row that the candidate left.
unfoldable pub after_verify :
    Outside
    → (StoreFile → StoreFile)
    → Text
    → ℤ
    → PayRecord
    → StoreFile
    → SubmittedProofResult
    → Submitted
unfolding after_settle settle_and_enqueue
after_verify x others token now row store (proof p) =
    let (store', result) = settle_and_enqueue x token p now (others store) in
    after_settle row store' result.outcome
after_verify x others token now row store no_answer = record {
  answer = candidate row rpc_unavailable;
  store = store;
  kicked = false;
}
after_verify x others token now row store no_receipt = record {
  answer = candidate row tx_not_found;
  store = store;
  kicked = false;
}
after_verify x others token now row store failed_tx = record {
  answer = candidate row reverted;
  store = store;
  kicked = false;
}
after_verify x others token now row store no_match = record {
  answer = candidate row mismatch;
  store = store;
  kicked = false;
}

-- `addSubmittedHash`: the store, and the row that it returns.
unfoldable pub add_candidate : Text → Text → StoreFile → StoreFile × Option PayRecord
unfolding add_submitted_hash is_hash
add_candidate token tx_hash store =
    let records = add_submitted_hash token tx_hash store.records in
    (
      record store { records = records },
      if is_hash (to_lower_case tx_hash) then get token records else none,
    )

-- A hash that is new to the row is stored before it is checked.
unfoldable pub with_candidate :
    Bool → (StoreFile → StoreFile) → Text → Text → PayRecord → StoreFile → StoreFile × PayRecord
unfolding add_candidate
with_candidate true others token tx_hash row store = (store, row)
with_candidate false others token tx_hash row store =
    let (store', updated) = add_candidate token tx_hash (others store) in
    (store', or_else updated row)

-- The limit on candidates, then the candidate and the check; `next` is what storing it leaves.
unfoldable pub within_limit :
    Outside
    → (verify : Text → SubmittedProofResult) → (others : ℕ → StoreFile → StoreFile)
    → (token tx_hash : Text) → ℤ
    → (full : Bool) → PayRecord
    → StoreFile
    → (next : StoreFile × PayRecord) → Submitted
unfolding after_verify
within_limit x verify others token tx_hash now true row store next = record {
  answer =
      turned_down 409 (codes "Too many submitted transaction hashes for this payment.")
        (codes "candidate_limit") (some row);
  store = store;
  kicked = false;
}
within_limit x verify others token tx_hash now false row store next =
    after_verify x (others 1) token now next.1 next.0 (verify tx_hash)

-- `submitTransactionHash` for a row that is not paid.
unfoldable pub submit_unpaid :
    Outside
    → (verify : Text → SubmittedProofResult) → (others : ℕ → StoreFile → StoreFile)
    → (token tx_hash : Text) → ℤ
    → PayRecord
    → StoreFile
    → Submitted
unfolding within_limit with_candidate same_id
submit_unpaid x verify others token tx_hash now row store =
    let candidates = or_else row.submitted_hashes [] in
    let already = any_of (λ h. same_id h tx_hash) candidates in
    within_limit x verify others token tx_hash now
      (not already && leb max_submit_candidates (length candidates)) row store
      (with_candidate already (others 0) token tx_hash row store)

-- `submitTransactionHash`, on the row that the caller has read.
unfoldable pub submit_by :
    Outside
    → (verify : Text → SubmittedProofResult) → (others : ℕ → StoreFile → StoreFile)
    → (token tx_hash : Text) → ℤ
    → PayRecord
    → StoreFile
    → Option Text
    → Submitted
unfolding submit_unpaid same_id
submit_by x verify others token tx_hash now row store none =
    submit_unpaid x verify others token tx_hash now row store
submit_by x verify others token tx_hash now row store (some paid_tx) =
    if same_id paid_tx tx_hash
    then record { answer = paid row false; store = store; kicked = false }
    else record {
      answer =
          turned_down 409 (codes "Payment already settled with a different transaction.")
            (codes "already_paid_different") (some row);
      store = store;
      kicked = false;
    }

unfoldable pub submit_transaction_hash :
    Outside
    → (verify : Text → SubmittedProofResult) → (others : ℕ → StoreFile → StoreFile)
    → (token tx_hash : Text) → ℤ
    → PayRecord
    → StoreFile
    → Submitted
unfolding submit_by
submit_transaction_hash x verify others token tx_hash now row store =
    submit_by x verify others token tx_hash now row store row.paid_tx
