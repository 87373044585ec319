-- ===== src/Payments/Settle.antt =====
-- `applySettlementToStore` of src/lib/payStore.ts, and the other writes of payment rows.
use final_arc.Base.{
  ◌+◌, Bool, true, false, not, ◌&&◌, ◌||◌, Option, none, some, [], ◌∷◌, ◌++◌, if◌then◌else◌,
  is_some, or_else, Text, text_eq, to_lower_case, map, length, leb, any_of, includes, Entries, get,
  put, values, codes, drop_prefix, lower_hex, ◌==◌,
}
use final_arc.Base.Int.{ℤ}
use final_arc.Payments.{
  PayRecord, PaidProof, v1_proof, v2_proof, proof_tx, CancelCommand, v1_cancel, v2_cancel, same_id,
  is_v2_request_id, max_submitted_hashes, merge_pay_record, next_paid_record, is_late_settlement,
  next_cancelled_record,
}

abbrev pub Records : Type 0
Records = Entries PayRecord

pub data SettleConflictCode : Type 0 where
  not_found settlement_used duplicate_request already_paid_different : SettleConflictCode
  rejected late_settlement : SettleConflictCode

pub data SettleApplyResult : Type 0 where
  settled : PayRecord → (transitioned : Bool) → SettleApplyResult
  refused : SettleConflictCode → Option PayRecord → SettleApplyResult

-- `paidTx && sameTx(paidTx, tx)`.
unfoldable pub pays_with : Text → Option Text → Bool
unfolding same_id
pays_with tx none = false
pays_with tx (some paid) = same_id paid tx

-- The test of the first loop over the other rows.
unfoldable pub replays : Text → Text → PayRecord → Bool
unfolding pays_with
replays token tx other = not (text_eq other.token token) && pays_with tx other.paid_tx

-- The test of the second loop, which V2 proofs alone go through.
unfoldable pub pays_request : Text → PaidProof → PayRecord → Bool
unfolding same_id is_v2_request_id
pays_request token (v1_proof tx) other = false
pays_request token (v2_proof tx request_id at expires_at) other =
    not (text_eq other.token token)
    && is_v2_request_id other.id
    && same_id other.id request_id
    && is_some other.paid_tx

-- The end of the function, by what `nextPaidRecord` returned, for a row that is not paid yet.
unfoldable pub settle_next :
    Records → Text → PaidProof → PayRecord → Option PayRecord → Records × SettleApplyResult
unfolding pays_with is_late_settlement
settle_next store token proof row next =
    if elim next [ none ↦ false | some n ↦ pays_with (proof_tx proof) n.paid_tx ]
    then (put token (or_else next row) store, settled (or_else next row) true)
    else (if is_late_settlement row proof
        then (let late = record row { late_settlement_tx = some (proof_tx proof) } in
            (put token late store, refused late_settlement (some late)))
        else (store, refused rejected (some row)))

unfoldable pub settle_row :
    Records → Text → PaidProof → PayRecord → Option Text → Records × SettleApplyResult
unfolding replays pays_request settle_next next_paid_record same_id
settle_row store token proof row (some paid) =
    if same_id paid (proof_tx proof)
    then (store, settled row false)
    else (store, refused already_paid_different (some row))
settle_row store token proof row none =
    if any_of (replays token (proof_tx proof)) (values store)
    then (store, refused settlement_used (some row))
    else (if any_of (pays_request token proof) (values store)
        then (store, refused duplicate_request (some row))
        else settle_next store token proof row (next_paid_record row proof))

unfoldable pub apply_settlement_to_store : Records → Text → PaidProof → Records × SettleApplyResult
unfolding settle_row
apply_settlement_to_store store token proof = elim (get token store) [
  | none ↦ (store, refused not_found none)
  | some row ↦ settle_row store token proof row row.paid_tx
]

-- The mutator of `upsertRecord`.
unfoldable pub upsert_record : PayRecord → Records → Records
unfolding merge_pay_record
upsert_record row store = put row.token (merge_pay_record (get row.token store) row) store

-- The mutator of `markPaid`.
unfoldable pub mark_paid : Text → PaidProof → Records → Records
unfolding next_paid_record
mark_paid token proof store = elim (get token store) [
  | none ↦ store
  | some row ↦ elim (next_paid_record row proof) [ none ↦ store | some next ↦ put token next store ]
]

-- The mutator of `markViewed`.
unfoldable pub mark_viewed : Text → Text → Records → Records
mark_viewed token now store = elim (get token store) [
  | none ↦ store
  | some row ↦ put token (record row { views = row.views + 1; last_viewed_at = some now }) store
]

-- The guard of `markCancelled`: the payee of a V1 row, the request id of a V2 row.
unfoldable pub may_cancel : PayRecord → CancelCommand → Bool
unfolding same_id is_v2_request_id
may_cancel row (v1_cancel payee) = same_id row.to payee
may_cancel row (v2_cancel request_id now_seconds expires_at) =
    is_v2_request_id row.id && same_id row.id request_id

abbrev cancel_seconds : CancelCommand → ℤ → ℤ
cancel_seconds (v1_cancel payee) clock_seconds = clock_seconds
cancel_seconds (v2_cancel request_id now_seconds expires_at) clock_seconds = now_seconds

-- The mutator of `markCancelled`, at a clock that reads `now`, `clock_seconds` in seconds.
unfoldable pub mark_cancelled : Text → CancelCommand → Text → ℤ → Records → Records
unfolding may_cancel next_cancelled_record
mark_cancelled token command now clock_seconds store = elim (get token store) [
  | none ↦ store
  | some row ↦
      if may_cancel row command
      then put token
          (next_cancelled_record row now command (cancel_seconds command clock_seconds)
            clock_seconds)
          store
      else store
]

-- `/^0x[0-9a-f]{64}$/` on a text in lower case, and the mutator of `addSubmittedHash`.
unfoldable pub is_hash : Text → Bool
unfolding drop_prefix lower_hex
is_hash s = elim (drop_prefix (codes "0x") s) [
  | none ↦ false
  | some digits ↦ length digits == 64 && lower_hex digits
]

unfoldable pub add_hash : Text → PayRecord → PayRecord
unfolding to_lower_case
add_hash hash row =
    let current = map to_lower_case (or_else row.submitted_hashes []) in
    if includes current hash || leb max_submitted_hashes (length current)
    then row
    else record row { submitted_hashes = some (current ++ hash ∷ []) }

unfoldable pub add_submitted_hash : Text → Text → Records → Records
unfolding is_hash add_hash
add_submitted_hash token tx_hash store =
    let hash = to_lower_case tx_hash in
    if not (is_hash hash)
    then store
    else elim (get token store) [ none ↦ store | some row ↦ put token (add_hash hash row) store ]
