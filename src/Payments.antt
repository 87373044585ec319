-- ===== src/Payments.antt =====
-- src/lib/payStore.ts: payment rows, and what may become of one row: merging, payment,
-- cancellation, its phase. `paidTx` and the other hashes are never empty texts.
pub mod Settle
pub mod Settlement
pub mod Final
pub mod Replay
pub mod Sequence
pub mod Timing
pub mod Once
use final_arc.Base.{
  ℕ, suc, zero, ◌+◌, Bool, true, false, not, ◌&&◌, ◌||◌, Option, none, some, List, [], ◌∷◌, ◌++◌,
  if◌then◌else◌, is_some, or_else, ltb, leb, ◌==◌, Text, text_eq, to_lower_case, map, length, codes,
  includes, drop_prefix, all_hex,
}
use final_arc.Base.Int.{ℤ, pos, ltb_ℤ, leb_ℤ, is_safe_integer}

pub record PayRecord : Type 0 where
  pub token : Text
  pub id : Text
  pub to : Text
  pub amount : Text
  pub memo : Text
  pub created_at : Text
  pub views : ℕ
  pub last_viewed_at : Option Text
  pub cancelled : Bool
  pub cancelled_at : Option Text
  pub cancelled_at_seconds : Option ℤ
  pub paid_tx : Option Text
  pub paid_block_timestamp : Option ℤ
  pub submitted_hashes : Option (List Text)
  pub late_settlement_tx : Option Text
  pub webhook_url : Option Text

abbrev pub max_submitted_hashes : ℕ
max_submitted_hashes = 3

pub data PaidProof : Type 0 where
  v1_proof : Text → PaidProof
  v2_proof : (tx request_id : Text) (block_timestamp expires_at : ℤ) → PaidProof

-- `proof.tx`.
abbrev pub proof_tx : PaidProof → Text
proof_tx (v1_proof tx) = tx
proof_tx (v2_proof tx request_id at expires_at) = tx

pub data CancelCommand : Type 0 where
  v1_cancel : (payee : Text) → CancelCommand
  v2_cancel : (request_id : Text) (now_seconds expires_at : ℤ) → CancelCommand

-- `sameId`, `sameTx`, `sameHex`: equal up to case.
unfoldable pub same_id : Text → Text → Bool
same_id left right = text_eq (to_lower_case left) (to_lower_case right)

-- `/^0x[0-9a-fA-F]{32}$/`.
unfoldable pub is_v2_request_id : Text → Bool
unfolding drop_prefix all_hex
is_v2_request_id id = elim (drop_prefix (codes "0x") id) [
  | none ↦ false
  | some digits ↦ length digits == 32 && all_hex digits
]

-- `a ?? b`, where `b` may be missing too.
abbrev pub first_of_two : {A : Type 0} → Option A → Option A → Option A
first_of_two none b = b
first_of_two (some a) b = some a

-- The two branches of `mergePayRecord` for a row that exists.
unfoldable pub merge_pay_record : Option PayRecord → PayRecord → PayRecord
merge_pay_record none incoming = incoming
merge_pay_record (some existing) incoming =
    let url = first_of_two incoming.webhook_url existing.webhook_url in
    if is_some existing.paid_tx || existing.cancelled
    then record existing { webhook_url = url }
    else record existing {
      amount = incoming.amount;
      memo = incoming.memo;
      to = incoming.to;
      id = incoming.id;
      paid_tx = none;
      webhook_url = url;
    }

-- The guards of `nextPaidRecord` on a V2 proof, before it looks at the cancellation.
unfoldable pub v2_proof_fits : PayRecord → Text → ℤ → ℤ → Bool
unfolding is_v2_request_id same_id
v2_proof_fits row request_id at expires_at =
    is_v2_request_id row.id
    && same_id row.id request_id
    && is_safe_integer at
    && is_safe_integer expires_at
    && not (ltb_ℤ at (pos 0) || ltb_ℤ expires_at (pos 0))
    && not (leb_ℤ expires_at at)

-- `cancelAt == null || !isSafeInteger(cancelAt) || blockTimestamp >= cancelAt` fails.
unfoldable pub before_cancel : Option ℤ → ℤ → Bool
before_cancel none at = false
before_cancel (some cancel_at) at = is_safe_integer cancel_at && not (leb_ℤ cancel_at at)

-- `nextPaidRecord` for an unpaid row.
unfoldable pub pay_unpaid : PayRecord → PaidProof → Option PayRecord
unfolding v2_proof_fits before_cancel is_v2_request_id
pay_unpaid row (v2_proof tx request_id at expires_at) =
    if not (v2_proof_fits row request_id at expires_at)
    then none
    else (if row.cancelled
        then (if not (before_cancel row.cancelled_at_seconds at)
            then none
            else some (record row {
              paid_tx = some tx;
              paid_block_timestamp = some at;
              cancelled = false;
              cancelled_at = none;
            }))
        else some (record row { paid_tx = some tx; paid_block_timestamp = some at }))
pay_unpaid row (v1_proof tx) =
    if is_v2_request_id row.id
    then none
    else (if row.cancelled then none else some (record row { paid_tx = some tx }))

-- `nextPaidRecord`.
unfoldable pub next_paid_record : PayRecord → PaidProof → Option PayRecord
unfolding pay_unpaid
next_paid_record row proof = if is_some row.paid_tx then some row else pay_unpaid row proof

-- `isLateSettlement`.
unfoldable pub is_late_settlement : PayRecord → PaidProof → Bool
unfolding is_v2_request_id same_id
is_late_settlement row (v1_proof tx) = false
is_late_settlement row (v2_proof tx request_id at expires_at) =
    row.cancelled
    && not (is_some row.paid_tx)
    && is_v2_request_id row.id
    && same_id row.id request_id
    && is_safe_integer at
    && is_safe_integer expires_at
    && not (leb_ℤ expires_at at)
    && (elim row.cancelled_at_seconds [
      | none ↦ true
      | some cancel_at ↦ not (is_safe_integer cancel_at) || leb_ℤ cancel_at at
    ])

-- `command?.version === 2 && command.nowSeconds >= command.expiresAt`.
abbrev pub past_expiry : CancelCommand → Bool
past_expiry (v1_cancel payee) = false
past_expiry (v2_cancel request_id now_seconds expires_at) = leb_ℤ expires_at now_seconds

-- `nextCancelledRecord` as `markCancelled` calls it, with the command and the seconds given.
-- `clock_seconds` is the clock, read where the seconds are no safe integer or negative.
unfoldable pub next_cancelled_record :
    PayRecord → Text → CancelCommand → (seconds clock_seconds : ℤ) → PayRecord
next_cancelled_record row cancelled_at command seconds clock_seconds =
    if is_some row.paid_tx || row.cancelled || past_expiry command then row else record row {
      cancelled = true;
      cancelled_at = some cancelled_at;
      cancelled_at_seconds =
          some
            (if is_safe_integer seconds && leb_ℤ (pos 0) seconds then seconds else clock_seconds);
    }

pub data PayPhase : Type 0 where
  opened viewed paid cancelled_phase expired : PayPhase

unfoldable pub is_derived_expired : ℤ → Option ℤ → Bool
is_derived_expired now_seconds none = false
is_derived_expired now_seconds (some expires_at) = leb_ℤ expires_at now_seconds

-- `payPhase`.
unfoldable pub pay_phase : PayRecord → ℤ → Option ℤ → PayPhase
unfolding is_derived_expired
pay_phase row now_seconds expires_at =
    if is_some row.paid_tx
    then paid
    else (if row.cancelled
        then cancelled_phase
        else (if is_derived_expired now_seconds expires_at
            then expired
            else (if ltb 0 row.views then viewed else opened)))
