-- ===== src/Payments/Timing.antt =====
-- When a V2 proof pays a row of src/lib/payStore.ts: before the expiry, and before a cancellation.
use final_arc.Base.{◌≡◌, ◌↔◌, true, not, Option, none, some, is_some, Text, arith}
use final_arc.Base.Int.{ℤ, pos, ◌<ℤ◌, ◌≤ℤ◌, is_safe_integer}
use final_arc.Payments.{
  PayRecord, v2_proof, same_id, is_v2_request_id, next_paid_record, v2_proof_fits, before_cancel,
  is_late_settlement,
}

-- The time is before a recorded, safe cancellation time.
abbrev pub IsBefore : ℤ → Option ℤ → Type 0
IsBefore at none = ⊥
IsBefore at (some cancel_at) = (is_safe_integer cancel_at ≡ true) × (at <ℤ cancel_at)

-- What a V2 proof must meet to pay a row.
pub record IsTimely (row : PayRecord) (request_id : Text) (at expires_at : ℤ) : Type 0 where
  pub is_request : is_v2_request_id row.id ≡ true
  pub same_request : same_id row.id request_id ≡ true
  pub at_safe : is_safe_integer at ≡ true
  pub expires_safe : is_safe_integer expires_at ≡ true
  pub at_nonneg : pos 0 ≤ℤ at
  pub expires_nonneg : pos 0 ≤ℤ expires_at
  pub in_time : at <ℤ expires_at
  pub before_cancelled : row.cancelled ≡ true → IsBefore at row.cancelled_at_seconds

before_cancel_iff : (o : Option ℤ) (at : ℤ) → (before_cancel o at ≡ true) ↔ IsBefore at o
unfolding before_cancel
before_cancel_iff none at = ((λ e. cc), (λ h. absurd h))
before_cancel_iff (some cancel_at) at = ground arith

-- A V2 proof pays an unpaid row exactly when it names the row's request, its times are safe and not
-- negative, the settlement block is strictly before the expiry, and, for a cancelled row, strictly
-- before the recorded second of the cancellation.
pub next_paid_record_iff :
    (row : PayRecord) (tx request_id : Text) (at expires_at : ℤ)
    → row.paid_tx ≡ none
    → (is_some (next_paid_record row (v2_proof tx request_id at expires_at)) ≡ true)
      ↔ IsTimely row request_id at expires_at
unfolding next_paid_record v2_proof_fits
next_paid_record_iff row tx request_id at expires_at open_row =
    ground (arith, before_cancel_iff row.cancelled_at_seconds at)

-- For a cancelled, unpaid row and a proof that meets all else, payment and late settlement exclude
-- one another, and one of them holds.
pub is_late_settlement_iff :
    (row : PayRecord) (tx request_id : Text) (at expires_at : ℤ)
    → row.paid_tx ≡ none
    → row.cancelled ≡ true
    → v2_proof_fits row request_id at expires_at ≡ true
    → is_late_settlement row (v2_proof tx request_id at expires_at)
      ≡ not (is_some (next_paid_record row (v2_proof tx request_id at expires_at)))
unfolding next_paid_record v2_proof_fits is_late_settlement before_cancel
is_late_settlement_iff row tx request_id at expires_at open_row c fits = ground arith
