-- ===== src/Enforcement.antt =====
-- `decideMachinePolicy` of src/lib/paymentPolicies.ts: what the stored policies of a merchant say of
-- one machine payment, over one snapshot of the store.
pub mod Decide
pub mod Promises
use final_arc.Base.{
  ℕ, ◌+◌, Bool, true, false, not, ◌&&◌, ◌||◌, Option, none, some, List, [], ◌∷◌, ◌++◌,
  if◌then◌else◌, ltb, any_of, filter_by, is_empty, is_some, or_else, map, Text, codes, text_eq,
  to_lower_case, is_positive_decimal, big_int, values,
}
use final_arc.Base.Int.{ℤ, pos, is_safe_integer}
use final_arc.Base.Addresses.{Addresses, canonicalize_address}
use final_arc.Base.Values.{
  Value, undefined, null, boolean, number, fraction, string, array, object, Fields, read_field,
}
use final_arc.Policy.{
  PolicyReason, PaymentPolicyRules, PaymentPolicy, PolicyDecision, VerifiedSpend, EvaluationInput,
  invalid_policy, window_spend_limit_exceeded,
}
use final_arc.Policy.Evaluate.{evaluate_payment_policy}
use final_arc.Policy.Snapshot.{PolicySnapshot, snapshot_from_decision}
use final_arc.Ledger.{LedgerReservation, reserved, in_window}
use final_arc.Payments.{is_v2_request_id}
use final_arc.Agents.{Kept, row, foreign, StoredIntent, AgentStore}
use final_arc.Agents.Section.{is_verified}

-- A value of `policies.records`: one that `readStoredPolicy` accepts, or another object, with its
-- merchant and whether its `enabled` is false.
pub data PolicyRow : Type 0 where
  policy_row : PaymentPolicy → PolicyRow
  broken_row : (merchant : Option Text) → (disabled : Bool) → PolicyRow

pub record PolicyStore : Type 0 where
  pub records : List PolicyRow
  pub agents : AgentStore

-- A reservation as `readReservation` reads it.
pub record SpendReservation : Type 0 where
  pub merchant : Text
  pub amount_base_units : Text
  pub reserved_at : ℤ
  pub is_reserved : Bool

-- `createdAt` and the random id of a denial are left out.
pub record PolicyDenialRecord : Type 0 where
  pub merchant : Text
  pub agent_id : Option Text
  pub recipient : Text
  pub token : Text
  pub chain_id : ℤ
  pub amount_base_units : Text
  pub evaluated_at : ℤ
  pub policy_ids : List Text
  pub reasons : List PolicyReason

pub record MachinePolicyInput : Type 0 where
  pub merchant : Text
  pub agent_id : Option Text
  pub recipient : Text
  pub token : Text
  pub chain_id : Option ℤ
  pub amount : Option ℕ
  pub request_id : Text
  pub now : ℤ
  pub will_execute : Bool
  pub expires_at : Option ℤ

-- `throws` is where `snapshotFromDecision` throws.
pub data MachinePolicyPlan : Type 0 where
  skip defer throws : MachinePolicyPlan
  deny : PolicyDenialRecord → MachinePolicyPlan
  allows : PolicySnapshot → Option LedgerReservation → MachinePolicyPlan

abbrev pub both_equal : Option Text → Option Text → Bool
both_equal none b = false
both_equal (some a) none = false
both_equal (some a) (some b) = text_eq a b

abbrev pub text_of : Value → Option Text
text_of (string s) = some s
text_of _ = none

abbrev pub safe_number_of : Value → Option ℤ
safe_number_of (number n) = if is_safe_integer n then some n else none
safe_number_of _ = none

abbrev pub is_string : Text → Value → Bool
is_string t (string s) = text_eq s t
is_string t _ = false

abbrev pub spend_with : (ours : Bool) → Option Text → Option ℤ → Option VerifiedSpend
spend_with false amount at = none
spend_with true none at = none
spend_with true (some amount) none = none
spend_with true (some amount) (some at) =
    if not (is_positive_decimal amount)
    then none
    else some (record { amount_base_units = amount; verified_at = at })

abbrev pub safe_or_none : Option ℤ → Option ℤ
safe_or_none none = none
safe_or_none (some at) = if is_safe_integer at then some at else none

abbrev pub some_reservation :
    Option Text → Option Text → Option Text → Option ℤ → Value → Option SpendReservation
some_reservation (some id) (some merchant) (some amount) (some at) status =
    if not (is_positive_decimal amount)
    then none
    else (if not (
          is_string (codes "RESERVED") status
          || is_string (codes "CONSUMED") status
          || is_string (codes "RELEASED") status)
        then none
        else some (record {
          merchant = merchant;
          amount_base_units = amount;
          reserved_at = at;
          is_reserved = is_string (codes "RESERVED") status;
        }))
some_reservation _ _ _ _ status = none

-- `readReservation`.
unfoldable pub read_reservation : Value → Option SpendReservation
unfolding read_field is_safe_integer is_positive_decimal text_eq
read_reservation (object fs) =
    some_reservation (text_of (read_field (codes "id") fs))
      (text_of (read_field (codes "merchant") fs))
      (text_of (read_field (codes "amountBaseUnits") fs))
      (safe_number_of (read_field (codes "reservedAt") fs)) (read_field (codes "status") fs)
read_reservation _ = none

-- The sums of `BigInt(row.amountBaseUnits)`.
unfoldable pub spent_in : (now window : ℤ) → List VerifiedSpend → ℕ
unfolding in_window big_int
spent_in now window [] = 0
spent_in now window (s ∷ ss) =
    let rest = spent_in now window ss in
    if in_window now window s.verified_at then big_int s.amount_base_units + rest else rest

-- `reservedInWindow`.
unfoldable pub reserved_in_window : (now window : ℤ) → List SpendReservation → ℕ
unfolding in_window big_int
reserved_in_window now window [] = 0
reserved_in_window now window (r ∷ rs) =
    let rest = reserved_in_window now window rs in
    if r.is_reserved && in_window now window r.reserved_at
    then big_int r.amount_base_units + rest
    else rest

abbrev pub cap_of : Option PaymentPolicyRules → Option Text × Option ℤ
cap_of none = (none, none)
cap_of (some rules) = (rules.max_spend_base_units, rules.window_seconds)

-- The body of the loop of `tightestSpendDenial`.
unfoldable pub spend_reason :
    (id : Text) → (used : ℤ → ℕ) → (amount : ℕ) → Option Text × Option ℤ → List PolicyReason
spend_reason id used amount (none, window) = []
spend_reason id used amount (some cap, none) = []
spend_reason id used amount (some cap, some window) =
    if ltb (big_int cap) (used window + amount)
    then record {
      code = window_spend_limit_exceeded;
      message =
          codes "Amount exceeds the remaining spend window, including outstanding reservations.";
      policy_id = some id;
    }
      ∷ []
    else []

-- `tightestSpendDenial`.
unfoldable pub tightest_spend_denial :
    List PaymentPolicy → (used : ℤ → ℕ) → (amount : ℕ) → List PolicyReason
unfolding spend_reason
tightest_spend_denial [] used amount = []
tightest_spend_denial (p ∷ ps) used amount =
    spend_reason p.id used amount (cap_of p.rules) ++ tightest_spend_denial ps used amount

abbrev pub has_cap : PaymentPolicy → Bool
has_cap p = is_some (cap_of p.rules).0

abbrev pub policy_ids_of : List PaymentPolicy → List Text
policy_ids_of [] = []
policy_ids_of (p ∷ ps) = p.id ∷ policy_ids_of ps
