-- ===== src/Policy.antt =====
-- src/lib/paymentPolicy.ts: a merchant's payment policies and the rules that they hold.
pub mod Evaluate
pub mod Rules
pub mod Decision
pub mod Parse
pub mod WellFormed
pub mod Readable
pub mod Snapshot
use final_arc.Base.{
  ℕ, ◌+◌, ◌≡◌, Bool, true, false, not, ◌&&◌, ◌||◌, Option, none, some, List, [], ◌∷◌, ◌++◌, map,
  if◌then◌else◌, ltb, leb, ◌==◌, Text, codes, text_eq, text_lt, includes, is_decimal,
  is_positive_decimal, big_int, is_empty, any_of, filter_by, is_some,
}
use final_arc.Base.Int.{ℤ, pos, ltb_ℤ, leb_ℤ, ◌-ℤ◌, is_safe_integer}
use final_arc.Base.Addresses.{Addresses, canonicalize_address}
use final_arc.Base.Values.{Value, trim}

pub data PolicyDenialCode : Type 0 where
  amount_limit_exceeded window_spend_limit_exceeded recipient_not_allowed : PolicyDenialCode
  agent_not_allowed token_not_allowed chain_not_allowed invalid_policy : PolicyDenialCode

pub record PolicyReason : Type 0 where
  pub code : PolicyDenialCode
  pub message : Text
  pub policy_id : Option Text

-- An optional property is `none` when the object omits it.
pub record PaymentPolicyRules : Type 0 where
  pub max_amount_base_units : Option Text
  pub max_spend_base_units : Option Text
  pub window_seconds : Option ℤ
  pub allowed_recipients : Option (List Text)
  pub allowed_agent_ids : Option (List Text)
  pub allowed_tokens : Option (List Text)
  pub allowed_chain_ids : Option (List ℤ)

-- `rules` is `none` where the stored value is no object.
pub record PaymentPolicy : Type 0 where
  pub id : Text
  pub merchant : Text
  pub name : Text
  pub enabled : Bool
  pub created_at : Text
  pub updated_at : Text
  pub version : ℕ
  pub rules : Option PaymentPolicyRules

abbrev pub policy_version : ℕ
policy_version = 1

pub record VerifiedSpend : Type 0 where
  pub amount_base_units : Text
  pub verified_at : ℤ

pub record PolicyDecision : Type 0 where
  pub allowed : Bool
  pub policy_version : ℕ
  pub policy_ids : List Text
  pub reasons : List PolicyReason

-- `policyAmount`.
unfoldable pub policy_amount : Value → Option ℕ
policy_amount (Value.number (pos n)) =
    if not (is_safe_integer (pos n)) || n == 0 then none else some n
policy_amount (Value.string s) =
    let trimmed = trim s in if is_positive_decimal trimmed then some (big_int trimmed) else none
policy_amount _ = none

-- An empty id is falsy, and is left out.
unfoldable pub reason : PolicyDenialCode → Text → Text → PolicyReason
reason code message id = record {
  code = code;
  message = message;
  policy_id = if is_empty id then none else some id;
}

-- Whether the loop of `spendInWindow` counts a row.
unfoldable pub counts_as_spend : ℤ → ℤ → VerifiedSpend → Bool
counts_as_spend now window_seconds row =
    is_safe_integer row.verified_at
    && not (leb_ℤ row.verified_at (now -ℤ window_seconds) || ltb_ℤ now row.verified_at)
    && is_positive_decimal row.amount_base_units

spend_loop : ℤ → ℤ → ℕ → List VerifiedSpend → ℕ
spend_loop now window_seconds total [] = total
spend_loop now window_seconds total (row ∷ rows) =
    spend_loop now window_seconds
      (if counts_as_spend now window_seconds row
        then total + big_int row.amount_base_units
        else total)
      rows

unfoldable pub spend_in_window : List VerifiedSpend → ℤ → ℤ → ℕ
unfolding spend_loop
spend_in_window spend now window_seconds = spend_loop now window_seconds 0 spend

pub record EvaluationInput : Type 0 where
  pub merchant : Text
  pub agent_id : Option Text
  pub recipient : Text
  pub token : Text
  pub chain_id : ℤ
  pub amount_base_units : Text
  pub now : ℤ
  pub policies : List PaymentPolicy
  pub verified_spend : List VerifiedSpend

-- The recipient and the token lists: some entry has the wanted canonical form.
unfoldable pub lists_address : Addresses → List Text → Text → Bool
lists_address v items wanted =
    any_of (λ item. elim (canonicalize_address v item) [ none ↦ false | some a ↦ text_eq a wanted ])
      items

-- The blocks of the loop's body, one for each rule: the reasons that it pushes.
module _ (id : Text) where
  unfoldable pub check_max_amount : ℕ → Option Text → List PolicyReason
  check_max_amount amount none = []
  check_max_amount amount (some limit) =
      if not (is_decimal limit)
      then reason invalid_policy (codes "Stored max amount is not valid.") id ∷ []
      else (if ltb (big_int limit) amount
          then reason amount_limit_exceeded (codes "Amount exceeds the policy maximum.") id ∷ []
          else [])

  unfoldable pub check_max_spend :
      ℕ → ℤ → List VerifiedSpend → Option ℤ → Option Text → List PolicyReason
  check_max_spend amount now spend window none = []
  check_max_spend amount now spend none (some limit) =
      reason invalid_policy (codes "Stored spend window is not valid.") id ∷ []
  check_max_spend amount now spend (some window) (some limit) =
      if not (is_decimal limit) || not (is_safe_integer window) || leb_ℤ window (pos 0)
      then reason invalid_policy (codes "Stored spend window is not valid.") id ∷ []
      else (if ltb (big_int limit) (spend_in_window spend now window + amount)
          then reason window_spend_limit_exceeded
              (codes "Amount exceeds the remaining spend window.") id
            ∷ []
          else [])

  unfoldable pub check_recipients : Addresses → Text → Option (List Text) → List PolicyReason
  unfolding lists_address
  check_recipients v recipient none = []
  check_recipients v recipient (some items) =
      if is_empty items || not (lists_address v items recipient)
      then reason recipient_not_allowed (codes "Recipient is not on the policy allowlist.") id ∷ []
      else []

  unfoldable pub check_agents : Option Text → Option (List Text) → List PolicyReason
  check_agents agent none = []
  check_agents none (some ids) =
      reason agent_not_allowed (codes "Agent is not on the policy allowlist.") id ∷ []
  check_agents (some agent) (some ids) =
      if is_empty agent || not (includes ids agent)
      then reason agent_not_allowed (codes "Agent is not on the policy allowlist.") id ∷ []
      else []

  unfoldable pub check_tokens : Addresses → Text → Option (List Text) → List PolicyReason
  unfolding lists_address
  check_tokens v token none = []
  check_tokens v token (some items) =
      if is_empty items || not (lists_address v items token)
      then reason token_not_allowed (codes "Token is not on the policy allowlist.") id ∷ []
      else []
