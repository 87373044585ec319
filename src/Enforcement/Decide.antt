-- ===== src/Enforcement/Decide.antt =====
-- `decideMachinePolicy` of src/lib/paymentPolicies.ts, branch by branch, and what its plans promise.
use final_arc.Base.{
  ℕ, ◌+◌, Bool, true, false, not, ◌&&◌, ◌||◌, Option, none, some, List, [], ◌∷◌, ◌++◌,
  if◌then◌else◌, any_of, filter_by, is_empty, or_else, Text, codes, text_eq, to_lower_case, Entries,
  is_positive_decimal,
}
use final_arc.Base.Int.{ℤ, pos, is_safe_integer}
use final_arc.Base.Addresses.{Addresses, canonicalize_address}
use final_arc.Base.Values.{Value, object, read_field}
use final_arc.Policy.{
  PolicyReason, PaymentPolicy, PolicyDecision, VerifiedSpend, EvaluationInput, invalid_policy,
}
use final_arc.Policy.Evaluate.{evaluate_payment_policy}
use final_arc.Policy.Snapshot.{PolicySnapshot, snapshot_from_decision}
use final_arc.Ledger.{LedgerReservation, reserved}
use final_arc.Payments.{is_v2_request_id}
use final_arc.Agents.{Kept, row, foreign, StoredIntent}
use final_arc.Agents.Section.{is_verified}
use final_arc.Enforcement.{
  PolicyRow, policy_row, broken_row, PolicyStore, SpendReservation, PolicyDenialRecord,
  MachinePolicyInput, MachinePolicyPlan, skip, defer, throws, deny, allows, both_equal, text_of,
  safe_number_of, is_string, spend_with, safe_or_none, read_reservation, spent_in,
  reserved_in_window, tightest_spend_denial, has_cap, policy_ids_of,
}

module _ (v : Addresses) (show_amount : ℕ → Text) where
  -- `sameMerchant`.
  unfoldable pub same_merchant : Text → Text → Bool
  unfolding canonicalize_address text_eq
  same_merchant left right = both_equal (canonicalize_address v left) (canonicalize_address v right)

  -- `enabledPolicies`, over `policiesForMerchant`.
  unfoldable pub enabled_policies : Text → List PolicyRow → List PaymentPolicy
  unfolding same_merchant
  enabled_policies merchant [] = []
  enabled_policies merchant (broken_row m d ∷ rows) = enabled_policies merchant rows
  enabled_policies merchant (policy_row p ∷ rows) =
      let rest = enabled_policies merchant rows in
      if same_merchant p.merchant merchant && p.enabled then p ∷ rest else rest

  -- The body of the loop of `corruptMerchantPolicy`.
  unfoldable pub is_corrupt : Text → PolicyRow → Bool
  unfolding same_merchant
  is_corrupt merchant (policy_row p) = false
  is_corrupt merchant (broken_row none disabled) = false
  is_corrupt merchant (broken_row (some m) disabled) = same_merchant m merchant && not disabled

  -- `corruptMerchantPolicy`.
  unfoldable pub corrupt_merchant_policy : Text → List PolicyRow → Bool
  unfolding is_corrupt
  corrupt_merchant_policy merchant rows = any_of (is_corrupt merchant) rows

  abbrev pub is_ours : Text → Option Text → Bool
  is_ours merchant none = false
  is_ours merchant (some m) = same_merchant m merchant

  -- The guards of the loop of `verifiedSpendFromIntents`.
  unfoldable pub spend_of : Text → Kept StoredIntent → Option VerifiedSpend
  unfolding read_field same_merchant is_safe_integer is_positive_decimal text_eq
  spend_of merchant (row i) =
      spend_with (is_verified i.status && same_merchant i.merchant merchant) i.amount_base_units
        (safe_or_none i.verified_at)
  spend_of merchant (foreign (object fs)) =
      spend_with
        (is_string (codes "VERIFIED") (read_field (codes "status") fs)
          && is_ours merchant (text_of (read_field (codes "merchant") fs)))
        (text_of (read_field (codes "amountBaseUnits") fs))
        (safe_number_of (read_field (codes "verifiedAt") fs))
  spend_of merchant (foreign _) = none

  -- `verifiedSpendFromIntents`.
  unfoldable pub verified_spend_from_intents :
      Text → Entries (Kept StoredIntent) → List VerifiedSpend
  unfolding spend_of
  verified_spend_from_intents merchant [] = []
  verified_spend_from_intents merchant ((id, k) ∷ m) =
      let rest = verified_spend_from_intents merchant m in
      elim (spend_of merchant k) [ none ↦ rest | some s ↦ s ∷ rest ]

  abbrev pub own_reservation :
      Text → Option SpendReservation → List SpendReservation → List SpendReservation
  own_reservation merchant none rest = rest
  own_reservation merchant (some r) rest =
      if same_merchant r.merchant merchant then r ∷ rest else rest

  -- `listReservations`.
  unfoldable pub list_reservations : Text → Entries Value → List SpendReservation
  unfolding read_reservation same_merchant
  list_reservations merchant [] = []
  list_reservations merchant ((id, x) ∷ m) =
      own_reservation merchant (read_reservation x) (list_reservations merchant m)

  -- What a cap's window holds already: the verified spend and the reservations.
  unfoldable pub used_in : Text → (now : ℤ) → PolicyStore → ℤ → ℕ
  unfolding spent_in reserved_in_window verified_spend_from_intents list_reservations
  used_in merchant now store window =
      spent_in now window (verified_spend_from_intents merchant store.agents.intents)
      + reserved_in_window now window (list_reservations merchant store.agents.reservations)

  abbrev pub canonical_or : Text → Text
  canonical_or a = or_else (canonicalize_address v a) a

  abbrev pub corrupt_reason : PolicyReason
  corrupt_reason = record {
    code = invalid_policy;
    message = codes "A stored payment policy is not valid.";
    policy_id = none;
  }

  abbrev pub amount_text : Option ℕ → Text
  amount_text none = codes "0"
  amount_text (some n) = show_amount n

  -- The denial of a merchant with a policy that cannot be read.
  unfoldable pub corrupt_denial : MachinePolicyInput → PolicyDenialRecord
  unfolding canonicalize_address
  corrupt_denial i = record {
    merchant = canonical_or i.merchant;
    agent_id = i.agent_id;
    recipient = canonical_or i.recipient;
    token = canonical_or i.token;
    chain_id = or_else i.chain_id (pos 0);
    amount_base_units = amount_text i.amount;
    evaluated_at = i.now;
    policy_ids = [];
    reasons = corrupt_reason ∷ [];
  }

  unfoldable pub evaluation_of :
      MachinePolicyInput
      → (recipient token : Text) → ℤ
      → ℕ
      → List PaymentPolicy
      → List VerifiedSpend
      → EvaluationInput
  evaluation_of i recipient token chain_id amount enabled spend = record {
    merchant = i.merchant;
    agent_id = i.agent_id;
    recipient = recipient;
    token = token;
    chain_id = chain_id;
    amount_base_units = show_amount amount;
    now = i.now;
    policies = enabled;
    verified_spend = spend;
  }

  -- The reservation of an allowed payment.
  unfoldable pub reservation_of :
      MachinePolicyInput → (expires_at : ℤ) → ℕ → List PaymentPolicy → LedgerReservation
  unfolding canonicalize_address to_lower_case
  reservation_of i expires_at amount enabled = record {
    id = to_lower_case i.request_id;
    intent_id = to_lower_case i.request_id;
    merchant = canonical_or i.merchant;
    amount_base_units = show_amount amount;
    policy_ids = policy_ids_of (filter_by has_cap enabled);
    reserved_at = i.now;
    expires_at = expires_at;
    status = reserved;
    consumed_at = none;
    released_at = none;
    release_reason = none;
  }

  -- From the snapshot of an allowed payment on; none where it throws.
  unfoldable pub allow_plan :
      MachinePolicyInput → ℕ → List PaymentPolicy → Option PolicySnapshot → MachinePolicyPlan
  unfolding reservation_of is_v2_request_id
  allow_plan i amount enabled none = throws
  allow_plan i amount enabled (some snapshot) =
      if not (i.will_execute && any_of has_cap enabled)
      then allows snapshot none
      else (if not (is_v2_request_id i.request_id) then defer else (elim i.expires_at [
        | none ↦ defer
        | some at ↦ allows snapshot (some (reservation_of i at amount enabled))
      ]))

  abbrev pub denial_of :
      MachinePolicyInput
      → (recipient token : Text) → ℤ
      → ℕ
      → PolicyDecision
      → List PolicyReason
      → PolicyDenialRecord
  denial_of i recipient token chain_id amount decision reasons = record {
    merchant = canonical_or i.merchant;
    agent_id = i.agent_id;
    recipient = recipient;
    token = token;
    chain_id = chain_id;
    amount_base_units = show_amount amount;
    evaluated_at = i.now;
    policy_ids = decision.policy_ids;
    reasons = reasons;
  }

  -- The plan that a decision and the reasons of the caps give.
  unfoldable pub plan_of :
      MachinePolicyInput
      → (recipient token : Text) → ℤ
      → ℕ
      → List PaymentPolicy
      → PolicyDecision
      → (extra : List PolicyReason) → MachinePolicyPlan
  unfolding allow_plan snapshot_from_decision
  plan_of i recipient token chain_id amount enabled decision extra =
      let reasons = decision.reasons ++ extra in
      if not (is_empty reasons) || not decision.allowed
      then deny (denial_of i recipient token chain_id amount decision reasons)
      else allow_plan i amount enabled (snapshot_from_decision decision enabled i.now i.agent_id)

  -- `decision.allowed ? tightestSpendDenial(...) : []`.
  unfoldable pub extra_reasons : Bool → List PaymentPolicy → (used : ℤ → ℕ) → ℕ → List PolicyReason
  unfolding tightest_spend_denial
  extra_reasons false enabled used amount = []
  extra_reasons true enabled used amount = tightest_spend_denial enabled used amount

  -- From the evaluation on.
  unfoldable pub decide_payment :
      PolicyStore
      → MachinePolicyInput
      → (recipient token : Text) → ℤ
      → ℕ
      → List PaymentPolicy
      → MachinePolicyPlan
  unfolding plan_of extra_reasons evaluation_of evaluate_payment_policy
  decide_payment store i recipient token chain_id amount enabled =
      let spend = verified_spend_from_intents i.merchant store.agents.intents in
      let decision =
        evaluate_payment_policy v (evaluation_of i recipient token chain_id amount enabled spend) in
      plan_of i recipient token chain_id amount enabled decision
        (extra_reasons decision.allowed enabled (used_in i.merchant i.now store) amount)

  unfoldable pub decide_with :
      PolicyStore
      → MachinePolicyInput
      → List PaymentPolicy
      → (amount : Option ℕ) → (chain_id : Option ℤ) → (recipient token : Option Text)
      → MachinePolicyPlan
  unfolding decide_payment
  decide_with store i enabled (some amount) (some chain_id) (some recipient) (some token) =
      decide_payment store i recipient token chain_id amount enabled
  decide_with store i enabled _ _ _ _ = defer

  unfoldable pub decide_enabled :
      PolicyStore → MachinePolicyInput → List PaymentPolicy → MachinePolicyPlan
  unfolding decide_with canonicalize_address
  decide_enabled store i [] = skip
  decide_enabled store i (p ∷ ps) =
      decide_with store i (p ∷ ps) i.amount i.chain_id (canonicalize_address v i.recipient)
        (canonicalize_address v i.token)

  -- `decideMachinePolicy`.
  unfoldable pub decide_machine_policy : PolicyStore → MachinePolicyInput → MachinePolicyPlan
  unfolding decide_enabled enabled_policies corrupt_merchant_policy corrupt_denial
  decide_machine_policy store i =
      if corrupt_merchant_policy i.merchant store.records
      then deny (corrupt_denial i)
      else decide_enabled store i (enabled_policies i.merchant store.records)
