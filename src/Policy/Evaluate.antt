-- ===== src/Policy/Evaluate.antt =====
-- `evaluatePaymentPolicy` of src/lib/paymentPolicy.ts.
use final_arc.Base.{
  ℕ, Bool, true, false, not, ◌&&◌, ◌||◌, Option, none, some, List, [], ◌∷◌, ◌++◌, map,
  if◌then◌else◌, ◌==◌, Text, codes, text_eq, text_lt, is_empty, filter_by,
}
use final_arc.Base.Int.{ℤ, same_integer, is_safe_integer}
use final_arc.Base.Addresses.{Addresses, canonicalize_address}
use final_arc.Base.Values.{Value}
use final_arc.Policy.{
  PolicyReason, PaymentPolicyRules, PaymentPolicy, PolicyDecision, EvaluationInput, VerifiedSpend,
  policy_version, invalid_policy, chain_not_allowed, policy_amount, reason, check_max_amount,
  check_max_spend, check_recipients, check_agents, check_tokens,
}

-- `Array.prototype.includes` on chain ids.
unfoldable pub includes_chain : List ℤ → ℤ → Bool
includes_chain [] chain = false
includes_chain (c ∷ cs) chain = same_integer c chain || includes_chain cs chain

unfoldable pub check_chains : Text → ℤ → Option (List ℤ) → List PolicyReason
unfolding includes_chain
check_chains id chain none = []
check_chains id chain (some ids) =
    if not (includes_chain ids chain)
    then reason chain_not_allowed (codes "Chain is not on the policy allowlist.") id ∷ []
    else []

-- What the checked inputs are called in the function.
pub record Inputs : Type 0 where
  pub recipient : Text
  pub token : Text
  pub amount : ℕ
  pub agent_id : Option Text
  pub chain_id : ℤ
  pub now : ℤ
  pub verified_spend : List VerifiedSpend

module _ (v : Addresses) where
  -- One round of the loop over the enabled policies: the reasons that it pushes.
  unfoldable pub check_rules : Inputs → Text → PaymentPolicyRules → List PolicyReason
  check_rules i id rules =
      check_max_amount id i.amount rules.max_amount_base_units
      ++ (check_max_spend id i.amount i.now i.verified_spend rules.window_seconds
            rules.max_spend_base_units
          ++ (check_recipients id v i.recipient rules.allowed_recipients
              ++ (check_agents id i.agent_id rules.allowed_agent_ids
                  ++ (check_tokens id v i.token rules.allowed_tokens
                      ++ check_chains id i.chain_id rules.allowed_chain_ids))))

  unfoldable pub check_stored : Inputs → Text → Option PaymentPolicyRules → List PolicyReason
  unfolding check_rules
  check_stored i id none =
      reason invalid_policy (codes "Stored policy rules are not valid.") id ∷ []
  check_stored i id (some rules) = check_rules i id rules

  unfoldable pub check_all : Inputs → List PaymentPolicy → List PolicyReason
  check_all i [] = []
  check_all i (p ∷ ps) = check_stored i p.id p.rules ++ check_all i ps

  unfoldable pub is_merchant : Text → Text → Bool
  is_merchant wanted merchant = elim (canonicalize_address v merchant) [
    | none ↦ false
    | some a ↦ text_eq a wanted
  ]

  -- The filter of the function.
  unfoldable pub applies : Text → PaymentPolicy → Bool
  unfolding is_merchant
  applies merchant p = p.enabled && p.version == policy_version && is_merchant merchant p.merchant

  -- The place of one policy in the stable order by id.
  unfoldable pub place : PaymentPolicy → List PaymentPolicy → List PaymentPolicy
  place p [] = p ∷ []
  place p (q ∷ qs) = if text_lt q.id p.id then q ∷ place p qs else p ∷ q ∷ qs

  unfoldable pub sort_by_id : List PaymentPolicy → List PaymentPolicy
  unfolding place
  sort_by_id [] = []
  sort_by_id (p ∷ ps) = place p (sort_by_id ps)

  abbrev invalid_inputs : PolicyDecision
  invalid_inputs = record {
    allowed = false;
    policy_version = policy_version;
    policy_ids = [];
    reasons = reason invalid_policy (codes "Payment policy inputs are not valid.") [] ∷ [];
  }

  -- The decision over the enabled policies, in their order.
  unfoldable pub decide : Inputs → List PaymentPolicy → PolicyDecision
  unfolding check_all
  decide i [] = record {
    allowed = true;
    policy_version = policy_version;
    policy_ids = [];
    reasons = [];
  }
  decide i (p ∷ ps) =
      let reasons = check_all i (p ∷ ps) in
      record {
        allowed = is_empty reasons;
        policy_version = policy_version;
        policy_ids = map (λ q. q.id) (p ∷ ps);
        reasons = reasons;
      }

  unfoldable pub with_inputs :
      EvaluationInput → Option Text → Option Text → Option Text → Option ℕ → PolicyDecision
  unfolding sort_by_id applies decide
  with_inputs e (some merchant) (some recipient) (some token) (some amount) =
      if not (is_safe_integer e.now) || not (is_safe_integer e.chain_id)
      then invalid_inputs
      else decide
          (record {
            recipient = recipient;
            token = token;
            amount = amount;
            agent_id = e.agent_id;
            chain_id = e.chain_id;
            now = e.now;
            verified_spend = e.verified_spend;
          })
          (sort_by_id (filter_by (applies merchant) e.policies))
  with_inputs e _ _ _ _ = invalid_inputs

  unfoldable pub evaluate_payment_policy : EvaluationInput → PolicyDecision
  unfolding with_inputs
  evaluate_payment_policy e =
      with_inputs e (canonicalize_address v e.merchant) (canonicalize_address v e.recipient)
        (canonicalize_address v e.token) (policy_amount (Value.string e.amount_base_units))
