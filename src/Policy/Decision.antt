-- ===== src/Policy/Decision.antt =====
-- What a decision of `evaluatePaymentPolicy` of src/lib/paymentPolicy.ts means.
use final_arc.Base.{
  ℕ, ◌≡◌, refl, ◌↔◌, inl, inr, Bool, true, Option, none, some, List, [], ◌∷◌, Text, text_lt, arith,
  text_eq_iff, Option-cases, ap, filter_by, All, Bool-cases,
}
use final_arc.Base.Int.{is_safe_integer}
use final_arc.Base.Addresses.{Addresses, canonicalize_address}
use final_arc.Base.Values.{Value}
use final_arc.Policy.{PaymentPolicyRules, PaymentPolicy, EvaluationInput, policy_amount}
use final_arc.Policy.Evaluate.{
  Inputs, check_stored, check_all, is_merchant, applies, place, sort_by_id, decide, with_inputs,
  evaluate_payment_policy,
}
use final_arc.Policy.Rules.{Permits, IsEmpty, IsEmpty-append, check_rules_iff}

-- A stored policy is obeyed when its rules can be read and permit the payment.
abbrev pub Obeys : Addresses → Inputs → Option PaymentPolicyRules → Type 0
Obeys v i none = ⊥
Obeys v i (some r) = Permits v i r

check_stored_iff :
    (v : Addresses) (i : Inputs) (id : Text) (o : Option PaymentPolicyRules)
    → IsEmpty (check_stored v i id o) ↔ Obeys v i o
unfolding check_stored
check_stored_iff v i id none = ((λ e. cc), (λ h. absurd h))
check_stored_iff v i id (some r) = check_rules_iff v i id r

check_all_iff :
    (v : Addresses) (i : Inputs) (ps : List PaymentPolicy)
    → IsEmpty (check_all v i ps) ↔ All (λ p. Obeys v i p.rules) ps
unfolding check_all
check_all_iff v i [] = ((λ _. tt), (λ _. refl))
check_all_iff v i (p ∷ ps) = (
  (λ h.
      let e = (IsEmpty-append (check_stored v i p.id p.rules) _).0 h in
      ((check_stored_iff v i p.id p.rules).0 e.0, (check_all_iff v i ps).0 e.1)),
  (λ h.
      (IsEmpty-append _ _).1
        ((check_stored_iff v i p.id p.rules).1 h.0, (check_all_iff v i ps).1 h.1)),
)

module _ (P : PaymentPolicy → Type 0) where
  All-place :
      (v : Addresses) (p : PaymentPolicy) (ps : List PaymentPolicy)
      → All P (place v p ps) ↔ (P p × All P ps)
  unfolding place
  All-place v p [] = ((λ h. h), (λ h. h))
  All-place v p (q ∷ qs) = elim (Bool-cases (text_lt q.id p.id)) [
    | inl e ↦ rw e (
      (λ h. let k = (All-place v p qs).0 h.1 in (k.0, (h.0, k.1))),
      (λ h. (h.1.0, (All-place v p qs).1 (h.0, h.1.1))),
    )
    | inr e ↦ rw e ((λ h. h), (λ h. h))
  ]

  All-sort_by_id : (v : Addresses) (ps : List PaymentPolicy) → All P (sort_by_id v ps) ↔ All P ps
  unfolding sort_by_id
  All-sort_by_id v [] = ((λ h. h), (λ h. h))
  All-sort_by_id v (p ∷ ps) = (
    (λ h. let k = (All-place v p (sort_by_id v ps)).0 h in (k.0, (All-sort_by_id v ps).0 k.1)),
    (λ h. (All-place v p (sort_by_id v ps)).1 (h.0, (All-sort_by_id v ps).1 h.1)),
  )

  All-filter_by :
      (t : PaymentPolicy → Bool) (ps : List PaymentPolicy)
      → All P (filter_by t ps) ↔ All (λ p. t p ≡ true → P p) ps
  All-filter_by t [] = ((λ h. h), (λ h. h))
  All-filter_by t (p ∷ ps) = elim (Bool-cases (t p)) [
    | inl e ↦ rw e (
      (λ h. ((λ _. h.0), (All-filter_by t ps).0 h.1)),
      (λ h. (h.0 refl, (All-filter_by t ps).1 h.1)),
    )
    | inr e ↦
        rw e
          ((λ h. ((λ f. absurd (cc)), (All-filter_by t ps).0 h)), (λ h. (All-filter_by t ps).1 h.1))
  ]

decide_iff :
    (v : Addresses) (i : Inputs) (ps : List PaymentPolicy)
    → ((decide v i ps).allowed ≡ true) ↔ All (λ p. Obeys v i p.rules) ps
unfolding decide
decide_iff v i [] = ((λ _. tt), (λ _. refl))
decide_iff v i (p ∷ ps) = check_all_iff v i (p ∷ ps)

-- The inputs, once the function has read them.
abbrev pub read_inputs : EvaluationInput → Text → Text → ℕ → Inputs
read_inputs e recipient token amount = record {
  recipient = recipient;
  token = token;
  amount = amount;
  agent_id = e.agent_id;
  chain_id = e.chain_id;
  now = e.now;
  verified_spend = e.verified_spend;
}

-- An enabled version 1 policy of the merchant at this address.
abbrev pub Applies : Addresses → Text → PaymentPolicy → Type 0
Applies v m p = (p.enabled ≡ true) × (p.version ≡ 1) × (canonicalize_address v p.merchant ≡ some m)

is_merchant_iff :
    (v : Addresses) (m a : Text) → (is_merchant v m a ≡ true) ↔ (canonicalize_address v a ≡ some m)
unfolding is_merchant
is_merchant_iff v m a = elim (Option-cases (canonicalize_address v a)) [
  | inl e ↦ rw (e, is_merchant) ((λ h. absurd (cc)), (λ h. absurd (cc)))
  | inr (b, e) ↦
      rw (e, is_merchant) ((λ h. ap some ((text_eq_iff b m).0 h)), (λ h. (text_eq_iff b m).1 (cc)))
]

applies_iff :
    (v : Addresses) (m : Text) (p : PaymentPolicy) → (applies v m p ≡ true) ↔ Applies v m p
unfolding applies
applies_iff v m p = ground (arith, is_merchant_iff v m p.merchant)

All-iff :
    (P Q : PaymentPolicy → Type 0)
    → ((p : PaymentPolicy) → P p ↔ Q p)
    → (ps : List PaymentPolicy) → All P ps ↔ All Q ps
All-iff P Q f [] = ((λ h. h), (λ h. h))
All-iff P Q f (p ∷ ps) =
    ((λ h. ((f p).0 h.0, (All-iff P Q f ps).0 h.1)), (λ h. ((f p).1 h.0, (All-iff P Q f ps).1 h.1)))

-- All inputs can be read, and every policy that applies obeys its rules.
abbrev pub AuthorizedBy :
    Addresses → EvaluationInput → Option Text → Option Text → Option Text → Option ℕ → Type 0
AuthorizedBy v e (some m) (some r) (some t) (some a) =
    (is_safe_integer e.now ≡ true)
    × (is_safe_integer e.chain_id ≡ true)
    × All (λ p. Applies v m p → Obeys v (read_inputs e r t a) p.rules) e.policies
AuthorizedBy v e _ _ _ _ = ⊥

enabled_iff :
    (v : Addresses) (i : Inputs) (m : Text) (ps : List PaymentPolicy)
    → ((decide v i (sort_by_id v (filter_by (applies v m) ps))).allowed ≡ true)
      ↔ All (λ p. Applies v m p → Obeys v i p.rules) ps
enabled_iff v i m ps =
    let P = λ (p : PaymentPolicy). Obeys v i p.rules in
    let enabled = filter_by (applies v m) ps in
    let spelled =
      All-iff (λ p. applies v m p ≡ true → P p) (λ p. Applies v m p → P p)
        (λ p. ((λ h a. h ((applies_iff v m p).1 a)), (λ h a. h ((applies_iff v m p).0 a)))) ps in
    (
      (λ h. spelled.0 (
          (All-filter_by P (applies v m) ps).0
            ((All-sort_by_id P v enabled).0 ((decide_iff v i (sort_by_id v enabled)).0 h)))),
      (λ h.
          (decide_iff v i (sort_by_id v enabled)).1
            ((All-sort_by_id P v enabled).1 ((All-filter_by P (applies v m) ps).1 (spelled.1 h)))),
    )

with_inputs_iff :
    (v : Addresses) (e : EvaluationInput) (m r t : Option Text) (a : Option ℕ)
    → ((with_inputs v e m r t a).allowed ≡ true) ↔ AuthorizedBy v e m r t a
unfolding with_inputs
with_inputs_iff v e (some m) (some r) (some t) (some a) =
    elim (Bool-cases (is_safe_integer e.now)) [
      | inl n ↦ elim (Bool-cases (is_safe_integer e.chain_id)) [
        | inl c ↦
            rw (n, c)
              (
                (λ h. (refl, refl, (enabled_iff v (read_inputs e r t a) m e.policies).0 h)),
                (λ h. (enabled_iff v (read_inputs e r t a) m e.policies).1 h.2),
              )
        | inr c ↦ rw (n, c) ((λ h. absurd (cc)), (λ h. absurd (cc)))
      ]
      | inr n ↦ rw n ((λ h. absurd (cc)), (λ h. absurd (cc)))
    ]
with_inputs_iff v e _ _ _ _ = ((λ h. absurd (cc)), (λ h. absurd h))

-- The evaluation allows a payment exactly when every input can be read (three addresses, a positive
-- decimal amount, safe integers for the time and the chain) and every enabled version 1 policy of
-- the merchant has readable rules that all permit the payment.
pub evaluate_payment_policy_iff :
    (v : Addresses) (e : EvaluationInput)
    → ((evaluate_payment_policy v e).allowed ≡ true)
      ↔ AuthorizedBy v e
          (canonicalize_address v e.merchant)
          (canonicalize_address v e.recipient)
          (canonicalize_address v e.token)
          (policy_amount (Value.string e.amount_base_units))
unfolding evaluate_payment_policy
evaluate_payment_policy_iff v e = with_inputs_iff v e _ _ _ _
