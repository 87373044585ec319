-- ===== src/Policy/Readable.antt =====
-- Rules that `parsePolicyRules` of src/lib/paymentPolicy.ts accepts can be read by its evaluation.
use final_arc.Base.{
  ℕ, ◌≡◌, ◌≢◌, Bool, true, false, Option, none, some, List, [], ◌∷◌, ◌++◌, Text, ltb, big_int,
  is_some, All, if◌then◌else◌, ◌+◌,
}
use final_arc.Base.Int.{ℤ}
use final_arc.Base.Addresses.{Addresses}
use final_arc.Base.Values.{Value}
use final_arc.Policy.{
  PolicyReason, PaymentPolicyRules, VerifiedSpend, invalid_policy, reason, check_max_amount,
  check_max_spend, spend_in_window, check_recipients, check_agents, check_tokens,
}
use final_arc.Policy.Evaluate.{Inputs, check_rules, check_chains}
use final_arc.Policy.Parse.{parsed, parse_policy_rules}
use final_arc.Policy.WellFormed.{Each, IsDecimal, IsWindow, parse_policy_rules-WellFormed}

-- A reason that does not call the stored policy invalid.
abbrev pub IsReadable : PolicyReason → Type 0
IsReadable r = r.code ≢ invalid_policy

All-append :
    (xs ys : List PolicyReason) → All IsReadable xs → All IsReadable ys → All IsReadable (xs ++ ys)
All-append [] ys h k = k
All-append (x ∷ xs) ys h k = (h.0, All-append xs ys h.1 k)

one-IsReadable :
    (b : Bool) (r : PolicyReason) → IsReadable r → All IsReadable (if b then r ∷ [] else [])
one-IsReadable true r h = (h, tt)
one-IsReadable false r h = tt

check_max_amount-IsReadable :
    (id : Text) (amount : ℕ) (o : Option Text)
    → Each IsDecimal o
    → All IsReadable (check_max_amount id amount o)
unfolding check_max_amount reason
check_max_amount-IsReadable id amount none h = tt
check_max_amount-IsReadable id amount (some limit) h =
    rw h (one-IsReadable (ltb (big_int limit) amount) _ (λ e. cc))

check_max_spend-IsReadable :
    (id : Text) (amount : ℕ) (now : ℤ) (spend : List VerifiedSpend) (window : Option ℤ)
    (o : Option Text)
    → Each IsDecimal o
    → Each IsWindow window
    → is_some o ≡ is_some window
    → All IsReadable (check_max_spend id amount now spend window o)
unfolding check_max_spend reason
check_max_spend-IsReadable id amount now spend window none h k e = tt
check_max_spend-IsReadable id amount now spend none (some limit) h k e = absurd (cc)
check_max_spend-IsReadable id amount now spend (some w) (some limit) h k e =
    rw (h, k.0, k.1)
      (one-IsReadable (ltb (big_int limit) (spend_in_window spend now w + amount)) _ (λ q. cc))

check_recipients-IsReadable :
    (id : Text) (v : Addresses) (to : Text) (o : Option (List Text))
    → All IsReadable (check_recipients id v to o)
unfolding check_recipients reason
check_recipients-IsReadable id v to none = tt
check_recipients-IsReadable id v to (some l) = one-IsReadable _ _ (λ q. cc)

check_tokens-IsReadable :
    (id : Text) (v : Addresses) (token : Text) (o : Option (List Text))
    → All IsReadable (check_tokens id v token o)
unfolding check_tokens reason
check_tokens-IsReadable id v token none = tt
check_tokens-IsReadable id v token (some l) = one-IsReadable _ _ (λ q. cc)

check_agents-IsReadable :
    (id : Text) (agent : Option Text) (o : Option (List Text))
    → All IsReadable (check_agents id agent o)
unfolding check_agents reason
check_agents-IsReadable id agent none = tt
check_agents-IsReadable id none (some l) = ((λ q. cc), tt)
check_agents-IsReadable id (some a) (some l) = one-IsReadable _ _ (λ q. cc)

check_chains-IsReadable :
    (id : Text) (chain : ℤ) (o : Option (List ℤ)) → All IsReadable (check_chains id chain o)
unfolding check_chains reason
check_chains-IsReadable id chain none = tt
check_chains-IsReadable id chain (some l) = one-IsReadable _ _ (λ q. cc)

-- Whatever the payment, the evaluation of rules that `parsePolicyRules` accepted never reports that
-- the stored policy is invalid.
pub parse_policy_rules-check_rules :
    (v : Addresses) (value : Value) (r : PaymentPolicyRules) (i : Inputs) (id : Text)
    → parse_policy_rules v value ≡ parsed r
    → All IsReadable (check_rules v i id r)
unfolding check_rules
parse_policy_rules-check_rules v value r i id e =
    let w = parse_policy_rules-WellFormed v value r e in
    All-append _ _ (check_max_amount-IsReadable id i.amount r.max_amount_base_units w.amount) (
      All-append _ _
        (check_max_spend-IsReadable id i.amount i.now i.verified_spend r.window_seconds
          r.max_spend_base_units w.spend w.window w.paired)
        (All-append _ _ (check_recipients-IsReadable id v i.recipient r.allowed_recipients) (
          All-append _ _ (check_agents-IsReadable id i.agent_id r.allowed_agent_ids) (
            All-append _ _ (check_tokens-IsReadable id v i.token r.allowed_tokens)
              (check_chains-IsReadable id i.chain_id r.allowed_chain_ids)))))
