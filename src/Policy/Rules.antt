-- ===== src/Policy/Rules.antt =====
-- The rules of a policy as propositions, and the checks of src/lib/paymentPolicy.ts against them.
use final_arc.Base.{
  ℕ, ◌+◌, ◌≤◌, ◌≡◌, refl, ◌≢◌, ◌↔◌, ◌⊎◌, true, Option, none, some, List, [], ◌∷◌, ◌++◌, Text,
  text_eq_iff, includes, is_decimal, big_int, is_empty, arith, Option-cases, or_else,
}
use final_arc.Base.Int.{ℤ, pos, ◌<ℤ◌, is_safe_integer, same_integer_iff}
use final_arc.Base.Addresses.{Addresses, canonicalize_address}
use final_arc.Policy.{
  PolicyReason, PaymentPolicyRules, check_max_amount, check_max_spend, check_recipients,
  check_agents, check_tokens, lists_address, spend_in_window,
}
use final_arc.Policy.Evaluate.{Inputs, includes_chain, check_chains, check_rules}

-- A rule that is left out constrains nothing.
abbrev pub WhenSet : {A : Type 0} → Option A → (A → Type 0) → Type 0
WhenSet none P = Unit
WhenSet (some a) P = P a

-- Some entry of a list meets a condition.
abbrev pub Some : {A : Type 0} → (A → Type 0) → List A → Type 0
Some P [] = ⊥
Some P (x ∷ xs) = P x ⊎ Some P xs

-- The amount is within the maximum, as a number.
abbrev pub WithinAmount : ℕ → Text → Type 0
WithinAmount amount limit = (is_decimal limit ≡ true) × (amount ≤ big_int limit)

-- The window is a positive safe integer, and the payment fits what is left of the limit.
abbrev pub WithinSpend : Inputs → Option ℤ → Text → Type 0
WithinSpend i none limit = ⊥
WithinSpend i (some window) limit =
    (is_decimal limit ≡ true)
    × (is_safe_integer window ≡ true)
    × (pos 0 <ℤ window)
    × (spend_in_window i.verified_spend i.now window + i.amount ≤ big_int limit)

abbrev pub Listed : Addresses → Text → List Text → Type 0
Listed v wanted = Some (λ item. canonicalize_address v item ≡ some wanted)

abbrev pub NamesAgent : Option Text → List Text → Type 0
NamesAgent none ids = ⊥
NamesAgent (some agent) ids = (agent ≢ []) × Some (λ id. id ≡ agent) ids

-- What one policy's rules ask of a payment.
pub record Permits (v : Addresses) (i : Inputs) (r : PaymentPolicyRules) : Type 0 where
  pub amount : WhenSet r.max_amount_base_units (WithinAmount i.amount)
  pub spend : WhenSet r.max_spend_base_units (WithinSpend i r.window_seconds)
  pub recipient : WhenSet r.allowed_recipients (Listed v i.recipient)
  pub agent : WhenSet r.allowed_agent_ids (NamesAgent i.agent_id)
  pub token : WhenSet r.allowed_tokens (Listed v i.token)
  pub chain : WhenSet r.allowed_chain_ids (Some (λ c. c ≡ i.chain_id))

abbrev pub IsEmpty : {A : Type 0} → List A → Type 0
IsEmpty xs = is_empty xs ≡ true

max_amount_iff :
    (id : Text) (amount : ℕ) (o : Option Text)
    → IsEmpty (check_max_amount id amount o) ↔ WhenSet o (WithinAmount amount)
unfolding check_max_amount
max_amount_iff id amount none = ((λ _. tt), (λ _. refl))
max_amount_iff id amount (some limit) = ground arith

max_spend_iff :
    (id : Text) (i : Inputs) (w : Option ℤ) (o : Option Text)
    → IsEmpty (check_max_spend id i.amount i.now i.verified_spend w o) ↔ WhenSet o (WithinSpend i w)
unfolding check_max_spend
max_spend_iff id i w none = ((λ _. tt), (λ _. refl))
max_spend_iff id i none (some limit) = ((λ e. cc), (λ h. absurd h))
max_spend_iff id i (some w) (some limit) = ground arith

Listed-iff :
    (v : Addresses) (wanted : Text) (items : List Text)
    → (lists_address v items wanted ≡ true) ↔ Listed v wanted items
unfolding lists_address
Listed-iff v wanted [] = ((λ e. cc), (λ h. absurd h))
Listed-iff v wanted (item ∷ items) = ground (
  arith,
  Option-cases (canonicalize_address v item),
  text_eq_iff (or_else (canonicalize_address v item) []) wanted,
  Listed-iff v wanted items,
)

recipients_iff :
    (v : Addresses) (id wanted : Text) (o : Option (List Text))
    → IsEmpty (check_recipients id v wanted o) ↔ WhenSet o (Listed v wanted)
unfolding check_recipients
recipients_iff v id wanted none = ((λ _. tt), (λ _. refl))
recipients_iff v id wanted (some []) = ((λ e. cc), (λ h. absurd h))
recipients_iff v id wanted (some (a ∷ more)) = ground (arith, Listed-iff v wanted (a ∷ more))

tokens_iff :
    (v : Addresses) (id wanted : Text) (o : Option (List Text))
    → IsEmpty (check_tokens id v wanted o) ↔ WhenSet o (Listed v wanted)
unfolding check_tokens
tokens_iff v id wanted none = ((λ _. tt), (λ _. refl))
tokens_iff v id wanted (some []) = ((λ e. cc), (λ h. absurd h))
tokens_iff v id wanted (some (a ∷ more)) = ground (arith, Listed-iff v wanted (a ∷ more))

includes_iff :
    (ids : List Text) (wanted : Text) → (includes ids wanted ≡ true) ↔ Some (λ id. id ≡ wanted) ids
unfolding includes
includes_iff [] wanted = ((λ e. cc), (λ h. absurd h))
includes_iff (id ∷ ids) wanted = ground (arith, text_eq_iff id wanted, includes_iff ids wanted)

agents_iff :
    (id : Text) (agent : Option Text) (o : Option (List Text))
    → IsEmpty (check_agents id agent o) ↔ WhenSet o (NamesAgent agent)
unfolding check_agents
agents_iff id agent none = ((λ _. tt), (λ _. refl))
agents_iff id none (some ids) = ((λ e. cc), (λ h. absurd h))
agents_iff id (some []) (some ids) = ((λ e. cc), (λ h. absurd (h.0 refl)))
agents_iff id (some (c ∷ cs)) (some ids) = ground (arith, includes_iff ids (c ∷ cs))

includes_chain_iff :
    (ids : List ℤ) (wanted : ℤ) → (includes_chain ids wanted ≡ true) ↔ Some (λ id. id ≡ wanted) ids
unfolding includes_chain
includes_chain_iff [] wanted = ((λ e. cc), (λ h. absurd h))
includes_chain_iff (id ∷ ids) wanted =
    ground (arith, same_integer_iff id wanted, includes_chain_iff ids wanted)

chains_iff :
    (id : Text) (chain : ℤ) (o : Option (List ℤ))
    → IsEmpty (check_chains id chain o) ↔ WhenSet o (Some (λ c. c ≡ chain))
unfolding check_chains
chains_iff id chain none = ((λ _. tt), (λ _. refl))
chains_iff id chain (some ids) = ground (arith, includes_chain_iff ids chain)

pub IsEmpty-append : (xs ys : List PolicyReason) → IsEmpty (xs ++ ys) ↔ (IsEmpty xs × IsEmpty ys)
IsEmpty-append [] ys = ((λ h. (refl, h)), (λ h. h.1))
IsEmpty-append (x ∷ xs) ys = ((λ h. cc), (λ h. cc))

-- The body of the loop pushes no reason exactly when the rules permit the payment.
pub check_rules_iff :
    (v : Addresses) (i : Inputs) (id : Text) (r : PaymentPolicyRules)
    → IsEmpty (check_rules v i id r) ↔ Permits v i r
unfolding check_rules
check_rules_iff v i id r = (forth, back)
  where
    forth : IsEmpty (check_rules v i id r) → Permits v i r
    forth h =
        let p = (IsEmpty-append (check_max_amount id i.amount r.max_amount_base_units) _).0 h in
        let q =
          (IsEmpty-append
              (check_max_spend id i.amount i.now i.verified_spend r.window_seconds
                r.max_spend_base_units)
              _).0
            p.1 in
        let s = (IsEmpty-append (check_recipients id v i.recipient r.allowed_recipients) _).0 q.1 in
        let t = (IsEmpty-append (check_agents id i.agent_id r.allowed_agent_ids) _).0 s.1 in
        let u = (IsEmpty-append (check_tokens id v i.token r.allowed_tokens) _).0 t.1 in
        record {
          amount = (max_amount_iff id i.amount r.max_amount_base_units).0 p.0;
          spend = (max_spend_iff id i r.window_seconds r.max_spend_base_units).0 q.0;
          recipient = (recipients_iff v id i.recipient r.allowed_recipients).0 s.0;
          agent = (agents_iff id i.agent_id r.allowed_agent_ids).0 t.0;
          token = (tokens_iff v id i.token r.allowed_tokens).0 u.0;
          chain = (chains_iff id i.chain_id r.allowed_chain_ids).0 u.1;
        }

    back : Permits v i r → IsEmpty (check_rules v i id r)
    back h = (IsEmpty-append _ _).1 (
      (max_amount_iff id i.amount r.max_amount_base_units).1 h.amount,
      (IsEmpty-append _ _).1 (
        (max_spend_iff id i r.window_seconds r.max_spend_base_units).1 h.spend,
        (IsEmpty-append _ _).1 (
          (recipients_iff v id i.recipient r.allowed_recipients).1 h.recipient,
          (IsEmpty-append _ _).1 (
            (agents_iff id i.agent_id r.allowed_agent_ids).1 h.agent,
            (IsEmpty-append _ _).1 (
              (tokens_iff v id i.token r.allowed_tokens).1 h.token,
              (chains_iff id i.chain_id r.allowed_chain_ids).1 h.chain,
            ),
          ),
        ),
      ),
    )
