-- ===== src/Policy/Snapshot.antt =====
-- `snapshotFromDecision` of src/lib/paymentPolicy.ts: what is kept of the policies that allowed a
-- payment.
use final_arc.Base.{
  ℕ, ◌≡◌, refl, subst, Option, none, some, List, [], ◌∷◌, Text, text_eq, text_eq_iff, if◌then◌else◌,
  arith,
}
use final_arc.Base.Int.{ℤ}
use final_arc.Policy.{PaymentPolicyRules, PaymentPolicy, PolicyDecision, policy_version}

-- `null` is `none`.
pub record PolicyLimitSnapshot : Type 0 where
  pub policy_id : Text
  pub max_amount_base_units : Option Text
  pub max_spend_base_units : Option Text
  pub window_seconds : Option ℤ
  pub allowed_recipients : Option (List Text)
  pub allowed_agent_ids : Option (List Text)
  pub allowed_tokens : Option (List Text)
  pub allowed_chain_ids : Option (List ℤ)

-- `decision` is always "allowed".
pub record PolicySnapshot : Type 0 where
  pub policy_version : ℕ
  pub policy_ids : List Text
  pub limits : List PolicyLimitSnapshot
  pub evaluated_at : ℤ
  pub agent_id : Option Text

unfoldable pub no_limits : Text → PolicyLimitSnapshot
no_limits id = record {
  policy_id = id;
  max_amount_base_units = none;
  max_spend_base_units = none;
  window_seconds = none;
  allowed_recipients = none;
  allowed_agent_ids = none;
  allowed_tokens = none;
  allowed_chain_ids = none;
}

-- `limitsOf`, for a policy whose rules can be read.
unfoldable pub limits_of : Text → PaymentPolicyRules → PolicyLimitSnapshot
limits_of id rules = record {
  policy_id = id;
  max_amount_base_units = rules.max_amount_base_units;
  max_spend_base_units = rules.max_spend_base_units;
  window_seconds = rules.window_seconds;
  allowed_recipients = rules.allowed_recipients;
  allowed_agent_ids = rules.allowed_agent_ids;
  allowed_tokens = rules.allowed_tokens;
  allowed_chain_ids = rules.allowed_chain_ids;
}

-- `byId.get(id)`: a `Map` built from pairs keeps the last one of a key.
unfoldable pub by_id : Text → List PaymentPolicy → Option PaymentPolicy
by_id id [] = none
by_id id (p ∷ ps) =
    let later = by_id id ps in
    elim later [ none ↦ if text_eq p.id id then some p else none | some q ↦ some q ]

-- The limits of one id; none where `limitsOf` reads a property of rules that are missing.
unfoldable pub limits_for : Text → Option PaymentPolicy → Option PolicyLimitSnapshot
unfolding no_limits limits_of
limits_for id none = some (no_limits id)
limits_for id (some p) = elim p.rules [ none ↦ none | some rules ↦ some (limits_of p.id rules) ]

unfoldable pub cons_limit :
    Option PolicyLimitSnapshot
    → Option (List PolicyLimitSnapshot)
    → Option (List PolicyLimitSnapshot)
cons_limit none rest = none
cons_limit (some l) none = none
cons_limit (some l) (some ls) = some (l ∷ ls)

unfoldable pub limits_list : List PaymentPolicy → List Text → Option (List PolicyLimitSnapshot)
unfolding limits_for by_id cons_limit
limits_list policies [] = some []
limits_list policies (id ∷ ids) =
    cons_limit (limits_for id (by_id id policies)) (limits_list policies ids)

unfoldable pub snapshot_with :
    PolicyDecision → ℤ → Option Text → Option (List PolicyLimitSnapshot) → Option PolicySnapshot
snapshot_with decision evaluated_at agent_id none = none
snapshot_with decision evaluated_at agent_id (some limits) = some (record {
  policy_version = policy_version;
  policy_ids = decision.policy_ids;
  limits = limits;
  evaluated_at = evaluated_at;
  agent_id = agent_id;
})

-- `snapshotFromDecision`; none where it throws.
unfoldable pub snapshot_from_decision :
    PolicyDecision → List PaymentPolicy → ℤ → Option Text → Option PolicySnapshot
unfolding limits_list snapshot_with
snapshot_from_decision decision policies evaluated_at agent_id =
    snapshot_with decision evaluated_at agent_id (limits_list policies decision.policy_ids)

by_id-found :
    (id : Text) (ps : List PaymentPolicy) (q : PaymentPolicy) → by_id id ps ≡ some q → q.id ≡ id
unfolding by_id
by_id-found id [] q e = absurd (cc)
by_id-found id (p ∷ ps) q e = ground (arith, text_eq_iff p.id id, by_id-found id ps q)

limits_for-id :
    (id : Text) (o : Option PaymentPolicy) (l : PolicyLimitSnapshot)
    → ((q : PaymentPolicy) → o ≡ some q → q.id ≡ id)
    → limits_for id o ≡ some l
    → l.policy_id ≡ id
unfolding limits_for no_limits limits_of
limits_for-id id none l h e = ground arith
limits_for-id id (some p) l h e = ground (arith, h p refl)

-- The ids that the limits are kept under.
abbrev pub limit_ids : List PolicyLimitSnapshot → List Text
limit_ids [] = []
limit_ids (l ∷ ls) = l.policy_id ∷ limit_ids ls

some_inj : {A : Type 0} (a b : A) → ◌≡◌ {A = Option A} (some a) (some b) → a ≡ b
some_inj a b e = cc

cons_limit-ids :
    (id : Text) (ids : List Text) (o : Option PolicyLimitSnapshot)
    (rest : Option (List PolicyLimitSnapshot)) (ls : List PolicyLimitSnapshot)
    → ((l : PolicyLimitSnapshot) → o ≡ some l → l.policy_id ≡ id)
    → ((m : List PolicyLimitSnapshot) → rest ≡ some m → limit_ids m ≡ ids)
    → cons_limit o rest ≡ some ls
    → limit_ids ls ≡ id ∷ ids
unfolding cons_limit
cons_limit-ids id ids none rest ls h k e = absurd (cc)
cons_limit-ids id ids (some l) none ls h k e = absurd (cc)
cons_limit-ids id ids (some l) (some m) ls h k e =
    subst (λ x. limit_ids x ≡ id ∷ ids) (some_inj (l ∷ m) ls e) (rw (h l refl, k m refl) refl)

limits_list-ids :
    (policies : List PaymentPolicy) (ids : List Text) (ls : List PolicyLimitSnapshot)
    → limits_list policies ids ≡ some ls
    → limit_ids ls ≡ ids
unfolding limits_list
limits_list-ids policies [] ls e = subst (λ x. limit_ids x ≡ []) (some_inj [] ls e) refl
limits_list-ids policies (id ∷ ids) ls e =
    cons_limit-ids id ids (limits_for id (by_id id policies)) (limits_list policies ids) ls
      (λ l. limits_for-id id (by_id id policies) l (λ q. by_id-found id policies q))
      (λ m. limits_list-ids policies ids m) e

snapshot_with-ids :
    (decision : PolicyDecision) (at : ℤ) (agent : Option Text)
    (o : Option (List PolicyLimitSnapshot)) (s : PolicySnapshot)
    → ((m : List PolicyLimitSnapshot) → o ≡ some m → limit_ids m ≡ decision.policy_ids)
    → snapshot_with decision at agent o ≡ some s
    → (limit_ids s.limits ≡ decision.policy_ids) × (s.policy_ids ≡ decision.policy_ids)
unfolding snapshot_with
snapshot_with-ids decision at agent none s h e = absurd (cc)
snapshot_with-ids decision at agent (some m) s h e =
    subst (λ x. (limit_ids x.limits ≡ decision.policy_ids) × (x.policy_ids ≡ decision.policy_ids))
      (some_inj _ s e) (h m refl, refl)

-- A snapshot keeps the limits of exactly the policies that the decision names, in their order.
pub snapshot_from_decision-ids :
    (decision : PolicyDecision) (policies : List PaymentPolicy) (at : ℤ) (agent : Option Text)
    (s : PolicySnapshot)
    → snapshot_from_decision decision policies at agent ≡ some s
    → (limit_ids s.limits ≡ decision.policy_ids) × (s.policy_ids ≡ decision.policy_ids)
unfolding snapshot_from_decision
snapshot_from_decision-ids decision policies at agent s e =
    snapshot_with-ids decision at agent (limits_list policies decision.policy_ids) s
      (λ m. limits_list-ids policies decision.policy_ids m) e
