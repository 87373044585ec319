-- ===== src/Enforcement/Promises.antt =====
-- What an allowed plan of `decideMachinePolicy` (src/lib/paymentPolicies.ts) promises.
use final_arc.Base.{
  ℕ, ◌+◌, ◌≤◌, ◌≡◌, refl, subst, Bool, true, false, not, ◌&&◌, ◌||◌, Option, none, some, List, [],
  ◌∷◌, ◌++◌, if◌then◌else◌, any_of, is_empty, All, Text, to_lower_case, big_int, arith,
}
use final_arc.Base.Int.{ℤ}
use final_arc.Base.Addresses.{Addresses, canonicalize_address}
use final_arc.Policy.{PolicyReason, PaymentPolicy, PolicyDecision}
use final_arc.Policy.Evaluate.{evaluate_payment_policy}
use final_arc.Policy.Snapshot.{PolicySnapshot, snapshot_from_decision}
use final_arc.Ledger.{LedgerReservation}
use final_arc.Payments.{is_v2_request_id}
use final_arc.Enforcement.{
  PolicyStore, MachinePolicyInput, MachinePolicyPlan, skip, defer, throws, deny, allows, cap_of,
  spend_reason, tightest_spend_denial, has_cap,
}
use final_arc.Enforcement.Decide.{
  enabled_policies, corrupt_merchant_policy, corrupt_denial, verified_spend_from_intents, used_in,
  evaluation_of, reservation_of, allow_plan, denial_of, plan_of, extra_reasons, decide_payment,
  decide_with, decide_enabled, decide_machine_policy,
}

-- A cap with a window has room for the amount.
abbrev pub CapHolds : (used : ℤ → ℕ) → ℕ → Option Text × Option ℤ → Type 0
CapHolds used amount (none, window) = Unit
CapHolds used amount (some cap, none) = Unit
CapHolds used amount (some cap, some window) = used window + amount ≤ big_int cap

append-empty :
    (xs ys : List PolicyReason)
    → is_empty (xs ++ ys) ≡ true
    → (is_empty xs ≡ true) × (is_empty ys ≡ true)
append-empty [] ys e = (refl, e)
append-empty (x ∷ xs) ys e = absurd (cc)

spend_reason-holds :
    (id : Text) (used : ℤ → ℕ) (amount : ℕ) (c : Option Text × Option ℤ)
    → is_empty (spend_reason id used amount c) ≡ true
    → CapHolds used amount c
unfolding spend_reason
spend_reason-holds id used amount (none, window) e = tt
spend_reason-holds id used amount (some cap, none) e = tt
spend_reason-holds id used amount (some cap, some window) e = ground arith

tightest_spend_denial-holds :
    (ps : List PaymentPolicy) (used : ℤ → ℕ) (amount : ℕ)
    → is_empty (tightest_spend_denial ps used amount) ≡ true
    → All (λ p. CapHolds used amount (cap_of p.rules)) ps
unfolding tightest_spend_denial
tightest_spend_denial-holds [] used amount e = tt
tightest_spend_denial-holds (p ∷ ps) used amount e =
    let (first, rest) =
      append-empty (spend_reason p.id used amount (cap_of p.rules))
        (tightest_spend_denial ps used amount) e in
    (
      spend_reason-holds p.id used amount (cap_of p.rules) first,
      tightest_spend_denial-holds ps used amount rest,
    )

module _ (v : Addresses) (show_amount : ℕ → Text) (i : MachinePolicyInput) where
  -- A payment that will be executed under some cap is reserved under its request's id, in full;
  -- another is not reserved.
  abbrev pub ReservedFor : ℕ → List PaymentPolicy → Option LedgerReservation → Type 0
  ReservedFor amount enabled none = (i.will_execute && any_of has_cap enabled) ≡ false
  ReservedFor amount enabled (some r) =
      ((i.will_execute && any_of has_cap enabled) ≡ true)
      × (is_v2_request_id i.request_id ≡ true)
      × (r.id ≡ to_lower_case i.request_id)
      × (r.amount_base_units ≡ show_amount amount)
      × (r.reserved_at ≡ i.now)
      × (i.expires_at ≡ some r.expires_at)

  abbrev pub PlanReserves : ℕ → List PaymentPolicy → MachinePolicyPlan → Type 0
  PlanReserves amount enabled (allows s o) = ReservedFor amount enabled o
  PlanReserves amount enabled (deny d) = Unit
  PlanReserves amount enabled skip = Unit
  PlanReserves amount enabled defer = Unit
  PlanReserves amount enabled throws = Unit

  allow_plan-PlanReserves :
      (amount : ℕ) (enabled : List PaymentPolicy) (o : Option PolicySnapshot)
      → PlanReserves amount enabled (allow_plan v show_amount i amount enabled o)
  unfolding allow_plan reservation_of
  allow_plan-PlanReserves amount enabled none = tt
  allow_plan-PlanReserves amount enabled (some s) =
      from (i.will_execute && any_of has_cap enabled) refl (is_v2_request_id i.request_id) refl
        i.expires_at refl
    where
      from :
          (b : Bool)
          → (i.will_execute && any_of has_cap enabled) ≡ b
          → (c : Bool) → is_v2_request_id i.request_id ≡ c
          → (o : Option ℤ) → i.expires_at ≡ o
          → PlanReserves amount enabled (
              if not b
              then allows s none
              else (if not c then defer else (elim o [
                | none ↦ defer
                | some at ↦ allows s (some (reservation_of v show_amount i at amount enabled))
              ])))
      from false e c f o g = e
      from true e false f o g = tt
      from true e true f none g = tt
      from true e true f (some at) g = (e, f, refl, refl, refl, g)

module _ (v : Addresses) (show_amount : ℕ → Text) (store : PolicyStore)
    (i : MachinePolicyInput) where
  -- The evaluation allows the payment, every cap has room for it beside the verified spend and the
  -- reservations of its window, and it is reserved as it should be.
  abbrev pub Permitted :
      List PaymentPolicy → (recipient token : Text) → ℤ → ℕ → Option LedgerReservation → Type 0
  Permitted enabled recipient token chain_id amount o =
      ((evaluate_payment_policy v (
          evaluation_of v show_amount i recipient token chain_id amount enabled
            (verified_spend_from_intents v show_amount i.merchant store.agents.intents))).allowed
        ≡ true)
      × All (λ p. CapHolds (used_in v show_amount i.merchant i.now store) amount (cap_of p.rules))
          enabled
      × ReservedFor v show_amount i amount enabled o

  abbrev pub PlanPermits :
      List PaymentPolicy → (recipient token : Text) → ℤ → ℕ → MachinePolicyPlan → Type 0
  PlanPermits enabled recipient token chain_id amount (allows s o) =
      Permitted enabled recipient token chain_id amount o
  PlanPermits enabled recipient token chain_id amount (deny d) = Unit
  PlanPermits enabled recipient token chain_id amount skip = Unit
  PlanPermits enabled recipient token chain_id amount defer = Unit
  PlanPermits enabled recipient token chain_id amount throws = Unit

  allowed_plan :
      (enabled : List PaymentPolicy) (recipient token : Text) (chain_id : ℤ) (amount : ℕ)
      (plan : MachinePolicyPlan)
      → (evaluate_payment_policy v (
          evaluation_of v show_amount i recipient token chain_id amount enabled
            (verified_spend_from_intents v show_amount i.merchant store.agents.intents))).allowed
        ≡ true
      → All
          (λ p. CapHolds (used_in v show_amount i.merchant i.now store) amount (cap_of p.rules))
          enabled
      → PlanReserves v show_amount i amount enabled plan
      → PlanPermits enabled recipient token chain_id amount plan
  allowed_plan enabled recipient token chain_id amount (allows s o) a c r = (a, c, r)
  allowed_plan enabled recipient token chain_id amount (deny d) a c r = tt
  allowed_plan enabled recipient token chain_id amount skip a c r = tt
  allowed_plan enabled recipient token chain_id amount defer a c r = tt
  allowed_plan enabled recipient token chain_id amount throws a c r = tt

  decide_payment-PlanPermits :
      (enabled : List PaymentPolicy) (recipient token : Text) (chain_id : ℤ) (amount : ℕ)
      → PlanPermits enabled recipient token chain_id amount
          (decide_payment v show_amount store i recipient token chain_id amount enabled)
  unfolding decide_payment plan_of extra_reasons
  decide_payment-PlanPermits enabled recipient token chain_id amount = from decision.allowed refl
    where
      decision : PolicyDecision
      decision = evaluate_payment_policy v (
          evaluation_of v show_amount i recipient token chain_id amount enabled
            (verified_spend_from_intents v show_amount i.merchant store.agents.intents))

      used : ℤ → ℕ
      used = used_in v show_amount i.merchant i.now store

      next : MachinePolicyPlan
      next =
          allow_plan v show_amount i amount enabled
            (snapshot_from_decision decision enabled i.now i.agent_id)

      plan_with : List PolicyReason → Bool → MachinePolicyPlan
      plan_with extra allowed =
          if not (is_empty (decision.reasons ++ extra)) || not allowed
          then deny (
              denial_of v show_amount i recipient token chain_id amount decision
                (decision.reasons ++ extra))
          else next

      within :
          decision.allowed ≡ true
          → (e : Bool)
          → is_empty (decision.reasons ++ tightest_spend_denial enabled used amount) ≡ e
          → PlanPermits enabled recipient token chain_id amount (
              if not e || not true
              then deny (
                  denial_of v show_amount i recipient token chain_id amount decision
                    (decision.reasons ++ tightest_spend_denial enabled used amount))
              else next)
      within allowed false h = tt
      within allowed true h =
          allowed_plan enabled recipient token chain_id amount next allowed
            (tightest_spend_denial-holds enabled used amount
              (append-empty decision.reasons (tightest_spend_denial enabled used amount) h).1)
            (allow_plan-PlanReserves v show_amount i amount enabled
              (snapshot_from_decision decision enabled i.now i.agent_id))

      refused_plan :
          (e : Bool) (d : MachinePolicyPlan)
          → PlanPermits enabled recipient token chain_id amount (
              if not e || not false
              then deny (
                  denial_of v show_amount i recipient token chain_id amount decision
                    (decision.reasons ++ []))
              else d)
      refused_plan true d = tt
      refused_plan false d = tt

      from :
          (b : Bool)
          → decision.allowed ≡ b
          → PlanPermits enabled recipient token chain_id amount
              (plan_with (extra_reasons v show_amount b enabled used amount) b)
      from false h = refused_plan (is_empty (decision.reasons ++ [])) next
      from true h =
          within h (is_empty (decision.reasons ++ tightest_spend_denial enabled used amount)) refl

  -- The same, with the fields of the payment that it is about.
  abbrev pub PlanStates :
      List PaymentPolicy
      → Option ℕ
      → Option ℤ
      → (recipient token : Option Text) → MachinePolicyPlan
      → Type 0
  PlanStates enabled a c r t (allows s o) =
      (amount : ℕ) × (chain_id : ℤ) × (recipient : Text) × (token : Text) × (a ≡ some amount)
      × (c ≡ some chain_id)
      × (r ≡ some recipient)
      × (t ≡ some token)
      × Permitted enabled recipient token chain_id amount o
  PlanStates enabled a c r t (deny d) = Unit
  PlanStates enabled a c r t skip = Unit
  PlanStates enabled a c r t defer = Unit
  PlanStates enabled a c r t throws = Unit

  stated_plan :
      (enabled : List PaymentPolicy) (amount : ℕ) (chain_id : ℤ) (recipient token : Text)
      (plan : MachinePolicyPlan)
      → PlanPermits enabled recipient token chain_id amount plan
      → PlanStates enabled (some amount) (some chain_id) (some recipient) (some token) plan
  stated_plan enabled amount chain_id recipient token (allows s o) p =
      (amount, chain_id, recipient, token, refl, refl, refl, refl, p)
  stated_plan enabled amount chain_id recipient token (deny d) p = tt
  stated_plan enabled amount chain_id recipient token skip p = tt
  stated_plan enabled amount chain_id recipient token defer p = tt
  stated_plan enabled amount chain_id recipient token throws p = tt

  decide_with-PlanStates :
      (enabled : List PaymentPolicy) (a : Option ℕ) (c : Option ℤ) (r t : Option Text)
      → PlanStates enabled a c r t (decide_with v show_amount store i enabled a c r t)
  unfolding decide_with
  decide_with-PlanStates enabled none c r t = tt
  decide_with-PlanStates enabled (some a) none r t = tt
  decide_with-PlanStates enabled (some a) (some c) none t = tt
  decide_with-PlanStates enabled (some a) (some c) (some r) none = tt
  decide_with-PlanStates enabled (some a) (some c) (some r) (some t) =
      stated_plan enabled a c r t (decide_payment v show_amount store i r t c a enabled)
        (decide_payment-PlanPermits enabled r t c a)

  decide_enabled-PlanStates :
      (enabled : List PaymentPolicy)
      → PlanStates enabled i.amount i.chain_id
          (canonicalize_address v i.recipient)
          (canonicalize_address v i.token)
          (decide_enabled v show_amount store i enabled)
  unfolding decide_enabled
  decide_enabled-PlanStates [] = tt
  decide_enabled-PlanStates (p ∷ ps) =
      decide_with-PlanStates (p ∷ ps) i.amount i.chain_id (canonicalize_address v i.recipient)
        (canonicalize_address v i.token)

-- A payment is allowed only when none of the merchant's stored policies that are on is unreadable,
-- its fields are readable, the evaluation of the merchant's enabled policies allows it, and every
-- cap of theirs with a window has room for it beside the verified spend and the reservations in that
-- window; it carries a reservation of its amount under its request's id exactly when it will be
-- executed and some enabled policy has a cap.
pub decide_machine_policy-Permitted :
    (v : Addresses) (show_amount : ℕ → Text) (store : PolicyStore) (i : MachinePolicyInput)
    (s : PolicySnapshot) (o : Option LedgerReservation)
    → decide_machine_policy v show_amount store i ≡ allows s o
    → (corrupt_merchant_policy v show_amount i.merchant store.records ≡ false)
      × ((amount : ℕ) × (chain_id : ℤ) × (recipient : Text) × (token : Text) × (i.amount
            ≡ some amount)
          × (i.chain_id ≡ some chain_id)
          × (canonicalize_address v i.recipient ≡ some recipient)
          × (canonicalize_address v i.token ≡ some token)
          × Permitted v show_amount store i
              (enabled_policies v show_amount i.merchant store.records)
              recipient
              token
              chain_id
              amount
              o)
unfolding decide_machine_policy
decide_machine_policy-Permitted v show_amount store i s o e =
    from (corrupt_merchant_policy v show_amount i.merchant store.records) refl e
  where
    enabled : List PaymentPolicy
    enabled = enabled_policies v show_amount i.merchant store.records

    from :
        (b : Bool)
        → corrupt_merchant_policy v show_amount i.merchant store.records ≡ b
        → (if b
            then deny (corrupt_denial v show_amount i)
            else decide_enabled v show_amount store i enabled)
          ≡ allows s o
        → (corrupt_merchant_policy v show_amount i.merchant store.records ≡ false)
          × PlanStates v show_amount store i enabled i.amount i.chain_id
              (canonicalize_address v i.recipient)
              (canonicalize_address v i.token)
              (allows s o)
    from true c h = absurd (cc)
    from false c h = (
      c,
      subst
          (PlanStates v show_amount store i enabled i.amount i.chain_id
            (canonicalize_address v i.recipient) (canonicalize_address v i.token))
          h (decide_enabled-PlanStates v show_amount store i enabled),
    )
