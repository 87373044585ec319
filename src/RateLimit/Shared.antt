-- ===== src/RateLimit/Shared.antt =====
-- The limit that the shared counter of src/lib/distributedRateLimit.ts keeps.
use final_arc.Base.{
  ℕ, ◌+◌, ◌-◌, ◌≤◌, ◌<◌, ◌≡◌, refl, inl, inr, Bool, true, false, Option, none, some, List, [], ◌∷◌,
  if◌then◌else◌, leb, Text, text_eq, text_eq_refl, text_eq_iff, sym, subst, ◌∙◌, get, put, get-put,
  All, arith, Bool-cases,
}
use final_arc.RateLimit.Redis.{
  Counter, Counters, unexpired, incr_counter, incr_script, decide_count, hit_key, decided_allow,
  Reply, answered, not_run, answer_lost, DistributedDecision, rate_limit_ttl_grace_seconds,
}

-- One call of `hit` by one of the instances.
pub record Hit : Type 0 where
  pub key : Text
  pub now : ℕ
  pub reply : Reply

abbrev pub allows : DistributedDecision → ℕ
allows decided_allow = 1
allows _ = 0

-- How many of the calls on a key the shared counter allows.
unfoldable pub allowed_hits : Text → (limit seconds : ℕ) → List Hit → Counters → ℕ
allowed_hits key limit seconds [] store = 0
allowed_hits key limit seconds (h ∷ hits) store =
    let (decision, store') = hit_key (some h.key) limit seconds h.now h.reply store in
    let rest = allowed_hits key limit seconds hits store' in
    if text_eq h.key key then allows decision + rest else rest

abbrev used : Option Counter → ℕ
used none = 0
used (some c) = c.value

-- The counter, where there is one, lives until the end of the window.
abbrev LivesUntil : ℕ → Option Counter → Type 0
LivesUntil end none = Unit
LivesUntil end (some c) = (e : ℕ) × (c.expires_at ≡ some e) × (end ≤ e)

abbrev InWindow : (start seconds : ℕ) → Hit → Type 0
InWindow start seconds h = (start ≤ h.now) × (h.now < start + seconds)

not_past : (now e : ℕ) → now < e → leb e now ≡ false
not_past now e h = ground arith

-- A hit in the window counts on from what the counter holds.
incr_counter-window :
    (start seconds now : ℕ) (o : Option Counter)
    → start ≤ now
    → now < start + seconds
    → LivesUntil (start + seconds) o
    → let next = incr_counter (now + (seconds + rate_limit_ttl_grace_seconds)) (unexpired now o) in
      (next.value ≡ used o + 1) × LivesUntil (start + seconds) (some next)
unfolding incr_counter
incr_counter-window start seconds now none h k l = (refl, (_, refl, omega arith))
incr_counter-window start seconds now (some c) h k (e, q, le) =
    rw (q, not_past now e (omega arith)) (omega arith, (e, refl, le))

module _ (key : Text) (limit start seconds : ℕ) where
  -- What is counted after one hit: on another key, on this key without an answer, on this key.
  count_step :
      (same : Bool) (d : DistributedDecision) (rest before after : ℕ)
      → rest ≤ limit - after
      → (same ≡ false → after ≡ before)
      → (same ≡ true → allows d + (limit - after) ≤ limit - before)
      → (if same then allows d + rest else rest) ≤ limit - before
  count_step same d rest before after h other this = ground arith

  decide_count-step : (n : ℕ) → allows (decide_count limit (n + 1)) + (limit - (n + 1)) ≤ limit - n
  unfolding decide_count
  decide_count-step n = ground arith

  -- The rest of a run, at what the store holds of the key after a hit.
  rest_of :
      (hits : List Hit) (s : Counters) (o : Option Counter)
      → get key s ≡ o
      → LivesUntil (start + seconds) o
      → ((s : Counters)
          → LivesUntil (start + seconds) (get key s)
          → allowed_hits key limit seconds hits s ≤ limit - used (get key s))
      → allowed_hits key limit seconds hits s ≤ limit - used o
  rest_of hits s o e l rest =
      subst (λ x. allowed_hits key limit seconds hits s ≤ limit - used x) e
        (rest s (subst (LivesUntil (start + seconds)) (sym e) l))

  hit_same :
      (now : ℕ) (hits : List Hit) (store : Counters) (c : Counter)
      → c.value ≡ used (get key store) + 1
      → LivesUntil (start + seconds) (some c)
      → ((s : Counters)
          → LivesUntil (start + seconds) (get key s)
          → allowed_hits key limit seconds hits s ≤ limit - used (get key s))
      → allows (decide_count limit c.value) + allowed_hits key limit seconds hits (put key c store)
        ≤ limit - used (get key store)
  hit_same now hits store c v l rest =
      let after =
        rest_of hits (put key c store) (some c)
          (get-put key key c store ∙ rw (text_eq_refl key) refl) l rest in
      let counted = decide_count-step (used (get key store)) in
      let at =
        subst (λ n. allows (decide_count limit n) + (limit - n) ≤ limit - used (get key store))
          (sym v) counted in
      omega (arith, after, at)

  step_answered :
      (k : Text) (now : ℕ) (hits : List Hit) (store : Counters)
      → start ≤ now
      → now < start + seconds
      → LivesUntil (start + seconds) (get key store)
      → ((s : Counters)
          → LivesUntil (start + seconds) (get key s)
          → allowed_hits key limit seconds hits s ≤ limit - used (get key s))
      → allowed_hits key limit seconds
          (record { key = k; now = now; reply = answered } ∷ hits)
          store
        ≤ limit - used (get key store)
  unfolding allowed_hits hit_key incr_script
  step_answered k now hits store h h' l rest = elim (Bool-cases (text_eq k key)) [
    | inl e ↦ rw e (
        subst
          (λ i.
            let c =
              incr_counter (now + (seconds + rate_limit_ttl_grace_seconds))
                (unexpired now (get i store)) in
            allows (decide_count limit c.value)
              + allowed_hits key limit seconds hits (put i c store)
            ≤ limit - used (get key store))
          (sym ((text_eq_iff k key).0 e))
          (let w = incr_counter-window start seconds now (get key store) h h' l in
            hit_same now hits store _ w.0 w.1 rest))
    | inr e ↦
        rw e
          (rest_of hits (put k _ store) (get key store) (get-put key k _ store ∙ rw e refl) l rest)
  ]

  step :
      (k : Text) (now : ℕ) (reply : Reply) (hits : List Hit) (store : Counters)
      → start ≤ now
      → now < start + seconds
      → LivesUntil (start + seconds) (get key store)
      → ((s : Counters)
          → LivesUntil (start + seconds) (get key s)
          → allowed_hits key limit seconds hits s ≤ limit - used (get key s))
      → allowed_hits key limit seconds (record { key = k; now = now; reply = reply } ∷ hits) store
        ≤ limit - used (get key store)
  unfolding allowed_hits hit_key incr_script
  step k now not_run hits store h h' l rest = ground (arith, rest store l)
  step k now answer_lost hits store h h' l rest =
      let counted = step_answered k now hits store h h' l rest in ground arith
  step k now answered hits store h h' l rest = step_answered k now hits store h h' l rest

  allowed_hits-window :
      (hits : List Hit) (store : Counters)
      → All (InWindow start seconds) hits
      → LivesUntil (start + seconds) (get key store)
      → allowed_hits key limit seconds hits store ≤ limit - used (get key store)
  unfolding allowed_hits
  allowed_hits-window [] store w l = omega arith
  allowed_hits-window (h ∷ hits) store w l =
      step h.key h.now h.reply hits store w.0.0 w.0.1 l (λ s ls. allowed_hits-window hits s w.1 ls)

-- Whatever the instances ask of the shared counter, and in whatever order, within one window it
-- allows an identity no more calls than its limit, when the identity's counter starts afresh.
pub allowed_hits-limit :
    (key : Text) (limit start seconds : ℕ) (hits : List Hit) (store : Counters)
    → All (InWindow start seconds) hits
    → get key store ≡ none
    → allowed_hits key limit seconds hits store ≤ limit
allowed_hits-limit key limit start seconds hits store w e =
    let bound =
      rest_of key limit start seconds hits store none e tt
        (λ s l. allowed_hits-window key limit start seconds hits s w l) in
    omega (arith, bound)
