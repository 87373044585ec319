-- ===== src/RateLimit/Bounds.antt =====
-- The limits that the limiter of one process keeps (src/lib/publicRateLimit.ts).
use final_arc.Base.{
  ℕ, ◌+◌, ◌≤◌, ◌≡◌, inl, inr, refl, sym, ap, subst, Bool, true, false, not, ◌&&◌, Option, none,
  some, List, [], ◌∷◌, ◌++◌, leb, ◌==◌, ◌%◌, Text, text_eq, text_eq_iff, Entries, get, put, All,
  filter_by, arith, if◌then◌else◌, Bool-cases,
}
use final_arc.RateLimit.{
  RateRule, Bucket, Limiter, delete, is_over, live_bucket, live, sweep, longest_window, global_slot,
  key_slot, is_full, count_in, admit, allow_by, allow_rule, swept, allow,
}

abbrev kept_of : RateRule → Text → Text → ℕ → Entries Bucket → Entries Bucket
kept_of r route_class key now m =
    (live (key_slot route_class key) now r.window_seconds
      (live (global_slot route_class) now r.window_seconds m).1).1

-- What follows is about every entry of the map.
All-filter_by :
    {A : Type 0} (P : A → Type 0) (p : A → Bool) (xs : List A) → All P xs → All P (filter_by p xs)
All-filter_by P p [] h = h
All-filter_by P p (x ∷ xs) h = ground (arith, All-filter_by P p xs h.1)

module _ {V : Type 0} where
  head_value :
      (j k : Text) (b c : V) (m : Entries V)
      → text_eq j k ≡ true
      → get k ((j, c) ∷ m) ≡ some b
      → c ≡ b
  unfolding get
  head_value j k b c m q e = ground arith

  tail_value :
      (j k : Text) (b c : V) (m : Entries V)
      → text_eq j k ≡ false
      → get k ((j, c) ∷ m) ≡ some b
      → get k m ≡ some b
  unfolding get
  tail_value j k b c m q e = ground arith

  All-get :
      (P : Text × V → Type 0) (k : Text) (b : V) (m : Entries V)
      → All P m
      → get k m ≡ some b
      → P (k, b)
  unfolding get
  All-get P k b [] h e = absurd (cc)
  All-get P k b ((j, c) ∷ m) h e = elim (Bool-cases (text_eq j k)) [
    | inl q ↦
        subst P (ap (λ i. (i, b)) ((text_eq_iff j k).0 q))
          (subst (λ d. P (j, d)) (head_value j k b c m q e) h.0)
    | inr q ↦ All-get P k b m h.1 (tail_value j k b c m q e)
  ]

module _ (P : Text × Bucket → Type 0) where
  All-put : (k : Text) (b : Bucket) (m : Entries Bucket) → P (k, b) → All P m → All P (put k b m)
  unfolding put
  All-put k b [] pk h = (pk, h)
  All-put k b ((j, c) ∷ m) pk h = elim (Bool-cases (text_eq j k)) [
    | inl e ↦ rw e (subst (λ i. P (i, b)) (sym ((text_eq_iff j k).0 e)) pk, h.1)
    | inr e ↦ rw e (h.0, All-put k b m pk h.1)
  ]

  All-swept :
      (rules : Entries RateRule) (calls now : ℕ) (m : Entries Bucket)
      → All P m
      → All P (swept rules calls now m)
  unfolding swept sweep
  All-swept rules calls now m h = elim (Bool-cases (calls % 256 == 0)) [
    | inl e ↦
        rw e (
          All-filter_by P (λ x. if is_over now (longest_window rules) x.1 then false else true) m h)
    | inr e ↦ rw e h
  ]

  -- What `live` leaves.
  All-live :
      (slot : Text) (now seconds : ℕ) (m : Entries Bucket) (o : Option Bucket)
      → All P m
      → All P (live_bucket slot now seconds m o).1
  unfolding live_bucket delete
  All-live slot now seconds m none h = h
  All-live slot now seconds m (some b) h = elim (Bool-cases (is_over now seconds b)) [
    | inl e ↦ rw e (All-filter_by P (λ x. if text_eq x.0 slot then false else true) m h)
    | inr e ↦ rw e h
  ]

  All-kept :
      (r : RateRule) (route_class key : Text) (now : ℕ) (m : Entries Bucket)
      → All P m
      → All P (kept_of r route_class key now m)
  unfolding live
  All-kept r route_class key now m h =
      let slot = key_slot route_class key in
      let m' = (live (global_slot route_class) now r.window_seconds m).1 in
      All-live slot now r.window_seconds m' (get slot m') (
        All-live (global_slot route_class) now r.window_seconds m (get (global_slot route_class) m)
          h)

  admit-denied :
      (r : RateRule) (route_class key : Text) (now : ℕ) (g k : Option Bucket) (m : Entries Bucket)
      → (admit r route_class key now g k m).0 ≡ false
      → All P m
      → All P (admit r route_class key now g k m).1
  unfolding admit
  admit-denied r route_class key now g k m e h = ground arith

  allow_rule-denied :
      (r : RateRule) (route_class key : Text) (now : ℕ) (m : Entries Bucket)
      → (allow_rule r route_class key now m).0 ≡ false
      → All P m
      → All P (allow_rule r route_class key now m).1
  unfolding allow_rule
  allow_rule-denied r route_class key now m e h =
      admit-denied r route_class key now _ _ _ e (All-kept r route_class key now m h)

  allow_by-denied :
      (rules : Entries RateRule) (route_class key : Text) (now : ℕ) (l : Limiter)
      (o : Option RateRule)
      → (allow_by rules route_class key now l o).0 ≡ false
      → All P l.buckets
      → All P (allow_by rules route_class key now l o).1.buckets
  unfolding allow_by
  allow_by-denied rules route_class key now l none e h = h
  allow_by-denied rules route_class key now l (some r) e h =
      allow_rule-denied r route_class key now _ e (All-swept rules (l.calls + 1) now l.buckets h)

  -- A denied request is not counted: whatever holds of every bucket before it holds of every
  -- bucket after it.
  pub allow-denied :
      (rules : Entries RateRule) (route_class key : Text) (now : ℕ) (l : Limiter)
      → (allow rules route_class key now l).0 ≡ false
      → All P l.buckets
      → All P (allow rules route_class key now l).1.buckets
  unfolding allow
  allow-denied rules route_class key now l e h =
      allow_by-denied rules route_class key now l (get route_class rules) e h

abbrev nul_free : Text → Bool
nul_free [] = true
nul_free (c ∷ cs) = not (c == 0) && nul_free cs

-- Rules that a limiter can keep: their names hold no NUL, and they allow a first request.
abbrev pub SoundRules : Entries RateRule → Type 0
SoundRules rules = All (λ e. (nul_free e.0 ≡ true) × (1 ≤ e.1.per_key) × (1 ≤ e.1.global)) rules

-- A bucket's count is within the limit of its slot.
abbrev pub WithinLimits : Entries RateRule → Text × Bucket → Type 0
WithinLimits rules e =
    (route_class : Text) (r : RateRule)
    → get route_class rules ≡ some r
    → (e.0 ≡ global_slot route_class → e.1.count ≤ r.global)
      × ((key : Text) → e.0 ≡ key_slot route_class key → e.1.count ≤ r.per_key)

cut_at_nul :
    (s t u v : Text) → nul_free s ≡ true → nul_free t ≡ true → s ++ 0 ∷ u ≡ t ++ 0 ∷ v → s ≡ t
cut_at_nul [] [] u v hs ht e = refl
cut_at_nul [] (c ∷ t) u v hs ht e = ground arith
cut_at_nul (c ∷ s) [] u v hs ht e = ground arith
cut_at_nul (c ∷ s) (d ∷ t) u v hs ht e = ground (arith, cut_at_nul s t u v)

room_for_one : (limit n : ℕ) → leb limit n ≡ false → n + 1 ≤ limit
room_for_one limit n h = ground arith

module _ (rules : Entries RateRule) (sound : SoundRules rules) where
  sound_at :
      (rc : Text) (r : RateRule)
      → get rc rules ≡ some r
      → (nul_free rc ≡ true) × (1 ≤ r.per_key) × (1 ≤ r.global)
  sound_at rc r e =
      All-get (λ e. (nul_free e.0 ≡ true) × (1 ≤ e.1.per_key) × (1 ≤ e.1.global)) rc r rules sound e

  same_rule :
      (rc rc' : Text) (r r' : RateRule)
      → get rc rules ≡ some r
      → get rc' rules ≡ some r'
      → rc ≡ rc'
      → r ≡ r'
  same_rule rc rc' r r' e e' q = grind (arith)

  key_slot-fits :
      (rc key : Text) (r : RateRule) (b : Bucket)
      → get rc rules ≡ some r
      → b.count ≤ r.per_key
      → WithinLimits rules (key_slot rc key, b)
  key_slot-fits rc key r b e le rc' r' e' = (
    (λ q. absurd (cc)),
    (λ key' q.
        subst (λ x. b.count ≤ x.per_key)
          (same_rule rc rc' r r' e e'
            (cut_at_nul rc rc' key key' (sound_at rc r e).0 (sound_at rc' r' e').0 (cc)))
          le),
  )

  global_slot-fits :
      (rc : Text) (r : RateRule) (b : Bucket)
      → get rc rules ≡ some r
      → b.count ≤ r.global
      → WithinLimits rules (global_slot rc, b)
  global_slot-fits rc r b e le rc' r' e' = (
    (λ q. subst (λ x. b.count ≤ x.global) (same_rule rc rc' r r' e e' (cc)) le),
    (λ key q. absurd (cc)),
  )

  count_in-fits :
      (slot : Text) (now limit : ℕ) (o : Option Bucket) (m : Entries Bucket)
      → ((b : Bucket) → b.count ≤ limit → WithinLimits rules (slot, b))
      → 1 ≤ limit
      → is_full limit o ≡ false
      → All (WithinLimits rules) m
      → All (WithinLimits rules) (count_in slot now o m)
  unfolding count_in
  count_in-fits slot now limit none m fits one room h =
      let first : Bucket = record { start = now; count = 1 } in
      All-put (WithinLimits rules) slot first m (fits first one) h
  count_in-fits slot now limit (some b) m fits one room h =
      let next : Bucket = record b { count = b.count + 1 } in
      All-put (WithinLimits rules) slot next m (fits next (room_for_one limit b.count room)) h

  module _ (rc key : Text) (r : RateRule) (e : get rc rules ≡ some r) (now : ℕ) where
    admit-fits :
        (g k : Option Bucket) (m : Entries Bucket)
        → All (WithinLimits rules) m
        → All (WithinLimits rules) (admit r rc key now g k m).1
    unfolding admit
    admit-fits g k m h = elim (Bool-cases (is_full r.per_key k)) [
      | inl full ↦ rw full h
      | inr room ↦ elim (Bool-cases (is_full r.global g)) [
        | inl full ↦ rw room (rw full h)
        | inr room' ↦ rw room (
            rw room' (
              count_in-fits (key_slot rc key) now r.per_key k _ (λ b. key_slot-fits rc key r b e)
                (sound_at rc r e).1 room
                (count_in-fits (global_slot rc) now r.global g m (λ b. global_slot-fits rc r b e)
                  (sound_at rc r e).2 room' h)))
      ]
    ]

    allow_rule-fits :
        (m : Entries Bucket)
        → All (WithinLimits rules) m
        → All (WithinLimits rules) (allow_rule r rc key now m).1
    unfolding allow_rule
    allow_rule-fits m h = admit-fits _ _ _ (All-kept (WithinLimits rules) r rc key now m h)

  allow_by-fits :
      (rc key : Text) (now : ℕ) (l : Limiter) (o : Option RateRule)
      → get rc rules ≡ o
      → All (WithinLimits rules) l.buckets
      → All (WithinLimits rules) (allow_by rules rc key now l o).1.buckets
  unfolding allow_by
  allow_by-fits rc key now l none e h = h
  allow_by-fits rc key now l (some r) e h =
      allow_rule-fits rc key r e now _
        (All-swept (WithinLimits rules) rules (l.calls + 1) now l.buckets h)

  -- No request makes a bucket count more than the limit of its slot, when the rules allow a first
  -- request and no name of a route class holds a NUL.
  pub allow-WithinLimits :
      (route_class key : Text) (now : ℕ) (l : Limiter)
      → All (WithinLimits rules) l.buckets
      → All (WithinLimits rules) (allow rules route_class key now l).1.buckets
  unfolding allow
  allow-WithinLimits route_class key now l h =
      allow_by-fits route_class key now l (get route_class rules) refl h
