-- ===== src/Agents/Unique.antt =====
-- What `persistTouched` (src/lib/agentPayments.ts) keeps of the stored intents and idempotency rows.
use final_arc.Base.{
  ◌≡◌, ◌⊎◌, inl, inr, refl, sym, ap, ◌∙◌, subst, Bool, true, false, not, ◌&&◌, ◌||◌, Option, none,
  some, List, [], ◌∷◌, if◌then◌else◌, is_empty, All, Text, text_eq, text_eq_refl, text_eq_iff,
  text_eq→eq, to_lower_case, Entries, get, put, get-put, arith, Bool-cases,
}
use final_arc.Payments.{same_id}
use final_arc.Agents.{Kept, row, foreign, StoredIntent, AgentStore}
use final_arc.Agents.Section.{
  is_verified, holds_hash, verified_hash_of, hash_used_by_other, readable_verified,
  merge_agent_intent, put_some, hash_taken, touch_intent, touch_intents, Touched, persist_touched,
}

abbrev pub Intents : Type 0
Intents = Entries (Kept StoredIntent)

-- The intent of an entry holds a hash, which is no empty text.
abbrev pub Holds : Text → Text → Intents → Type 0
Holds id hash m =
    (i : StoredIntent) × (get id m ≡ some (row i))
    × (i.verified_tx_hash ≡ some hash)
    × (is_empty hash ≡ false)

-- No two intents hold the same verified transaction, and only a verified intent holds one.
abbrev pub IsUnique : Intents → Type 0
IsUnique m =
    ((j k h g : Text) → Holds j h m → Holds k g m → same_id h g ≡ true → same_id j k ≡ true)
    × ((k h : Text)
        → (i : StoredIntent) → get k m ≡ some (row i)
        → i.verified_tx_hash ≡ some h
        → is_empty h ≡ false
        → is_verified i.status ≡ true)

same_id_sym : (a b : Text) → same_id a b ≡ true → same_id b a ≡ true
unfolding same_id
same_id_sym a b h = ground (
  arith,
  text_eq_iff (to_lower_case a) (to_lower_case b),
  text_eq_iff (to_lower_case b) (to_lower_case a),
)

same_id_refl : (a : Text) → same_id a a ≡ true
unfolding same_id
same_id_refl a = text_eq_refl (to_lower_case a)

free_entry :
    (hash g : Text) (same rest : Bool) (o : Option Text)
    → o ≡ some g
    → is_empty g ≡ false
    → same_id g hash ≡ true
    → ((not same && holds_hash hash o) || rest) ≡ false
    → same ≡ true
free_entry hash g same rest none e full used free = absurd (cc)
free_entry hash g same rest (some h) e full used free =
    let h_eq : h ≡ g = cc in free_at (rw h_eq full) (rw h_eq used) free
  where
    free_at :
        is_empty h ≡ false
        → same_id h hash ≡ true
        → ((not same && (not (is_empty h) && same_id h hash)) || rest) ≡ false
        → same ≡ true
    free_at a b c = ground arith

-- A hash that no other intent uses is held by no other intent.
hash_used_by_other-free :
    (hash id k g : Text) (m : Intents)
    → hash_used_by_other hash id m ≡ false
    → Holds k g m
    → same_id g hash ≡ true
    → same_id k id ≡ true
unfolding hash_used_by_other get
hash_used_by_other-free hash id k g [] free (i, e, _, _) same = absurd (cc)
hash_used_by_other-free hash id k g ((j, x) ∷ m) free (i, e, held, full) same =
    elim (Bool-cases (text_eq j k)) [
      | inl here ↦
          let j_eq : j ≡ k = (text_eq_iff j k).0 here in
          let x_eq : x ≡ row i = ground arith in
          subst (λ a. same_id a id ≡ true) j_eq
            (free_entry hash g (same_id j id) (hash_used_by_other hash id m) (verified_hash_of x)
              (ap verified_hash_of x_eq ∙ held) full same free)
      | inr other ↦
          let rest : get k m ≡ some (row i) = ground arith in
          hash_used_by_other-free hash id k g m (ground arith) (i, rest, held, full) same
    ]

-- The rows that a call writes are well formed: only a verified intent holds a hash.
abbrev pub HoldsVerified : Kept StoredIntent → Type 0
HoldsVerified k =
    (h : Text)
    → verified_hash_of k ≡ some h
    → is_empty h ≡ false
    → readable_verified (some k) ≡ true

-- A free row: the hash that it holds, if any, is held by no other intent.
abbrev pub IsFree : Text → Kept StoredIntent → Intents → Type 0
IsFree id k m =
    (h j g : Text)
    → verified_hash_of k ≡ some h
    → is_empty h ≡ false
    → Holds j g m
    → same_id h g ≡ true
    → same_id j id ≡ true

hash_taken-IsFree :
    (id : Text) (k : Kept StoredIntent) (m : Intents)
    → HoldsVerified k
    → hash_taken id k m ≡ false
    → IsFree id k m
unfolding hash_taken
hash_taken-IsFree id (foreign v) m good free h j g e full held same = absurd (cc)
hash_taken-IsFree id (row i) m good free h j g e full held same =
    hash_used_by_other-free h id j g m
      (unused i.verified_tx_hash (is_verified i.status) e (good h e full) free) held
      (same_id_sym h g same)
  where
    unused :
        (o : Option Text) (b : Bool)
        → o ≡ some h
        → b ≡ true
        → (elim o [ none ↦ false | some t ↦ b && hash_used_by_other t id m ]) ≡ false
        → hash_used_by_other h id m ≡ false
    unused none b a c d = absurd (cc)
    unused (some t) b a c d =
        let t_eq : t ≡ h = cc in subst (λ x. hash_used_by_other x id m ≡ false) t_eq (ground arith)

-- An entry after a write is the one written or an older one.
put-cases :
    {V : Type 0} (id j : Text) (k x : V) (m : Entries V)
    → get j (put id k m) ≡ some x
    → ((id ≡ j) × (k ≡ x)) ⊎ (get j m ≡ some x)
put-cases id j k x m e = elim (Bool-cases (text_eq id j)) [
  | inl same ↦
      let found : (if text_eq id j then some k else get j m) ≡ some x =
        sym (get-put j id k m) ∙ e in
      inl ((text_eq_iff id j).0 same, ground arith)
  | inr other ↦
      let found : (if text_eq id j then some k else get j m) ≡ some x =
        sym (get-put j id k m) ∙ e in
      inr (ground arith)
]

Holds-put :
    (id j h : Text) (k : Kept StoredIntent) (m : Intents)
    → Holds j h (put id k m)
    → ((id ≡ j) × (verified_hash_of k ≡ some h)) ⊎ Holds j h m
Holds-put id j h k m (i, e, held, full) = elim (put-cases id j k (row i) m e) [
  | inl (same, k_eq) ↦ inl (same, ap verified_hash_of k_eq ∙ held)
  | inr old ↦ inr (i, old, held, full)
]

put-IsUnique :
    (id : Text) (k : Kept StoredIntent) (m : Intents)
    → HoldsVerified k
    → IsFree id k m
    → IsUnique m
    → IsUnique (put id k m)
put-IsUnique id k m good free (apart, marked) = (
  λ i j h g hi hj same. elim (Holds-put id i h k m hi) [
    | inl (i_eq, held) ↦
        subst (λ a. same_id a j ≡ true) i_eq
          (elim (Holds-put id j g k m hj) [
            | inl (j_eq, _) ↦ subst (λ b. same_id id b ≡ true) j_eq (same_id_refl id)
            | inr old ↦ same_id_sym j id (free h j g held hi.3 old same)
          ])
    | inr old ↦ elim (Holds-put id j g k m hj) [
      | inl (j_eq, held) ↦
          subst (λ b. same_id i b ≡ true) j_eq (free g i h held hj.3 old (same_id_sym h g same))
      | inr older ↦ apart i j h g old older same
    ]
  ],
  λ j h i e held full. elim (put-cases id j k (row i) m e) [
    | inl (_, k_eq) ↦
        ap (λ x. readable_verified (some x)) (sym k_eq)
        ∙ good h (ap verified_hash_of k_eq ∙ held) full
    | inr old ↦ marked j h i old held full
  ],
)

merge-cases :
    (existing : Option (Kept StoredIntent)) (k : Kept StoredIntent)
    → (merge_agent_intent existing k ≡ existing) ⊎ (merge_agent_intent existing k ≡ some k)
unfolding merge_agent_intent
merge-cases existing (foreign v) = inl refl
merge-cases existing (row i) = ground arith

put_same :
    (id j : Text) (x : Kept StoredIntent) (m : Intents)
    → get id m ≡ some x
    → get j (put id x m) ≡ get j m
put_same id j x m e = elim (Bool-cases (text_eq id j)) [
  | inl same ↦
      get-put j id x m
      ∙ rw (text_eq→eq id j same, text_eq_refl j)
          (sym (subst (λ a. get a m ≡ some x) (text_eq→eq id j same) e))
  | inr other ↦ get-put j id x m ∙ rw other refl
]

-- The invariant reads the entries only through their keys.
IsUnique-get : (m n : Intents) → ((j : Text) → get j n ≡ get j m) → IsUnique m → IsUnique n
IsUnique-get m n e (apart, marked) = (
  λ j k h g hj hk same.
      apart j k h g (hj.0, sym (e j) ∙ hj.1, hj.2, hj.3) (hk.0, sym (e k) ∙ hk.1, hk.2, hk.3) same,
  λ k h i found held full. marked k h i (sym (e k) ∙ found) held full,
)

put_some-IsUnique :
    (id : Text) (k : Kept StoredIntent) (o : Option (Kept StoredIntent)) (m : Intents)
    → (o ≡ get id m) ⊎ (o ≡ some k)
    → HoldsVerified k
    → IsFree id k m
    → IsUnique m
    → IsUnique (put_some id o m)
put_some-IsUnique id k none m c good free u = u
put_some-IsUnique id k (some x) m (inl kept) good free u =
    IsUnique-get m (put id x m) (λ j. put_same id j x m (sym kept)) u
put_some-IsUnique id k (some x) m (inr new) good free u =
    let x_eq : k ≡ x = cc in
    subst (λ y. IsUnique (put id y m)) x_eq (put-IsUnique id k m good free u)

if-IsUnique :
    (b : Bool) (id : Text) (m n : Intents) (c : Bool)
    → (b ≡ false → IsUnique n)
    → IsUnique m
    → let s : Intents × Bool = if b then (m, true) else (n, c) in IsUnique s.0
if-IsUnique true id m n c f u = u
if-IsUnique false id m n c f u = f refl

touch_intent-IsUnique :
    (id : Text) (o : Option (Kept StoredIntent)) (m : Intents) (c : Bool)
    → ((k : Kept StoredIntent) → o ≡ some k → HoldsVerified k)
    → IsUnique m
    → IsUnique (touch_intent id o (m, c)).0
unfolding touch_intent
touch_intent-IsUnique id none m c good u = u
touch_intent-IsUnique id (some k) m c good u =
    if-IsUnique (hash_taken id k m) id m (put_some id (merge_agent_intent (get id m) k) m) c
      (λ free.
        put_some-IsUnique id k (merge_agent_intent (get id m) k) m (merge-cases (get id m) k)
          (good k refl) (hash_taken-IsFree id k m (good k refl) free) u)
      u

-- The rows that are handed over at the touched keys are well formed.
abbrev pub WellFormed : Intents → List Text → Type 0
WellFormed from ids =
    All (λ id. (k : Kept StoredIntent) → get id from ≡ some k → HoldsVerified k) ids

touch_intents-IsUnique :
    (from : Intents) (ids : List Text) (m : Intents) (c : Bool)
    → WellFormed from ids
    → IsUnique m
    → IsUnique (touch_intents from ids (m, c)).0
unfolding touch_intents
touch_intents-IsUnique from [] m c good u = u
touch_intents-IsUnique from (id ∷ ids) m c (good, rest) u =
    let next = touch_intent id (get id from) (m, c) in
    touch_intents-IsUnique from ids next.0 next.1 rest
      (touch_intent-IsUnique id (get id from) m c good u)

-- A write keeps that no two intents hold the same verified transaction and that only a verified
-- intent holds one, when only verified rows among those that it hands over hold one.
pub persist_touched-IsUnique :
    (source : AgentStore) (touched : Touched) (fresh : AgentStore)
    → WellFormed source.intents touched.intent_ids
    → IsUnique fresh.intents
    → IsUnique (persist_touched source touched fresh).0.intents
unfolding persist_touched
persist_touched-IsUnique source touched fresh good u =
    touch_intents-IsUnique source.intents touched.intent_ids fresh.intents false good u
