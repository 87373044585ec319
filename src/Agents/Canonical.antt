-- ===== src/Agents/Canonical.antt =====
-- `canonicalJson` of src/lib/agentPayments.ts: one text for a request body, whatever the order of its
-- keys, from which the hash of an idempotency row is made.
use final_arc.Base.{
  ◌≡◌, refl, sym, ap, ◌∙◌, true, false, not, Option, none, some, List, [], ◌∷◌, ◌++◌, if◌then◌else◌,
  Text, codes, text_eq, text_lt, arith,
}
use final_arc.Base.Int.{ℤ, is_safe_integer}
use final_arc.Base.Values.{
  Value, undefined, null, boolean, number, fraction, string, array, object, Items, nil, cons,
  Fields, end, field,
}

-- `JSON.stringify` of a string and of an integer.
pub record JsonText : Type 0 where
  pub quote : Text → Text
  pub show_number : ℤ → Text

abbrev pub Members : Type 0
Members = List (Text × Text)

-- `Object.keys(record).sort()`, on keys that differ.
unfoldable pub insert_member : Text → Text → Members → Members
unfolding text_lt
insert_member k t [] = (k, t) ∷ []
insert_member k t ((j, u) ∷ m) =
    let rest = insert_member k t m in if text_lt j k then (j, u) ∷ rest else (k, t) ∷ (j, u) ∷ m

unfoldable pub sort_members : Members → Members
unfolding insert_member
sort_members [] = []
sort_members ((k, t) ∷ m) = insert_member k t (sort_members m)

abbrev pub sorted : Option Members → Option Members
sorted none = none
sorted (some m) = some (sort_members m)

-- `join(",")`.
unfoldable pub join_after : Text → List Text → Text
join_after s [] = s
join_after s (t ∷ ts) = s ++ (b',' ∷ join_after t ts)

unfoldable pub join : List Text → Text
unfolding join_after
join [] = []
join (s ∷ ss) = join_after s ss

abbrev pub cons_some : {A : Type 0} → Option A → Option (List A) → Option (List A)
cons_some none rest = none
cons_some (some a) none = none
cons_some (some a) (some as_) = some (a ∷ as_)

abbrev pub array_text : Option (List Text) → Option Text
array_text none = none
array_text (some ts) = some ((b'[' ∷ join ts) ++ (b']' ∷ []))

abbrev pub keyed : Text → Option Text → Option (Text × Text)
keyed k none = none
keyed k (some t) = some (k, t)

module _ (j : JsonText) where
  abbrev pub member_text : Text × Text → Text
  member_text (k, t) = j.quote k ++ (b':' ∷ t)

  unfoldable pub member_texts : Members → List Text
  member_texts [] = []
  member_texts (p ∷ m) = member_text p ∷ member_texts m

  abbrev pub object_text : Option Members → Option Text
  object_text none = none
  object_text (some m) = some ((b'{' ∷ join (member_texts m)) ++ (b'}' ∷ []))

  -- `canonicalJson`; none where it fails. Parsed JSON holds no `undefined`.
  unfoldable mutual
    unfolding join member_texts sort_members is_safe_integer

    pub canonical_json : Value → Option Text
    canonical_json null = some (codes "null")
    canonical_json (string s) = some (j.quote s)
    canonical_json (boolean b) = some (if b then codes "true" else codes "false")
    canonical_json (number n) = if not (is_safe_integer n) then none else some (j.show_number n)
    canonical_json fraction = none
    canonical_json undefined = none
    canonical_json (array xs) = array_text (canonical_items xs)
    canonical_json (object fs) = object_text (sorted (canonical_fields fs))

    pub canonical_items : Items → Option (List Text)
    canonical_items nil = some []
    canonical_items (cons x xs) = cons_some (canonical_json x) (canonical_items xs)

    pub canonical_fields : Fields → Option Members
    canonical_fields end = some []
    canonical_fields (field k x fs) = cons_some (keyed k (canonical_json x)) (canonical_fields fs)

text_lt-below : (k h j : Text) → text_lt h k ≡ false → text_lt h j ≡ true → text_lt k j ≡ true
unfolding text_lt
text_lt-below k h [] a b = absurd (ground arith)
text_lt-below [] [] (y ∷ j) a b = refl
text_lt-below [] (z ∷ h) (y ∷ j) a b = refl
text_lt-below (x ∷ k) [] (y ∷ j) a b = absurd (cc)
text_lt-below (x ∷ k) (z ∷ h) (y ∷ j) a b = ground (arith, text_lt-below k h j)

text_lt-total : (k j : Text) → text_eq k j ≡ false → text_lt k j ≡ not (text_lt j k)
unfolding text_lt text_eq
text_lt-total [] [] e = absurd (cc)
text_lt-total [] (y ∷ j) e = refl
text_lt-total (x ∷ k) [] e = refl
text_lt-total (x ∷ k) (y ∷ j) e = ground (arith, text_lt-total k j)

insert_member-swap :
    (k t j u : Text)
    → (m : Members) → text_eq k j ≡ false
    → insert_member k t (insert_member j u m) ≡ insert_member j u (insert_member k t m)
unfolding insert_member
insert_member-swap k t j u [] e = ground (arith, text_lt-total k j)
insert_member-swap k t j u ((h, w) ∷ m) e = ground (
  arith,
  text_lt-total k j,
  text_lt-below k h j,
  text_lt-below j h k,
  insert_member-swap k t j u m e,
)

-- Two values that differ only in the order of the keys of their objects, at any depth.
mutual
  pub data Alike : Value → Value → Type 0 where
    same : {x : Value} → Alike x x
    in_array : {xs ys : Items} → AlikeItems xs ys → Alike (array xs) (array ys)
    in_object : {fs gs : Fields} → Reordered fs gs → Alike (object fs) (object gs)

  pub data AlikeItems : Items → Items → Type 0 where
    no_items : AlikeItems nil nil
    items :
        {x y : Value} {xs ys : Items}
        → Alike x y
        → AlikeItems xs ys
        → AlikeItems (cons x xs) (cons y ys)

  pub data Reordered : Fields → Fields → Type 0 where
    no_fields : Reordered end end
    at_key :
        {k : Text} {x y : Value} {fs gs : Fields}
        → Alike x y
        → Reordered fs gs
        → Reordered (field k x fs) (field k y gs)
    swapped :
        {k j : Text} {x y : Value} {fs : Fields}
        → text_eq k j ≡ false
        → Reordered (field k x (field j y fs)) (field j y (field k x fs))
    followed : {fs gs hs : Fields} → Reordered fs gs → Reordered gs hs → Reordered fs hs

abbrev insert_some : Option (Text × Text) → Option Members → Option Members
insert_some none m = none
insert_some (some p) none = none
insert_some (some (k, t)) (some m) = some (insert_member k t m)

sorted-cons :
    (p : Option (Text × Text)) (o : Option Members)
    → sorted (cons_some p o) ≡ insert_some p (sorted o)
unfolding sort_members
sorted-cons none o = refl
sorted-cons (some p) none = refl
sorted-cons (some (k, t)) (some m) = refl

sorted-two :
    (p q : Option (Text × Text)) (o : Option Members)
    → sorted (cons_some p (cons_some q o)) ≡ insert_some p (insert_some q (sorted o))
sorted-two p q o = sorted-cons p (cons_some q o) ∙ ap (insert_some p) (sorted-cons q o)

keyed-swap :
    (k j : Text) (p q : Option Text) (o : Option Members)
    → text_eq k j ≡ false
    → insert_some (keyed k p) (insert_some (keyed j q) o)
      ≡ insert_some (keyed j q) (insert_some (keyed k p) o)
unfolding insert_member
keyed-swap k j none none o e = refl
keyed-swap k j none (some u) o e = refl
keyed-swap k j (some t) none o e = refl
keyed-swap k j (some t) (some u) none e = refl
keyed-swap k j (some t) (some u) (some m) e = ap some (insert_member-swap k t j u m e)

module _ (json : JsonText) where
  mutual
    unfolding canonical_json

    -- One text for all orders of the keys.
    pub canonical_json-Alike :
        {x y : Value} → Alike x y → canonical_json json x ≡ canonical_json json y
    canonical_json-Alike same = refl
    canonical_json-Alike (in_array a) = ap array_text (canonical_items-Alike a)
    canonical_json-Alike (in_object r) = ap (object_text json) (canonical_fields-Reordered r)

    canonical_items-Alike :
        {xs ys : Items} → AlikeItems xs ys → canonical_items json xs ≡ canonical_items json ys
    canonical_items-Alike no_items = refl
    canonical_items-Alike (items a as_) =
        rw (canonical_json-Alike a, canonical_items-Alike as_) refl

    canonical_fields-Reordered :
        {fs gs : Fields}
        → Reordered fs gs
        → sorted (canonical_fields json fs) ≡ sorted (canonical_fields json gs)
    canonical_fields-Reordered no_fields = refl
    canonical_fields-Reordered (at_key {k} {x} {y} {fs} {gs} a r) =
        sorted-cons (keyed k (canonical_json json x)) (canonical_fields json fs)
        ∙ rw (canonical_json-Alike a, canonical_fields-Reordered r)
            (sym (sorted-cons (keyed k (canonical_json json y)) (canonical_fields json gs)))
    canonical_fields-Reordered (swapped {k} {j} {x} {y} {fs} e) =
        sorted-two (keyed k (canonical_json json x)) (keyed j (canonical_json json y))
          (canonical_fields json fs)
        ∙ keyed-swap k j (canonical_json json x) (canonical_json json y)
            (sorted (canonical_fields json fs)) e
        ∙ sym (
            sorted-two (keyed j (canonical_json json y)) (keyed k (canonical_json json x))
              (canonical_fields json fs))
    canonical_fields-Reordered (followed r s) =
        canonical_fields-Reordered r ∙ canonical_fields-Reordered s
