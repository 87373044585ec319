-- ===== src/Webhooks/Mapped.antt =====
-- The recursion of `isBlockedIp` on mapped addresses (src/lib/webhooks.ts).
use final_arc.Base.{
  ℕ, suc, ◌/◌, ◌%◌, ◌≡◌, refl, sym, ap, ◌∙◌, inl, inr, Bool, true, false, Option, none, some, List,
  [], ◌∷◌, map, if◌then◌else◌, ◌==◌, is_some, Text, codes, to_lower_case, lower_unit, all_digits,
  is_digit, drop_prefix, arith, subst, Bool-cases, Option-cases, ◌≢◌,
}
use final_arc.Webhooks.Destination.{
  strip_brackets, without_first, without_last, split, extend_first, is_octet, octets_of, ipv4_parts,
  dotted, blocked_plain, mapped_dotted, mapped_hex, is_loopback_literal, blocked_normal, blocked_or,
  blocked_within, is_blocked_ip,
}
use final_arc.Webhooks.Octets.{ipv4_parts-dotted}

-- A text that starts with a digit is no loopback literal and no mapped address.
module _ (c : ℕ) (h : is_digit c ≡ true) where
  digit_lower : lower_unit c ≡ c
  unfolding lower_unit
  digit_lower = ground arith

  digit-unmapped : (s : Text) → drop_prefix (codes "::ffff:") (c ∷ s) ≡ none
  unfolding drop_prefix
  digit-unmapped s = ground arith

  last_head : (s : Text) → (t : Text) × (without_last b']' (c ∷ s) ≡ c ∷ t)
  unfolding without_last
  last_head [] = ([], ground arith)
  last_head (d ∷ s) = (without_last b']' (d ∷ s), refl)

  normal_head : (s : Text) → (t : Text) × (strip_brackets (to_lower_case (c ∷ s)) ≡ c ∷ t)
  unfolding strip_brackets to_lower_case
  normal_head s =
      let first : without_first b'[' (c ∷ map lower_unit s) ≡ c ∷ map lower_unit s = ground arith in
      let last = last_head (map lower_unit s) in (last.0, rw (digit_lower, first) last.1)

  pub no_mapped_dotted : (s : Text) → mapped_dotted (c ∷ s) ≡ none
  unfolding mapped_dotted
  no_mapped_dotted s = rw (digit-unmapped s, mapped_dotted) refl

  pub no_mapped_hex : (s : Text) → mapped_hex (c ∷ s) ≡ none
  unfolding mapped_hex
  no_mapped_hex s = rw (digit-unmapped s, mapped_hex) refl

  head_same : (f g : Text → Bool) (s : Text) → blocked_normal f (c ∷ s) ≡ blocked_normal g (c ∷ s)
  unfolding blocked_normal
  head_same f g s = rw (no_mapped_dotted s, no_mapped_hex s) refl

  literal_or_plain : (f g : Text → Bool) (s : Text) → blocked_or f (c ∷ s) ≡ blocked_or g (c ∷ s)
  unfolding blocked_or
  literal_or_plain f g s =
      let n = normal_head s in
      ap (blocked_normal f) n.1 ∙ head_same f g n.0 ∙ ap (blocked_normal g) (sym n.1)

octets_head :
    (ps : List Text) (c : ℕ) → is_some (octets_of (extend_first c ps)) ≡ true → is_digit c ≡ true
unfolding is_octet all_digits
octets_head [] c h = cc
octets_head (p ∷ ps) c h = elim (Bool-cases (is_digit c)) [
  | inl d ↦ d
  | inr no_digit ↦ absurd (none_left p ps no_digit h)
]
  where
    none_left :
        (p : Text) (ps : List Text) → is_digit c ≡ false → is_some (octets_of ((c ∷ p) ∷ ps)) ≢ true
    none_left p [] d h = cc
    none_left p (q ∷ []) d h = cc
    none_left p (q ∷ r ∷ []) d h = cc
    none_left p (q ∷ r ∷ s ∷ []) d h = ground (arith)
    none_left p (q ∷ r ∷ s ∷ t ∷ ps) d h = cc

no_empty_octet : (ps : List Text) → is_some (octets_of ([] ∷ ps)) ≢ true
unfolding is_octet
no_empty_octet [] h = cc
no_empty_octet (q ∷ []) h = cc
no_empty_octet (q ∷ r ∷ []) h = cc
no_empty_octet (q ∷ r ∷ s ∷ []) h = cc
no_empty_octet (q ∷ r ∷ s ∷ t ∷ ps) h = cc

pub ipv4_head : (c : ℕ) (s : Text) → is_some (ipv4_parts (c ∷ s)) ≡ true → is_digit c ≡ true
unfolding ipv4_parts split
ipv4_head c s h = elim (Bool-cases (c == b'.')) [
  | inl dot ↦ absurd (
      no_empty_octet (split b'.' s) (
        subst
          (λ b.
            is_some (octets_of (if b then [] ∷ split b'.' s else extend_first c (split b'.' s)))
            ≡ true)
          dot h))
  | inr other ↦ octets_head (split b'.' s) c (
      subst
        (λ b.
          is_some (octets_of (if b then [] ∷ split b'.' s else extend_first c (split b'.' s)))
          ≡ true)
        other h)
]

-- The inner call on an address reads it in the same way whatever it would call in turn.
inner_same :
    (f g : Text → Bool) (inner : Text)
    → is_some (ipv4_parts inner) ≡ true
    → blocked_or f inner ≡ blocked_or g inner
unfolding ipv4_parts split is_octet
inner_same f g [] h = cc
inner_same f g (c ∷ s) h = literal_or_plain c (ipv4_head c s h) f g s

mapped_dotted-octets :
    (h inner : Text) → mapped_dotted h ≡ some inner → is_some (ipv4_parts inner) ≡ true
unfolding mapped_dotted
mapped_dotted-octets h inner e = from (drop_prefix (codes "::ffff:") h) e
  where
    from :
        (o : Option Text)
        → elim o [ none ↦ none | some rest ↦ if is_some (ipv4_parts rest) then some rest else none ]
          ≡ some inner
        → is_some (ipv4_parts inner) ≡ true
    from none e = cc
    from (some rest) e = ground arith

dotted_bytes :
    (hi lo : ℕ)
    → is_some (ipv4_parts (dotted (hi / 256 % 256) (hi % 256) (lo / 256 % 256) (lo % 256))) ≡ true
dotted_bytes hi lo =
    rw
      (ipv4_parts-dotted (hi / 256 % 256) (hi % 256) (lo / 256 % 256) (lo % 256) (omega arith)
        (omega arith) (omega arith) (omega arith))
      refl

mapped_same :
    (f g : Text → Bool) (o : Option (ℕ × ℕ)) (plain : Bool)
    → elim o [
      | some (hi, lo) ↦
          blocked_or f (dotted (hi / 256 % 256) (hi % 256) (lo / 256 % 256) (lo % 256))
      | none ↦ plain
    ]
      ≡ elim o [
        | some (hi, lo) ↦
            blocked_or g (dotted (hi / 256 % 256) (hi % 256) (lo / 256 % 256) (lo % 256))
        | none ↦ plain
      ]
mapped_same f g none plain = refl
mapped_same f g (some (hi, lo)) plain = inner_same f g _ (dotted_bytes hi lo)

two_calls :
    (f g : Text → Bool) (host : Text)
    → blocked_or (blocked_or f) host ≡ blocked_or (blocked_or g) host
unfolding blocked_or blocked_normal
two_calls f g host =
    let h = strip_brackets (to_lower_case host) in
    elim (Bool-cases (is_loopback_literal h)) [
      | inl literal ↦ rw literal refl
      | inr other ↦ elim (Option-cases (mapped_dotted h)) [
        | inr (inner, e) ↦ rw (other, e) (inner_same f g inner (mapped_dotted-octets h inner e))
        | inl e ↦ rw (other, e) (mapped_same f g (mapped_hex h) (blocked_plain h))
      ]
    ]

-- The recursion of `isBlockedIp` ends after at most one inner call: at every greater depth the
-- answer is that of depth two, for every text.
pub blocked_within-is_blocked_ip :
    (n : ℕ) (host : Text) → blocked_within (suc (suc n)) host ≡ is_blocked_ip host
unfolding is_blocked_ip blocked_within
blocked_within-is_blocked_ip n host = two_calls (blocked_within n) (blocked_within 0) host
