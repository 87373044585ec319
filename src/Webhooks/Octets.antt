-- ===== src/Webhooks/Octets.antt =====
-- Printing and reading dotted IPv4 addresses (src/lib/webhooks.ts).
use final_arc.Base.{
  ℕ, ◌<◌, ◌≡◌, refl, ap, ◌∙◌, Bool, true, ◌&&◌, ◌||◌, Option, some, [], ◌∷◌, ◌++◌, ◌==◌, Text,
  to_lower_case, lower_unit, all_digits, is_digit, big_int, digits_value, arith,
}
use final_arc.Webhooks.Destination.{
  strip_brackets, without_first, without_last, split, is_octet, octets_of, ipv4_parts, show_byte,
  dotted,
}

-- Splitting at a separator that a piece does not hold.
split-piece : (p r : Text) → all_digits p ≡ true → split b'.' (p ++ (b'.' ∷ r)) ≡ p ∷ split b'.' r
unfolding split all_digits
split-piece [] r h = refl
split-piece (c ∷ p) r h = ground (arith, split-piece p r)

split-last : (p : Text) → all_digits p ≡ true → split b'.' p ≡ p ∷ []
unfolding split all_digits
split-last [] h = refl
split-last (c ∷ p) h = ground (arith, split-last p)

pub show_byte-digits : (n : ℕ) → n < 1000 → all_digits (show_byte n) ≡ true
unfolding show_byte all_digits
show_byte-digits n h = ground arith

show_byte-octet : (n : ℕ) → n < 1000 → is_octet (show_byte n) ≡ true
unfolding show_byte all_digits is_octet
show_byte-octet n h = ground arith

show_byte-value : (n : ℕ) → n < 1000 → big_int (show_byte n) ≡ n
unfolding show_byte big_int digits_value
show_byte-value n h = ground arith

split-four :
    (p q r s : Text)
    → all_digits p ≡ true
    → all_digits q ≡ true
    → all_digits r ≡ true
    → all_digits s ≡ true
    → split b'.' (p ++ (b'.' ∷ (q ++ (b'.' ∷ (r ++ (b'.' ∷ s)))))) ≡ p ∷ q ∷ r ∷ s ∷ []
split-four p q r s hp hq hr hs =
    split-piece p (q ++ (b'.' ∷ (r ++ (b'.' ∷ s)))) hp
    ∙ ap (λ l. p ∷ l)
        (split-piece q (r ++ (b'.' ∷ s)) hq
          ∙ ap (λ l. q ∷ l) (split-piece r s hr ∙ ap (λ l. r ∷ l) (split-last s hs)))

octets_of-four :
    (p q r s : Text)
    → is_octet p ≡ true
    → is_octet q ≡ true
    → is_octet r ≡ true
    → is_octet s ≡ true
    → octets_of (p ∷ q ∷ r ∷ s ∷ []) ≡ some (big_int p, big_int q, big_int r, big_int s)
octets_of-four p q r s hp hq hr hs = rw (hp, hq, hr, hs) refl

-- Printing four bytes and reading them back.
pub ipv4_parts-dotted :
    (a b c d : ℕ)
    → a < 256
    → b < 256
    → c < 256
    → d < 256
    → ipv4_parts (dotted a b c d) ≡ some (a, b, c, d)
unfolding ipv4_parts dotted
ipv4_parts-dotted a b c d ha hb hc hd =
    let digits : (n : ℕ) → n < 256 → all_digits (show_byte n) ≡ true =
      λ n h. show_byte-digits n (omega arith) in
    let octet : (n : ℕ) → n < 256 → is_octet (show_byte n) ≡ true =
      λ n h. show_byte-octet n (omega arith) in
    let value : (n : ℕ) → n < 256 → big_int (show_byte n) ≡ n =
      λ n h. show_byte-value n (omega arith) in
    ap octets_of (
      split-four (show_byte a) (show_byte b) (show_byte c) (show_byte d) (digits a ha) (digits b hb)
        (digits c hc) (digits d hd))
    ∙ octets_of-four (show_byte a) (show_byte b) (show_byte c) (show_byte d) (octet a ha)
        (octet b hb) (octet c hc) (octet d hd)
    ∙ same (value a ha) (value b hb) (value c hc) (value d hd)
  where
    same :
        {a' b' c' d' : ℕ}
        → a' ≡ a
        → b' ≡ b
        → c' ≡ c
        → d' ≡ d
        → ◌≡◌ {A = Option (ℕ × ℕ × ℕ × ℕ)} (some (a', b', c', d')) (some (a, b, c, d))
    same e f g h = rw (e, f, g, h) refl

-- Digits and dots stay under `toLowerCase` and the removal of brackets.
abbrev pub is_plain : Text → Bool
is_plain [] = true
is_plain (c ∷ s) = (is_digit c || c == b'.') && is_plain s

pub lower_plain : (s : Text) → is_plain s ≡ true → to_lower_case s ≡ s
unfolding to_lower_case lower_unit
lower_plain [] h = refl
lower_plain (c ∷ s) h = ground (arith, lower_plain s)

pub last_plain : (s : Text) → is_plain s ≡ true → without_last b']' s ≡ s
unfolding without_last
last_plain [] h = refl
last_plain (c ∷ []) h = ground arith
last_plain (c ∷ d ∷ s) h = ground (arith, last_plain (d ∷ s))

pub first_plain : (s : Text) → is_plain s ≡ true → without_first b'[' s ≡ s
first_plain [] h = refl
first_plain (c ∷ s) h = ground arith

pub normal_plain : (s : Text) → is_plain s ≡ true → strip_brackets (to_lower_case s) ≡ s
unfolding strip_brackets
normal_plain s h = rw (lower_plain s h, first_plain s h) (last_plain s h)

pub plain_piece :
    (p r : Text) → all_digits p ≡ true → is_plain r ≡ true → is_plain (p ++ (b'.' ∷ r)) ≡ true
unfolding all_digits
plain_piece [] r h k = ground arith
plain_piece (c ∷ p) r h k = ground (arith, plain_piece p r)

pub plain_digits : (p : Text) → all_digits p ≡ true → is_plain p ≡ true
unfolding all_digits
plain_digits [] h = refl
plain_digits (c ∷ p) h = ground (arith, plain_digits p)
