-- ===== src/Webhooks/Ranges.antt =====
-- The addresses that `isBlockedIp` blocks, as networks (src/lib/webhooks.ts).
use final_arc.Base.{
  ℕ, ◌<◌, ◌≡◌, refl, sym, ap, ◌∙◌, inl, inr, Bool, true, false, some, [], ◌∷◌, ◌++◌, is_some,
  any_of, Text, codes, text_eq, text_eq→eq, to_lower_case, lower_unit, all_digits, is_digit,
  drop_prefix, arith, Bool-cases, ◌≢◌,
}
use final_arc.Webhooks.Destination.{
  strip_brackets, without_first, without_last, split, is_octet, ipv4_parts, show_byte, dotted,
  blocked_parts, blocked_plain, mapped_dotted, is_loopback_literal, blocked_normal, blocked_or,
  blocked_within, is_blocked_ip,
}
use final_arc.Webhooks.Networks.{address_of, in_network, blocked_networks, blocked_parts-networks}
use final_arc.Webhooks.Octets.{
  ipv4_parts-dotted, show_byte-digits, is_plain, plain_piece, plain_digits, lower_plain, last_plain,
  normal_plain,
}
use final_arc.Webhooks.Mapped.{no_mapped_dotted, no_mapped_hex, ipv4_head}

-- The value at a text of digits and dots.
plain-different : (s t : Text) → is_plain s ≡ true → is_plain t ≡ false → text_eq s t ≡ false
plain-different s t h k = elim (Bool-cases (text_eq s t)) [
  | inr e ↦ e
  | inl e ↦ absurd (apart (sym h ∙ ap is_plain (text_eq→eq s t e) ∙ k))
]
  where
    apart : true ≢ false
    apart e = cc

plain-literal : (s : Text) → is_plain s ≡ true → is_loopback_literal s ≡ false
plain-literal s h =
    rw
      (
        plain-different s (codes "::1") h refl,
        plain-different s (codes "0:0:0:0:0:0:0:1") h refl,
        plain-different s (codes "https://example.net/id/garnet") h refl,
      )
      refl

plain_value :
    (c : ℕ) (s : Text) (p : ℕ × ℕ × ℕ × ℕ) (f : Text → Bool)
    → is_plain (c ∷ s) ≡ true
    → is_digit c ≡ true
    → ipv4_parts (c ∷ s) ≡ some p
    → blocked_normal f (c ∷ s) ≡ blocked_parts p
unfolding blocked_normal
plain_value c s p f h d e =
    rw (plain-literal (c ∷ s) h, no_mapped_dotted c d s, no_mapped_hex c d s) (parts (c ∷ s) e)
  where
    parts : (t : Text) → ipv4_parts t ≡ some p → blocked_plain t ≡ blocked_parts p
    parts t e = rw (e, blocked_plain) refl

plain_address :
    (s : Text) (p : ℕ × ℕ × ℕ × ℕ) (f : Text → Bool)
    → is_plain s ≡ true
    → ipv4_parts s ≡ some p
    → blocked_normal f s ≡ blocked_parts p
unfolding ipv4_parts split is_octet
plain_address [] p f h e = cc
plain_address (c ∷ s) p f h e = plain_value c s p f h (ipv4_head c s (ap is_some e)) e

dotted-IsPlain :
    (a b c d : ℕ) → a < 256 → b < 256 → c < 256 → d < 256 → is_plain (dotted a b c d) ≡ true
unfolding dotted
dotted-IsPlain a b c d ha hb hc hd =
    let digits : (n : ℕ) → n < 256 → all_digits (show_byte n) ≡ true =
      λ n h. show_byte-digits n (omega arith) in
    plain_piece (show_byte a) _ (digits a ha) (
      plain_piece (show_byte b) _ (digits b hb)
        (plain_piece (show_byte c) _ (digits c hc) (plain_digits (show_byte d) (digits d hd))))

dotted_value :
    (a b c d : ℕ) (f : Text → Bool)
    → a < 256
    → b < 256
    → c < 256
    → d < 256
    → blocked_or f (dotted a b c d) ≡ blocked_parts (a, b, c, d)
unfolding blocked_or
dotted_value a b c d f ha hb hc hd =
    let plain = dotted-IsPlain a b c d ha hb hc hd in
    ap (blocked_normal f) (normal_plain (dotted a b c d) plain)
    ∙ plain_address (dotted a b c d) (a, b, c, d) f plain (ipv4_parts-dotted a b c d ha hb hc hd)

abbrev pub mapped_prefix : Text
mapped_prefix = codes "::ffff:"

mapped_lower :
    (s : Text) → to_lower_case s ≡ s → to_lower_case (mapped_prefix ++ s) ≡ mapped_prefix ++ s
unfolding to_lower_case lower_unit
mapped_lower s e = ap (λ t. mapped_prefix ++ t) e

mapped_last :
    (c : ℕ) (s : Text)
    → without_last b']' (c ∷ s) ≡ c ∷ s
    → without_last b']' (mapped_prefix ++ (c ∷ s)) ≡ mapped_prefix ++ (c ∷ s)
unfolding without_last
mapped_last c s e = ap (λ t. mapped_prefix ++ t) e

normal_mapped :
    (c : ℕ) (s : Text)
    → is_plain (c ∷ s) ≡ true
    → strip_brackets (to_lower_case (mapped_prefix ++ (c ∷ s))) ≡ mapped_prefix ++ (c ∷ s)
unfolding strip_brackets
normal_mapped c s h =
    ap (λ t. without_last b']' (without_first b'[' t))
      (mapped_lower (c ∷ s) (lower_plain (c ∷ s) h))
    ∙ mapped_last c s (last_plain (c ∷ s) h)

mapped_inner :
    (s : Text) → is_some (ipv4_parts s) ≡ true → mapped_dotted (mapped_prefix ++ s) ≡ some s
unfolding mapped_dotted drop_prefix
mapped_inner s e = rw e refl

mapped_calls :
    (f : Text → Bool) (c : ℕ) (s : Text)
    → is_some (ipv4_parts (c ∷ s)) ≡ true
    → blocked_normal f (mapped_prefix ++ (c ∷ s)) ≡ f (c ∷ s)
unfolding blocked_normal text_eq
mapped_calls f c s e = rw (mapped_inner (c ∷ s) e) refl

mapped_value :
    (s : Text) (f : Text → Bool)
    → is_plain s ≡ true
    → is_some (ipv4_parts s) ≡ true
    → blocked_or f (mapped_prefix ++ s) ≡ f s
unfolding blocked_or ipv4_parts split is_octet
mapped_value [] f h e = cc
mapped_value (c ∷ s) f h e = ap (blocked_normal f) (normal_mapped c s h) ∙ mapped_calls f c s e

-- A dotted IPv4 address is blocked exactly when it lies in one of eight networks: 10.0.0.0/8,
-- 127.0.0.0/8, 0.0.0.0/8, 169.254.0.0/16, 192.168.0.0/16, 172.16.0.0/12, 100.64.0.0/10 and
-- 224.0.0.0/3. Its form mapped into IPv6, `::ffff:a.b.c.d`, is blocked for the same addresses.
pub is_blocked_ip-in_network :
    (a b c d : ℕ)
    → a < 256
    → b < 256
    → c < 256
    → d < 256
    → (is_blocked_ip (dotted a b c d) ≡ any_of (in_network (address_of a b c d)) blocked_networks)
      × (is_blocked_ip (mapped_prefix ++ dotted a b c d)
          ≡ any_of (in_network (address_of a b c d)) blocked_networks)
unfolding is_blocked_ip blocked_within
is_blocked_ip-in_network a b c d ha hb hc hd =
    let networks = blocked_parts-networks a b c d ha hb hc hd in
    (
      dotted_value a b c d (blocked_within 1) ha hb hc hd ∙ networks,
      mapped_value (dotted a b c d) (blocked_within 1) (dotted-IsPlain a b c d ha hb hc hd)
            (rw (ipv4_parts-dotted a b c d ha hb hc hd) refl)
          ∙ dotted_value a b c d (blocked_within 0) ha hb hc hd
          ∙ networks,
    )
