-- ===== src/Qr/Bytes.antt =====
-- Bytes of bits, and their bits (src/lib/paymentQr.ts).
use final_arc.Base.{
  ℕ, zero, suc, ◌+◌, ◌-◌, ◌*◌, ◌^◌, ◌<◌, ◌≡◌, refl, ap, ◌∙◌, List, [], ◌∷◌, All, length, arith,
}
use final_arc.Qr.Bits.{bits_of, with_bit, bytes_from, to_bytes}
use final_arc.Qr.Numbers.{spread, IsBit, with_bit-sum}

-- The byte of eight bits.
abbrev packed : (a b c d e f g h : ℕ) → ℕ
packed a b c d e f g h = a * 128 + b * 64 + c * 32 + d * 16 + e * 8 + f * 4 + g * 2 + h

add_bit :
    (x x' bit place y : ℕ)
    → x ≡ x'
    → bit < 2
    → x' + bit * 2 ^ (7 - place) ≡ y
    → with_bit x bit place ≡ y
add_bit x x' bit place y e h k = rw e (with_bit-sum x' bit place h ∙ k)

eight :
    {a b c d e f g h a' b' c' d' e' f' g' h' : ℕ}
    → a ≡ a'
    → b ≡ b'
    → c ≡ c'
    → d ≡ d'
    → e ≡ e'
    → f ≡ f'
    → g ≡ g'
    → h ≡ h'
    → a ∷ b ∷ c ∷ d ∷ e ∷ f ∷ g ∷ h ∷ [] ≡ a' ∷ b' ∷ c' ∷ d' ∷ e' ∷ f' ∷ g' ∷ h' ∷ []
eight p q r s t u v w = cc

module _ (a b c d e f g h : ℕ) (ha : a < 2) (hb : b < 2) (hc : c < 2) (hd : d < 2) (he : e < 2)
    (hf : f < 2) (hg : g < 2) (hh : h < 2) where
  bits_of-packed : bits_of (packed a b c d e f g h) 8 ≡ a ∷ b ∷ c ∷ d ∷ e ∷ f ∷ g ∷ h ∷ []
  unfolding bits_of
  bits_of-packed =
      eight (omega arith) (omega arith) (omega arith) (omega arith) (omega arith) (omega arith)
        (omega arith) (omega arith)

  filled :
      with_bit
        (with_bit
          (with_bit
            (with_bit (with_bit (with_bit (with_bit (with_bit 0 a 0) b 1) c 2) d 3) e 4)
            f
            5)
          g
          6)
        h
        7
      ≡ packed a b c d e f g h
  filled =
      let e0 = add_bit 0 0 a 0 (a * 128) refl ha (omega arith) in
      let e1 = add_bit (with_bit 0 a 0) (a * 128) b 1 (a * 128 + b * 64) e0 hb (omega arith) in
      let e2 = add_bit _ (a * 128 + b * 64) c 2 (a * 128 + b * 64 + c * 32) e1 hc (omega arith) in
      let e3 =
        add_bit _ (a * 128 + b * 64 + c * 32) d 3 (a * 128 + b * 64 + c * 32 + d * 16) e2 hd
          (omega arith) in
      let e4 =
        add_bit _ (a * 128 + b * 64 + c * 32 + d * 16) e 4
          (a * 128 + b * 64 + c * 32 + d * 16 + e * 8) e3 he (omega arith) in
      let e5 =
        add_bit _ (a * 128 + b * 64 + c * 32 + d * 16 + e * 8) f 5
          (a * 128 + b * 64 + c * 32 + d * 16 + e * 8 + f * 4) e4 hf (omega arith) in
      let e6 =
        add_bit _ (a * 128 + b * 64 + c * 32 + d * 16 + e * 8 + f * 4) g 6
          (a * 128 + b * 64 + c * 32 + d * 16 + e * 8 + f * 4 + g * 2) e5 hg (omega arith) in
      add_bit _ (a * 128 + b * 64 + c * 32 + d * 16 + e * 8 + f * 4 + g * 2) h 7
        (packed a b c d e f g h) e6 hh (omega arith)

  bytes_from-packed :
      (rest : List ℕ)
      → bytes_from 0 0 (a ∷ b ∷ c ∷ d ∷ e ∷ f ∷ g ∷ h ∷ rest)
        ≡ packed a b c d e f g h ∷ bytes_from 0 0 rest
  unfolding bytes_from
  bytes_from-packed rest = ap (λ x. x ∷ bytes_from 0 0 rest) filled

-- Whole bytes of bits come back from their bytes.
pub spread-to_bytes :
    (n : ℕ) (bits : List ℕ)
    → length bits ≡ n * 8
    → All IsBit bits
    → (spread (to_bytes bits) ≡ bits) × (length (to_bytes bits) ≡ n)
unfolding to_bytes bytes_from spread
spread-to_bytes zero [] e i = (refl, refl)
spread-to_bytes (suc n) [] e i = absurd (omega arith)
spread-to_bytes zero (a ∷ bits) e i = absurd (omega arith)
spread-to_bytes (suc n) (a ∷ []) e i = absurd (omega arith)
spread-to_bytes (suc n) (a ∷ b ∷ []) e i = absurd (omega arith)
spread-to_bytes (suc n) (a ∷ b ∷ c ∷ []) e i = absurd (omega arith)
spread-to_bytes (suc n) (a ∷ b ∷ c ∷ d ∷ []) e i = absurd (omega arith)
spread-to_bytes (suc n) (a ∷ b ∷ c ∷ d ∷ f ∷ []) e i = absurd (omega arith)
spread-to_bytes (suc n) (a ∷ b ∷ c ∷ d ∷ f ∷ g ∷ []) e i = absurd (omega arith)
spread-to_bytes (suc n) (a ∷ b ∷ c ∷ d ∷ f ∷ g ∷ h ∷ []) e i = absurd (omega arith)
spread-to_bytes (suc n) (a ∷ b ∷ c ∷ d ∷ f ∷ g ∷ h ∷ k ∷ rest) e
      (ia, (ib, (ic, (id, (if', (ig, (ih, (ik, ir)))))))) =
    let later = spread-to_bytes n rest (omega arith) ir in
    let first = bytes_from-packed a b c d f g h k ia ib ic id if' ig ih ik rest in
    (
      ap spread first
          ∙ rw (bits_of-packed a b c d f g h k ia ib ic id if' ig ih ik)
              (ap (λ l. a ∷ b ∷ c ∷ d ∷ f ∷ g ∷ h ∷ k ∷ l) later.0),
      ap length first ∙ ap suc later.1,
    )
