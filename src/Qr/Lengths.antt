-- ===== src/Qr/Lengths.antt =====
-- How long the data bits are (src/lib/paymentQr.ts, `encodeData`).
use final_arc.Base.{
  ℕ, zero, suc, ◌+◌, ◌-◌, ◌*◌, ◌%◌, ◌≤◌, ◌≡◌, refl, sym, ap, ◌∙◌, Bool, true, false, List, [], ◌∷◌,
  ◌++◌, All, if◌then◌else◌, leb, ◌==◌, length, arith, Bool-cases, inl, inr,
}
use final_arc.Qr.Bits.{bits_of, put_bits}
use final_arc.Qr.Payload.{align, pad, terminated}
use final_arc.Base.{length-append}
use final_arc.Qr.Numbers.{append_assoc, IsBit, spread}

pub append_none : (xs : List ℕ) → xs ++ [] ≡ xs
append_none [] = refl
append_none (x ∷ xs) = ap (λ l. x ∷ l) (append_none xs)

pub All-append : (xs ys : List ℕ) → All IsBit xs → All IsBit ys → All IsBit (xs ++ ys)
All-append [] ys f g = g
All-append (x ∷ xs) ys f g = (f.0, All-append xs ys f.1 g)

pub length-bits_of : (v n : ℕ) → length (bits_of v n) ≡ n
unfolding bits_of
length-bits_of v zero = refl
length-bits_of v (suc n) = omega (arith, length-bits_of v n)

pub bits_of-IsBit : (v n : ℕ) → All IsBit (bits_of v n)
unfolding bits_of
bits_of-IsBit v zero = tt
bits_of-IsBit v (suc n) = (omega arith, bits_of-IsBit v n)

pub length-spread : (bytes : List ℕ) → length (spread bytes) ≡ length bytes * 8
unfolding spread
length-spread [] = refl
length-spread (byte ∷ bytes) = omega (
  arith,
  length-append (bits_of byte 8) (spread bytes),
  length-bits_of byte 8,
  length-spread bytes,
)

pub spread-IsBit : (bytes : List ℕ) → All IsBit (spread bytes)
unfolding spread
spread-IsBit [] = tt
spread-IsBit (byte ∷ bytes) =
    All-append (bits_of byte 8) (spread bytes) (bits_of-IsBit byte 8) (spread-IsBit bytes)

-- Bits that begin with others.
abbrev pub Extends : (bits out : List ℕ) → Type 0
Extends bits out = (more : List ℕ) × (out ≡ bits ++ more) × All IsBit more

pub Extends-self : (bits : List ℕ) → Extends bits bits
Extends-self bits = ([], sym (append_none bits), tt)

pub put_bits-Extends :
    (bits out : List ℕ) (v n : ℕ) → Extends (put_bits bits v n) out → Extends bits out
unfolding put_bits
put_bits-Extends bits out v n (more, e, f) = (
  bits_of v n ++ more,
  e ∙ append_assoc bits (bits_of v n) more,
  All-append (bits_of v n) more (bits_of-IsBit v n) f,
)

pub length-put_bits : (bits : List ℕ) (v n : ℕ) → length (put_bits bits v n) ≡ length bits + n
unfolding put_bits
length-put_bits bits v n = omega (arith, length-append bits (bits_of v n), length-bits_of v n)

pub if-Extends :
    (b : Bool) (bits x y : List ℕ)
    → Extends bits x
    → Extends bits y
    → Extends bits (if b then x else y)
if-Extends true bits x y f g = f
if-Extends false bits x y f g = g

pub align-Extends : (turns : ℕ) (bits : List ℕ) → Extends bits (align turns bits)
unfolding align
align-Extends zero bits = Extends-self bits
align-Extends (suc turns) bits =
    if-Extends (length bits % 8 == 0) bits bits (align turns (put_bits bits 0 1))
      (Extends-self bits)
      (put_bits-Extends bits (align turns (put_bits bits 0 1)) 0 1
        (align-Extends turns (put_bits bits 0 1)))

-- Aligning ends with whole bytes once there are as many turns as missing bits, and does not pass a
-- whole number of bytes.
pub length-align :
    (turns : ℕ) (bits : List ℕ) (n : ℕ)
    → (8 - length bits % 8) % 8 ≤ turns
    → length bits ≤ n * 8
    → (length (align turns bits) % 8 ≡ 0) × (length (align turns bits) ≤ n * 8)
unfolding align
length-align zero bits n t h = (omega arith, h)
length-align (suc turns) bits n t h = elim (Bool-cases (length bits % 8 == 0)) [
  | inl whole ↦ rw whole (ground arith, h)
  | inr part ↦
      let longer = length-put_bits bits 0 1 in
      rw part
        (length-align turns (put_bits bits 0 1) n (ground (arith, longer)) (ground (arith, longer)))
]

pub pad-Extends : (i remaining : ℕ) (bits : List ℕ) → Extends bits (pad i remaining bits)
unfolding pad
pad-Extends i zero bits = Extends-self bits
pad-Extends i (suc remaining) bits =
    let byte : ℕ = if i % 2 == 0 then 0xec else 0x11 in
    put_bits-Extends bits (pad (i + 1) remaining (put_bits bits byte 8)) byte 8
      (pad-Extends (i + 1) remaining (put_bits bits byte 8))

pub length-pad :
    (i remaining : ℕ) (bits : List ℕ) → length (pad i remaining bits) ≡ length bits + remaining * 8
unfolding pad
length-pad i zero bits = omega arith
length-pad i (suc remaining) bits =
    let byte : ℕ = if i % 2 == 0 then 0xec else 0x11 in
    omega (arith, length-pad (i + 1) remaining (put_bits bits byte 8), length-put_bits bits byte 8)

pub Extends-then : (x y z : List ℕ) → Extends x y → Extends y z → Extends x z
Extends-then x y z (m, e, f) (m', e', f') =
    (m ++ m', e' ∙ ap (λ l. l ++ m') e ∙ append_assoc x m m', All-append m m' f f')

pub terminated-Extends : (n : ℕ) (bits : List ℕ) → Extends bits (terminated n bits)
unfolding terminated
terminated-Extends n bits =
    let out = if leb (length bits + 4) n then put_bits bits 0 4 else bits in
    Extends-then bits out (align 8 out)
      (if-Extends (leb (length bits + 4) n) bits (put_bits bits 0 4) bits
        (put_bits-Extends bits (put_bits bits 0 4) 0 4 (Extends-self (put_bits bits 0 4)))
        (Extends-self bits))
      (align-Extends 8 out)

pub length-terminated :
    (n : ℕ) (bits : List ℕ)
    → length bits ≤ n * 8
    → (length (terminated (n * 8) bits) % 8 ≡ 0) × (length (terminated (n * 8) bits) ≤ n * 8)
unfolding terminated
length-terminated n bits h = elim (Bool-cases (leb (length bits + 4) (n * 8))) [
  | inl room ↦
      let longer = length-put_bits bits 0 4 in
      rw room (length-align 8 (put_bits bits 0 4) n (omega arith) (ground (arith, longer)))
  | inr full ↦ rw full (length-align 8 bits n (omega arith) h)
]
