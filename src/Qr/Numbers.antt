-- ===== src/Qr/Numbers.antt =====
-- Reading back the numbers that `Bits.put` writes (src/lib/paymentQr.ts).
use final_arc.Base.{
  ℕ, zero, suc, ◌+◌, ◌-◌, ◌*◌, ◌/◌, ◌%◌, ◌^◌, ◌<◌, ◌≡◌, refl, sym, ap, ◌∙◌, Option, none, some,
  List, [], ◌∷◌, ◌++◌, arith,
}
use native.Mathlib.Nat.{div-add-mod, mul-add-div, div-eq_of_lt, mod-lt, one-le-pow, pow-suc}
use final_arc.Qr.Bits.{bits_of, put_bits, put_bytes, with_bit}

module _ (v p : ℕ) (h : 0 < p) where
  -- The quotient in halves.
  in_halves : (p * 2) * (v / p / 2) + (p * (v / p % 2) + v % p) ≡ v
  in_halves =
      let q = v / p in
      let parts : q / 2 * 2 + q % 2 ≡ q = omega arith in
      regroup (q / 2) (q % 2) (v % p) ∙ ap (λ n. p * n + v % p) parts ∙ div-add-mod v p
    where
      regroup : (a b r : ℕ) → (p * 2) * a + (p * b + r) ≡ p * (a * 2 + b) + r
      regroup a b r = grind arith

  rest_small : p * (v / p % 2) + v % p < p * 2
  rest_small = small (v / p % 2) (v % p) (omega arith) (mod-lt v h)
    where
      small : (b r : ℕ) → b < 2 → r < p → p * b + r < p * 2
      small b r hb hr = grind arith

  div-double : v / (p * 2) ≡ v / p / 2
  div-double =
      let doubled : 0 < p * 2 = omega arith in
      ap (λ n. n / (p * 2)) (sym in_halves)
      ∙ mul-add-div doubled (v / p / 2) (p * (v / p % 2) + v % p)
      ∙ rw (div-eq_of_lt rest_small) (omega arith)

-- Reading a number of so many bits, with what follows them.
unfoldable pub read_number : (length acc : ℕ) → List ℕ → Option (ℕ × List ℕ)
read_number zero acc bits = some (acc, bits)
read_number (suc i) acc [] = none
read_number (suc i) acc (bit ∷ bits) = read_number i (acc * 2 + bit) bits

read_from :
    (n v : ℕ) (rest : List ℕ) → read_number n (v / 2 ^ n) (bits_of v n ++ rest) ≡ some (v, rest)
unfolding read_number bits_of
read_from zero v rest = rw (whole v) refl
  where
    whole : (v : ℕ) → v / 2 ^ 0 ≡ v
    whole v = omega arith
read_from (suc n) v rest = ap (λ a. read_number n a (bits_of v n ++ rest)) next ∙ read_from n v rest
  where
    step : (p : ℕ) → 0 < p → v / (p * 2) * 2 + v / p % 2 ≡ v / p
    step p h = rw (div-double v p h) (omega arith)

    next : v / 2 ^ suc n * 2 + v / 2 ^ n % 2 ≡ v / 2 ^ n
    next =
        ap (λ q. v / q * 2 + v / 2 ^ n % 2) (pow-suc 2 n)
        ∙ step (2 ^ n) (one-le-pow n 2 (omega arith))

pub read_number-bits_of :
    (n v : ℕ) (rest : List ℕ) → v < 2 ^ n → read_number n 0 (bits_of v n ++ rest) ≡ some (v, rest)
read_number-bits_of n v rest h =
    ap (λ a. read_number n a (bits_of v n ++ rest)) (sym (div-eq_of_lt h)) ∙ read_from n v rest

-- The bits of bytes.
unfoldable pub spread : List ℕ → List ℕ
spread [] = []
spread (byte ∷ bytes) = bits_of byte 8 ++ spread bytes

pub append_assoc : (xs ys zs : List ℕ) → (xs ++ ys) ++ zs ≡ xs ++ (ys ++ zs)
append_assoc [] ys zs = refl
append_assoc (x ∷ xs) ys zs = ap (λ l. x ∷ l) (append_assoc xs ys zs)

pub put_bytes-spread : (bits bytes : List ℕ) → put_bytes bits bytes ≡ bits ++ spread bytes
unfolding put_bytes put_bits spread
put_bytes-spread bits [] = append_none bits
  where
    append_none : (xs : List ℕ) → xs ≡ xs ++ []
    append_none [] = refl
    append_none (x ∷ xs) = ap (λ l. x ∷ l) (append_none xs)
put_bytes-spread bits (byte ∷ bytes) =
    put_bytes-spread (bits ++ bits_of byte 8) bytes
    ∙ append_assoc bits (bits_of byte 8) (spread bytes)

-- Eight bits, packed and spread again.
abbrev pub IsBit : ℕ → Type 0
IsBit b = b < 2

pub with_bit-sum :
    (byte bit place : ℕ) → bit < 2 → with_bit byte bit place ≡ byte + bit * 2 ^ (7 - place)
with_bit-sum byte zero place h = omega arith
with_bit-sum byte (suc zero) place h = omega arith
with_bit-sum byte (suc (suc bit)) place h = absurd (omega arith)
