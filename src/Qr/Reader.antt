-- ===== src/Qr/Reader.antt =====
-- A reader of the byte mode, for the payload of a symbol (src/lib/paymentQr.ts, `encodeData`).
use final_arc.Base.{
  ℕ, zero, suc, ◌<◌, ◌≡◌, refl, ap, ◌∙◌, Option, none, some, List, [], ◌∷◌, ◌++◌, All,
  if◌then◌else◌, ◌==◌, length,
}
use final_arc.Qr.Bits.{bits_of}
use final_arc.Qr.Version.{char_count_bits}
use final_arc.Qr.Numbers.{append_assoc, spread, read_number, read_number-bits_of}

-- Reading so many bytes.
unfoldable pub read_bytes : ℕ → List ℕ → Option (List ℕ)
unfolding read_number
read_bytes zero bits = some []
read_bytes (suc n) bits = elim (read_number 8 0 bits) [
  | none ↦ none
  | some (byte, rest) ↦ elim (read_bytes n rest) [ none ↦ none | some bytes ↦ some (byte ∷ bytes) ]
]

-- A reader of the byte mode: four bits of mode, the count, the bytes.
unfoldable pub read_count : Option (ℕ × List ℕ) → Option (List ℕ)
unfolding read_bytes
read_count none = none
read_count (some (n, rest)) = read_bytes n rest

unfoldable pub read_mode : (count_bits : ℕ) → Option (ℕ × List ℕ) → Option (List ℕ)
unfolding read_count read_number
read_mode count_bits none = none
read_mode count_bits (some (mode, rest)) =
    if mode == 4 then read_count (read_number count_bits 0 rest) else none

unfoldable pub read_payload : (version : ℕ) → (codewords : List ℕ) → Option (List ℕ)
unfolding read_mode read_number spread char_count_bits
read_payload version codewords =
    read_mode (char_count_bits version) (read_number 4 0 (spread codewords))

pub read_bytes-spread :
    (bytes rest : List ℕ)
    → All (λ b. b < 256) bytes
    → read_bytes (length bytes) (spread bytes ++ rest) ≡ some bytes
unfolding read_bytes spread
read_bytes-spread [] rest h = refl
read_bytes-spread (byte ∷ bytes) rest h =
    ap (λ bits. first (read_number 8 0 bits)) (append_assoc (bits_of byte 8) (spread bytes) rest)
    ∙ ap first (read_number-bits_of 8 byte (spread bytes ++ rest) h.0)
    ∙ ap after (read_bytes-spread bytes rest h.1)
  where
    first : Option (ℕ × List ℕ) → Option (List ℕ)
    first o = elim o [
      | none ↦ none
      | some (b, r) ↦ elim (read_bytes (length bytes) r) [ none ↦ none | some bs ↦ some (b ∷ bs) ]
    ]

    after : Option (List ℕ) → Option (List ℕ)
    after o = elim o [ none ↦ none | some bs ↦ some (byte ∷ bs) ]
