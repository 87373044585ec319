-- ===== src/Qr/Bits.antt =====
-- The bit buffer of the encoder (src/lib/paymentQr.ts, `Bits`): bits as numbers, in order.
use final_arc.Base.{
  ℕ, zero, suc, ◌+◌, ◌-◌, ◌/◌, ◌%◌, ◌^◌, List, [], ◌∷◌, ◌++◌, if◌then◌else◌, ◌==◌, not,
}

-- What `put` pushes, the highest bit first.
unfoldable pub bits_of : (value length : ℕ) → List ℕ
bits_of value zero = []
bits_of value (suc i) = value / 2 ^ i % 2 ∷ bits_of value i

-- `Bits.put`.
unfoldable pub put_bits : List ℕ → (value length : ℕ) → List ℕ
unfolding bits_of
put_bits bits value length = bits ++ bits_of value length

-- `Bits.putBytes`.
unfoldable pub put_bytes : List ℕ → (bytes : List ℕ) → List ℕ
unfolding put_bits
put_bytes bits [] = bits
put_bytes bits (byte ∷ bytes) = put_bytes (put_bits bits byte 8) bytes

-- `|= 1 << (7 - (i & 7))` at a set bit; each bit of a byte is set once, so it is added.
abbrev pub with_bit : (byte bit place : ℕ) → ℕ
with_bit byte bit place = if not (bit == 0) then byte + 2 ^ (7 - place) else byte

-- The loop of `toBytes`, with the byte that it fills and the place in it.
unfoldable pub bytes_from : (byte place : ℕ) → List ℕ → List ℕ
bytes_from byte place [] = if place == 0 then [] else byte ∷ []
bytes_from byte place (bit ∷ bits) =
    let filled = with_bit byte bit place in
    let next = bytes_from 0 0 bits in
    let more = bytes_from filled (place + 1) bits in if place == 7 then filled ∷ next else more

-- `Bits.toBytes`.
unfoldable pub to_bytes : List ℕ → List ℕ
unfolding bytes_from
to_bytes bits = bytes_from 0 0 bits
