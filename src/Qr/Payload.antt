-- ===== src/Qr/Payload.antt =====
-- The data bits of a symbol (src/lib/paymentQr.ts, `encodeData`). The UTF-8 encoder is the
-- platform's: a payload is its bytes.
use final_arc.Base.{
  ℕ, zero, suc, ◌+◌, ◌-◌, ◌*◌, ◌/◌, ◌%◌, List, [], if◌then◌else◌, leb, ◌==◌, length,
}
use final_arc.Qr.Bits.{put_bits, put_bytes, to_bytes}
use final_arc.Qr.Version.{char_count_bits, data_codewords}

-- `while (bits.length % 8 !== 0) bits.put(0, 1)`, with the turns left.
unfoldable pub align : (turns : ℕ) → List ℕ → List ℕ
unfolding put_bits
align zero bits = bits
align (suc turns) bits =
    let more = align turns (put_bits bits 0 1) in if length bits % 8 == 0 then bits else more

-- The loop that fills the rest, from turn i.
unfoldable pub pad : (i remaining : ℕ) → List ℕ → List ℕ
unfolding put_bits
pad i zero bits = bits
pad i (suc remaining) bits =
    pad (i + 1) remaining (put_bits bits (if i % 2 == 0 then 0xec else 0x11) 8)

-- Mode, count and bytes.
unfoldable pub header_bits : (bytes : List ℕ) → (version : ℕ) → List ℕ
unfolding put_bits put_bytes char_count_bits
header_bits bytes version =
    put_bytes (put_bits (put_bits [] 4 4) (length bytes) (char_count_bits version)) bytes

-- The terminator, and the rest of its byte: eight turns are enough.
unfoldable pub terminated : (capacity_bits : ℕ) → List ℕ → List ℕ
unfolding put_bits align
terminated capacity_bits bits =
    align 8 (if leb (length bits + 4) capacity_bits then put_bits bits 0 4 else bits)

-- The bits that `encodeData` hands to `createCodewords`.
unfoldable pub data_bits : (bytes : List ℕ) → (version : ℕ) → List ℕ
unfolding header_bits terminated pad data_codewords
data_bits bytes version =
    let capacity_bits = data_codewords version * 8 in
    let bits = terminated capacity_bits (header_bits bytes version) in
    pad 0 ((capacity_bits - length bits) / 8) bits

unfoldable pub data_bytes : (bytes : List ℕ) → (version : ℕ) → List ℕ
unfolding to_bytes data_bits
data_bytes bytes version = to_bytes (data_bits bytes version)
