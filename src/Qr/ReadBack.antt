-- ===== src/Qr/ReadBack.antt =====
-- Reading the payload of a symbol back (src/lib/paymentQr.ts, `encodeData` and `pickVersion`).
use final_arc.Base.{
  ℕ, ◌+◌, ◌-◌, ◌*◌, ◌/◌, ◌%◌, ◌^◌, ◌≤◌, ◌<◌, ◌≡◌, sym, ap, ◌∙◌, some, List, ◌++◌, All, leb, ltb,
  length, arith,
}
use final_arc.Qr.Bits.{bits_of, put_bits}
use final_arc.Qr.Version.{char_count_bits, data_codewords, capacity, pick_version}
use final_arc.Qr.Payload.{pad, header_bits, terminated, data_bits, data_bytes}
use final_arc.Base.{length-append, and_iff, leb→le, ltb→lt, subst}
use final_arc.Qr.Numbers.{
  append_assoc, IsBit, spread, read_number, read_number-bits_of, put_bytes-spread,
}
use final_arc.Qr.Bytes.{spread-to_bytes}
use final_arc.Qr.Lengths.{
  Extends, Extends-then, All-append, bits_of-IsBit, spread-IsBit, length-bits_of, length-spread,
  terminated-Extends, length-terminated, pad-Extends, length-pad,
}
use final_arc.Qr.Reader.{read_count, read_mode, read_payload, read_bytes-spread}
use final_arc.Qr.Room.{sound_version, tables, pick_from-Sound}

-- The bits before the terminator.
header_shape :
    (bytes : List ℕ) (version : ℕ)
    → header_bits bytes version
      ≡ bits_of 4 4 ++ (bits_of (length bytes) (char_count_bits version) ++ spread bytes)
unfolding header_bits put_bits
header_shape bytes version =
    put_bytes-spread (bits_of 4 4 ++ bits_of (length bytes) (char_count_bits version)) bytes
    ∙ append_assoc (bits_of 4 4) (bits_of (length bytes) (char_count_bits version)) (spread bytes)

length-header :
    (bytes : List ℕ) (version : ℕ)
    → length (header_bits bytes version) ≡ 4 + char_count_bits version + length bytes * 8
length-header bytes version =
    let count = bits_of (length bytes) (char_count_bits version) in
    ap length (header_shape bytes version)
    ∙ omega (
      arith,
      length-append (bits_of 4 4) (count ++ spread bytes),
      length-append count (spread bytes),
      length-bits_of 4 4,
      length-bits_of (length bytes) (char_count_bits version),
      length-spread bytes,
    )

header-IsBit : (bytes : List ℕ) (version : ℕ) → All IsBit (header_bits bytes version)
header-IsBit bytes version =
    let count = bits_of (length bytes) (char_count_bits version) in
    subst (All IsBit) (sym (header_shape bytes version)) (
      All-append (bits_of 4 4) (count ++ spread bytes) (bits_of-IsBit 4 4) (
        All-append count (spread bytes) (bits_of-IsBit (length bytes) (char_count_bits version))
          (spread-IsBit bytes)))

-- A picked version has room for the payload, and its count field for the count.
picked_room :
    (n version : ℕ)
    → pick_version n ≡ some version
    → (4 + char_count_bits version + n * 8 ≤ data_codewords version * 8)
      × (n < 2 ^ char_count_bits version)
unfolding pick_version sound_version
picked_room n version e =
    let sound = pick_from-Sound n 1 40 version tables e in
    let both =
      (and_iff (leb (4 + char_count_bits version) (data_codewords version * 8))
          (ltb (capacity version) (2 ^ char_count_bits version))).0
        sound.0 in
    let fits = leb→le n (capacity version) sound.1 in
    let field = ltb→lt (capacity version) (2 ^ char_count_bits version) both.1 in
    (
      room (char_count_bits version) (data_codewords version)
          (leb→le (4 + char_count_bits version) (data_codewords version * 8) both.0) fits,
      omega (arith, fits, field),
    )
  where
    room : (c d : ℕ) → 4 + c ≤ d * 8 → n ≤ (d * 8 - 4 - c) / 8 → 4 + c + n * 8 ≤ d * 8
    room c d h k = omega arith

data_bits-Extends :
    (bytes : List ℕ) (version : ℕ) → Extends (header_bits bytes version) (data_bits bytes version)
unfolding data_bits
data_bits-Extends bytes version =
    let n = data_codewords version * 8 in
    let bits = terminated n (header_bits bytes version) in
    Extends-then (header_bits bytes version) bits (pad 0 ((n - length bits) / 8) bits)
      (terminated-Extends n (header_bits bytes version))
      (pad-Extends 0 ((n - length bits) / 8) bits)

length-data_bits :
    (bytes : List ℕ) (version : ℕ)
    → 4 + char_count_bits version + length bytes * 8 ≤ data_codewords version * 8
    → length (data_bits bytes version) ≡ data_codewords version * 8
unfolding data_bits
length-data_bits bytes version h =
    let d = data_codewords version in
    let bits = terminated (d * 8) (header_bits bytes version) in
    let fits : length (header_bits bytes version) ≤ d * 8 =
      omega (arith, length-header bytes version, h) in
    let whole = length-terminated d (header_bits bytes version) fits in
    length-pad 0 ((d * 8 - length bits) / 8) bits ∙ filled (length bits) d whole.0 whole.1
  where
    filled : (l d : ℕ) → l % 8 ≡ 0 → l ≤ d * 8 → l + (d * 8 - l) / 8 * 8 ≡ d * 8
    filled l d h k = omega arith

read_header :
    (bytes : List ℕ) (version : ℕ) (more : List ℕ)
    → length bytes < 2 ^ char_count_bits version
    → All (λ b. b < 256) bytes
    → read_mode (char_count_bits version) (read_number 4 0 (header_bits bytes version ++ more))
      ≡ some bytes
unfolding read_mode read_count
read_header bytes version more h k =
    let c = char_count_bits version in
    let count = bits_of (length bytes) c in
    ap (λ bits. read_mode c (read_number 4 0 bits))
      (ap (λ bits. bits ++ more) (header_shape bytes version)
        ∙ append_assoc (bits_of 4 4) (count ++ spread bytes) more
        ∙ ap (λ bits. bits_of 4 4 ++ bits) (append_assoc count (spread bytes) more))
    ∙ ap (read_mode c) (read_number-bits_of 4 4 (count ++ (spread bytes ++ more)) (omega arith))
    ∙ ap read_count (read_number-bits_of c (length bytes) (spread bytes ++ more) h)
    ∙ read_bytes-spread bytes more k

-- The codewords of a payload, in the version picked for its length, are as many as the version holds,
-- and a reader of the byte mode gets the payload back from them.
pub data_bytes-read_payload :
    (bytes : List ℕ) (version : ℕ)
    → All (λ b. b < 256) bytes
    → pick_version (length bytes) ≡ some version
    → (read_payload version (data_bytes bytes version) ≡ some bytes)
      × (length (data_bytes bytes version) ≡ data_codewords version)
unfolding read_payload data_bytes
data_bytes-read_payload bytes version h e =
    let room = picked_room (length bytes) version e in
    let whole = data_bits-Extends bytes version in
    let bits =
      subst (All IsBit) (sym whole.1)
        (All-append (header_bits bytes version) whole.0 (header-IsBit bytes version) whole.2) in
    let back =
      spread-to_bytes (data_codewords version) (data_bits bytes version)
        (length-data_bits bytes version room.0) bits in
    (
      ap (λ b. read_mode (char_count_bits version) (read_number 4 0 b)) (back.0 ∙ whole.1)
          ∙ read_header bytes version whole.0 room.1 h,
      back.1,
    )
