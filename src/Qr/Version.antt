-- ===== src/Qr/Version.antt =====
-- Versions of the symbol and what they hold (src/lib/paymentQr.ts), at error correction M.
use final_arc.Base.{
  ℕ, zero, suc, ◌+◌, ◌-◌, ◌*◌, ◌/◌, Option, none, some, List, [], ◌∷◌, if◌then◌else◌, ltb, leb,
}

abbrev pub ec_blocks_m : List ℕ
ec_blocks_m =
    1 ∷ 1 ∷ 1 ∷ 2 ∷ 2 ∷ 4 ∷ 4 ∷ 4 ∷ 5 ∷ 5 ∷ 5 ∷ 8 ∷ 9 ∷ 9 ∷ 10 ∷ 10 ∷ 11 ∷ 13 ∷ 14 ∷ 16 ∷ 17 ∷ 17
    ∷ 18 ∷ 20 ∷ 21 ∷ 23 ∷ 25 ∷ 26 ∷ 28 ∷ 29 ∷ 31 ∷ 33 ∷ 35 ∷ 37 ∷ 38 ∷ 40 ∷ 43 ∷ 45 ∷ 47 ∷ 49 ∷ []

abbrev pub ec_codewords_m : List ℕ
ec_codewords_m =
    10 ∷ 16 ∷ 26 ∷ 36 ∷ 48 ∷ 64 ∷ 72 ∷ 88 ∷ 110 ∷ 130 ∷ 150 ∷ 176 ∷ 198 ∷ 216 ∷ 240 ∷ 280 ∷ 308
    ∷ 338 ∷ 364 ∷ 416 ∷ 442 ∷ 476 ∷ 504 ∷ 560 ∷ 588 ∷ 644 ∷ 700 ∷ 728 ∷ 784 ∷ 812 ∷ 868 ∷ 924 ∷ 980
    ∷ 1036 ∷ 1064 ∷ 1120 ∷ 1204 ∷ 1260 ∷ 1316 ∷ 1372 ∷ []

abbrev pub total_codewords : List ℕ
total_codewords =
    0 ∷ 26 ∷ 44 ∷ 70 ∷ 100 ∷ 134 ∷ 172 ∷ 196 ∷ 242 ∷ 292 ∷ 346 ∷ 404 ∷ 466 ∷ 532 ∷ 581 ∷ 655 ∷ 733
    ∷ 815 ∷ 901 ∷ 991 ∷ 1085 ∷ 1156 ∷ 1258 ∷ 1364 ∷ 1474 ∷ 1588 ∷ 1706 ∷ 1828 ∷ 1921 ∷ 2051 ∷ 2185
    ∷ 2323 ∷ 2465 ∷ 2611 ∷ 2761 ∷ 2876 ∷ 3034 ∷ 3196 ∷ 3362 ∷ 3532 ∷ 3706 ∷ []

-- An entry of a table; none of the calls is out of its range.
unfoldable pub entry : List ℕ → ℕ → ℕ
entry [] n = 0
entry (x ∷ xs) zero = x
entry (x ∷ xs) (suc n) = entry xs n

-- `symbolSize`.
unfoldable pub symbol_size : ℕ → ℕ
symbol_size version = version * 4 + 17

-- `charCountBits`.
unfoldable pub char_count_bits : ℕ → ℕ
char_count_bits version = if ltb version 10 then 8 else 16

unfoldable pub data_codewords : ℕ → ℕ
unfolding entry
data_codewords version = entry total_codewords version - entry ec_codewords_m (version - 1)

-- The bytes that fit into a version.
unfoldable pub capacity : ℕ → ℕ
unfolding data_codewords char_count_bits
capacity version = (data_codewords version * 8 - 4 - char_count_bits version) / 8

-- The loop of `pickVersion`, with the versions left.
unfoldable pub pick_from : (length version left : ℕ) → Option ℕ
unfolding capacity
pick_from length version zero = none
pick_from length version (suc left) =
    let later = pick_from length (version + 1) left in
    if leb length (capacity version) then some version else later

-- `pickVersion`: none where it throws.
unfoldable pub pick_version : ℕ → Option ℕ
unfolding pick_from
pick_version length = pick_from length 1 40
