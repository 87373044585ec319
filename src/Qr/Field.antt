-- ===== src/Qr/Field.antt =====
-- The arithmetic of Reed-Solomon codes over 256 elements (src/lib/paymentQr.ts). A cell of a
-- `Uint8Array` keeps its last eight bits.
use Prim.Native.Nat.{bit_xor}
use final_arc.Base.{
  ℕ, zero, suc, ◌+◌, ◌-◌, ◌*◌, ◌%◌, List, [], ◌∷◌, ◌++◌, if◌then◌else◌, ltb, leb, ◌==◌, ◌||◌,
  length,
}
use final_arc.Qr.Version.{entry}

-- `x <<= 1; if (x & 0x100) x ^= 0x11d`, below 256 before.
abbrev pub doubled : ℕ → ℕ
doubled x = if leb 256 (x * 2) then bit_xor (x * 2) 0x11d else x * 2

unfoldable pub powers : (count x : ℕ) → List ℕ
powers zero x = []
powers (suc count) x = x ∷ powers count (doubled x)

abbrev pub exp_table : List ℕ
unfolding powers
exp_table = powers 255 1

-- `EXP`: the table, once more from 255 on.
unfoldable pub exp_at : ℕ → ℕ
unfolding entry powers
exp_at i = entry exp_table (if ltb i 255 then i else i - 255)

unfoldable pub index_of : ℕ → List ℕ → ℕ
index_of x [] = 0
index_of x (y ∷ ys) = if y == x then 0 else suc (index_of x ys)

-- `LOG`: where the powers hold an element; 0 at 0, which no loop writes.
unfoldable pub log_at : ℕ → ℕ
unfolding index_of powers
log_at x = if x == 0 then 0 else index_of x exp_table

-- `gfMul`.
unfoldable pub gf_mul : ℕ → ℕ → ℕ
unfolding exp_at log_at
gf_mul a b = if a == 0 || b == 0 then 0 else exp_at (log_at a + log_at b)

-- `cell ^= value`.
unfoldable pub xor_cell : (cell value : ℕ) → ℕ
xor_cell cell value = bit_xor cell value % 256

-- The inner loops: each cell with the product of its coefficient.
unfoldable pub xor_scaled : (ℕ → ℕ) → (coefficients cells : List ℕ) → List ℕ
unfolding xor_cell
xor_scaled f [] cells = cells
xor_scaled f (q ∷ qs) [] = []
xor_scaled f (q ∷ qs) (cell ∷ cells) = xor_cell cell (f q) ∷ xor_scaled f qs cells

unfoldable pub zeros : ℕ → List ℕ
zeros zero = []
zeros (suc n) = 0 ∷ zeros n

-- The cells after the first.
abbrev pub from_next : (List ℕ → List ℕ) → List ℕ → List ℕ
from_next f [] = []
from_next f (cell ∷ cells) = cell ∷ f cells

-- The outer loop of `polyMul`: the cells from i on.
unfoldable pub mul_into : (cells p q : List ℕ) → List ℕ
unfolding xor_scaled gf_mul
mul_into cells [] q = cells
mul_into cells (a ∷ p) q = from_next (λ rest. mul_into rest p q) (xor_scaled (gf_mul a) q cells)

-- `polyMul`.
unfoldable pub poly_mul : (p q : List ℕ) → List ℕ
unfolding mul_into zeros
poly_mul p q = mul_into (zeros (length p + length q - 1)) p q

-- `result.slice(offset)`, past the leading zeros.
unfoldable pub drop_zeros : List ℕ → List ℕ
drop_zeros [] = []
drop_zeros (x ∷ xs) = if x == 0 then drop_zeros xs else x ∷ xs

abbrev pub first_of : List ℕ → ℕ
first_of [] = 0
first_of (x ∷ xs) = x

-- One turn of the loop of `polyMod`.
unfoldable pub reduce : (divisor result : List ℕ) → List ℕ
unfolding xor_scaled gf_mul drop_zeros
reduce divisor result = drop_zeros (xor_scaled (λ d. gf_mul d (first_of result)) divisor result)

-- The loop of `polyMod`, with the turns left.
unfoldable pub poly_mod_within : (turns : ℕ) → (divisor result : List ℕ) → List ℕ
unfolding reduce
poly_mod_within zero divisor result = result
poly_mod_within (suc turns) divisor result =
    let rest = poly_mod_within turns divisor (reduce divisor result) in
    if leb (length divisor) (length result) then rest else result

-- `polyMod`: a turn makes the result shorter, so its length is enough.
unfoldable pub poly_mod : (dividend divisor : List ℕ) → List ℕ
unfolding poly_mod_within
poly_mod dividend divisor = poly_mod_within (length dividend) divisor dividend

-- The loop of `ecPolynomial`, from i on.
unfoldable pub ec_from : (i left : ℕ) → List ℕ → List ℕ
unfolding poly_mul exp_at
ec_from i zero poly = poly
ec_from i (suc left) poly = ec_from (i + 1) left (poly_mul poly (1 ∷ exp_at i ∷ []))

-- `ecPolynomial`.
unfoldable pub ec_polynomial : ℕ → List ℕ
unfolding ec_from
ec_polynomial degree = ec_from 0 degree (1 ∷ [])

-- `rsEncode`.
unfoldable pub rs_encode : (message : List ℕ) → (degree : ℕ) → List ℕ
unfolding ec_polynomial poly_mod zeros
rs_encode message degree =
    let remainder = poly_mod (message ++ zeros degree) (ec_polynomial degree) in
    zeros (degree - length remainder) ++ remainder
