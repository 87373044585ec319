-- ===== src/Qr/Remainder.antt =====
-- Division in `polyMod` and the codewords of `rsEncode` (src/lib/paymentQr.ts).
use final_arc.Base.{
  ℕ, zero, suc, ◌+◌, ◌-◌, ◌≤◌, ◌<◌, ◌≡◌, refl, sym, ap, ◌∙◌, subst, inl, inr, Bool, true, false,
  List, [], ◌∷◌, ◌++◌, if◌then◌else◌, leb, ◌==◌, ◌&&◌, length, length-append, All, arith,
  Bool-cases, and_iff, ==_iff,
}
use final_arc.Qr.Field.{
  exp_at, gf_mul, xor_cell, xor_scaled, zeros, from_next, mul_into, poly_mul, drop_zeros, first_of,
  reduce, poly_mod_within, poly_mod, ec_from, ec_polynomial, rs_encode,
}

-- One is neutral and each element is its own negative: the two facts that the loop needs, checked on
-- all 256 elements.
cancels : ℕ → Bool
cancels c = xor_cell c (gf_mul 1 c) == 0

cancel_below : ℕ → Bool
cancel_below zero = true
cancel_below (suc n) = cancels n && cancel_below n

all_cancel : cancel_below 256 ≡ true
unfolding cancel_below cancels xor_cell gf_mul
all_cancel = refl

cancel_at : (n c : ℕ) → c < n → cancel_below n ≡ true → cancels c ≡ true
unfolding cancel_below
cancel_at zero c lt h = absurd (omega arith)
cancel_at (suc n) c lt h =
    let each = (and_iff (cancels n) (cancel_below n)).0 h in
    elim (Bool-cases (c == n)) [
      | inl same ↦ subst (λ i. cancels i ≡ true) (sym ((==_iff c n).0 same)) each.0
      | inr other ↦ cancel_at n c (ground arith) each.1
    ]

first_cancels : (c : ℕ) → c < 256 → xor_cell c (gf_mul 1 c) ≡ 0
unfolding cancels
first_cancels c lt = (==_iff (xor_cell c (gf_mul 1 c)) 0).0 (cancel_at 256 c lt all_cancel)

abbrev pub Bytes : List ℕ → Type 0
Bytes cells = All (λ c. c < 256) cells

xor_cell-lt : (cell value : ℕ) → xor_cell cell value < 256
unfolding xor_cell
xor_cell-lt cell value = omega arith

xor_scaled-Bytes : (f : ℕ → ℕ) (q cells : List ℕ) → Bytes cells → Bytes (xor_scaled f q cells)
unfolding xor_scaled
xor_scaled-Bytes f [] cells h = h
xor_scaled-Bytes f (x ∷ q) [] h = tt
xor_scaled-Bytes f (x ∷ q) (c ∷ cells) h = (xor_cell-lt c (f x), xor_scaled-Bytes f q cells h.1)

length-xor_scaled : (f : ℕ → ℕ) (q cells : List ℕ) → length (xor_scaled f q cells) ≡ length cells
unfolding xor_scaled
length-xor_scaled f [] cells = refl
length-xor_scaled f (x ∷ q) [] = refl
length-xor_scaled f (x ∷ q) (c ∷ cells) = ap suc (length-xor_scaled f q cells)

drop_zeros-Bytes : (cells : List ℕ) → Bytes cells → Bytes (drop_zeros cells)
unfolding drop_zeros
drop_zeros-Bytes [] h = tt
drop_zeros-Bytes (c ∷ cells) h = chosen (c == 0) (drop_zeros-Bytes cells h.1)
  where
    chosen :
        (b : Bool) → Bytes (drop_zeros cells) → Bytes (if b then drop_zeros cells else c ∷ cells)
    chosen true p = p
    chosen false p = h

length-drop_zeros : (cells : List ℕ) → length (drop_zeros cells) ≤ length cells
unfolding drop_zeros
length-drop_zeros [] = omega arith
length-drop_zeros (c ∷ cells) = chosen (c == 0) (length-drop_zeros cells)
  where
    chosen :
        (b : Bool)
        → length (drop_zeros cells) ≤ length cells
        → length (if b then drop_zeros cells else c ∷ cells) ≤ suc (length cells)
    chosen true p = omega arith
    chosen false p = omega arith

reduce-Bytes : (divisor result : List ℕ) → Bytes result → Bytes (reduce divisor result)
unfolding reduce
reduce-Bytes divisor result h =
    drop_zeros-Bytes (xor_scaled (λ d. gf_mul d (first_of result)) divisor result)
      (xor_scaled-Bytes (λ d. gf_mul d (first_of result)) divisor result h)

-- A turn with a monic divisor takes a cell away at least.
length-reduce :
    (ds : List ℕ) (c : ℕ) (cells : List ℕ)
    → c < 256
    → length (reduce (1 ∷ ds) (c ∷ cells)) ≤ length cells
unfolding reduce xor_scaled drop_zeros
length-reduce ds c cells lt =
    shorter (xor_cell c (gf_mul 1 c)) (xor_scaled (λ d. gf_mul d c) ds cells) (first_cancels c lt)
      (length-xor_scaled (λ d. gf_mul d c) ds cells)
  where
    shorter :
        (x : ℕ) (rest : List ℕ)
        → x ≡ 0
        → length rest ≡ length cells
        → length (if x == 0 then drop_zeros rest else x ∷ rest) ≤ length cells
    shorter x rest e k = rw e (omega (arith, length-drop_zeros rest, k))

not_longer : (a b : ℕ) → leb (suc a) (suc b) ≡ false → suc b ≤ a
not_longer a b h = ground arith

ends :
    (m n : ℕ) (ds result : List ℕ)
    → Bytes result
    → length result ≤ m
    → length result ≤ n
    → (poly_mod_within m (1 ∷ ds) result ≡ poly_mod_within n (1 ∷ ds) result)
      × (length (poly_mod_within m (1 ∷ ds) result) ≤ length ds)
unfolding poly_mod_within
ends zero zero ds [] b h k = (refl, omega arith)
ends zero (suc n) ds [] b h k = (ground arith, omega arith)
ends (suc m) zero ds [] b h k = (ground arith, ground arith)
ends (suc m) (suc n) ds [] b h k = (ground arith, ground arith)
ends zero n ds (c ∷ cells) b h k = absurd (omega arith)
ends (suc m) zero ds (c ∷ cells) b h k = absurd (omega arith)
ends (suc m) (suc n) ds (c ∷ cells) b h k =
    let next = reduce (1 ∷ ds) (c ∷ cells) in
    let shorter = length-reduce ds c cells b.0 in
    let rest =
      ends m n ds next (reduce-Bytes (1 ∷ ds) (c ∷ cells) b) (omega (arith, shorter))
        (omega (arith, shorter)) in
    elim (Bool-cases (leb (suc (length ds)) (suc (length cells)))) [
      | inl long ↦ rw long rest
      | inr short ↦ rw short (refl, not_longer (length ds) (length cells) short)
    ]

-- The loop of `polyMod` ends: for a divisor that begins with one, every number of turns from the
-- dividend's length on gives the same remainder, and it is shorter than the divisor.
pub poly_mod_within-poly_mod :
    (turns : ℕ) (ds dividend : List ℕ)
    → Bytes dividend
    → length dividend ≤ turns
    → (poly_mod_within turns (1 ∷ ds) dividend ≡ poly_mod dividend (1 ∷ ds))
      × (length (poly_mod dividend (1 ∷ ds)) ≤ length ds)
unfolding poly_mod
poly_mod_within-poly_mod turns ds dividend bytes h =
    let both = ends turns (length dividend) ds dividend bytes h (omega arith) in
    (both.0, subst (λ r. length r ≤ length ds) both.0 both.1)

length-mul_into : (cells p q : List ℕ) → length (mul_into cells p q) ≡ length cells
unfolding mul_into
length-mul_into cells [] q = refl
length-mul_into cells (a ∷ p) q =
    next (xor_scaled (gf_mul a) q cells) (λ rest. length-mul_into rest p q)
    ∙ length-xor_scaled (gf_mul a) q cells
  where
    next :
        (xs : List ℕ)
        → ((rest : List ℕ) → length (mul_into rest p q) ≡ length rest)
        → length (from_next (λ rest. mul_into rest p q) xs) ≡ length xs
    next [] f = refl
    next (x ∷ xs) f = ap suc (f xs)

length-zeros : (n : ℕ) → length (zeros n) ≡ n
unfolding zeros
length-zeros zero = refl
length-zeros (suc n) = ap suc (length-zeros n)

-- A polynomial of a degree that begins with one.
abbrev pub Monic : ℕ → List ℕ → Type 0
Monic n p = (rest : List ℕ) × (p ≡ 1 ∷ rest) × (length rest ≡ n)

next_poly : (rest : List ℕ) (e : ℕ) → Monic (suc (length rest)) (poly_mul (1 ∷ rest) (1 ∷ e ∷ []))
unfolding poly_mul mul_into xor_scaled zeros
next_poly rest e = shaped (suc (length rest) + 2 - 1) (omega arith)
  where
    shaped :
        (m : ℕ)
        → m ≡ length rest + 2
        → Monic (suc (length rest)) (mul_into (zeros m) (1 ∷ rest) (1 ∷ e ∷ []))
    shaped zero h = absurd (omega arith)
    shaped (suc m) h =
        let cells = xor_scaled (gf_mul 1) (e ∷ []) (zeros m) in
        (
          mul_into cells rest (1 ∷ e ∷ []),
          refl,
          length-mul_into cells rest (1 ∷ e ∷ [])
              ∙ length-xor_scaled (gf_mul 1) (e ∷ []) (zeros m)
              ∙ length-zeros m
              ∙ omega (arith, h),
        )

ec_from-Monic :
    (i left n : ℕ) (poly : List ℕ) → Monic n poly → Monic (n + left) (ec_from i left poly)
unfolding ec_from
ec_from-Monic i zero n poly (rest, e, l) = (rest, e, omega (arith, l))
ec_from-Monic i (suc left) n poly (rest, e, l) =
    let one = next_poly rest (exp_at i) in
    let step : Monic (suc n) (poly_mul poly (1 ∷ exp_at i ∷ [])) =
      (one.0, ap (λ p. poly_mul p (1 ∷ exp_at i ∷ [])) e ∙ one.1, one.2 ∙ ap suc l) in
    let more = ec_from-Monic (i + 1) left (suc n) (poly_mul poly (1 ∷ exp_at i ∷ [])) step in
    (more.0, more.1, omega (arith, more.2))

ec_polynomial-Monic : (degree : ℕ) → Monic degree (ec_polynomial degree)
unfolding ec_polynomial
ec_polynomial-Monic degree =
    let m = ec_from-Monic 0 degree 0 (1 ∷ []) ([], refl, refl) in (m.0, m.1, omega (arith, m.2))

append-Bytes : (xs ys : List ℕ) → Bytes xs → Bytes ys → Bytes (xs ++ ys)
append-Bytes [] ys f g = g
append-Bytes (x ∷ xs) ys f g = (f.0, append-Bytes xs ys f.1 g)

zeros-Bytes : (n : ℕ) → Bytes (zeros n)
unfolding zeros
zeros-Bytes zero = tt
zeros-Bytes (suc n) = (omega arith, zeros-Bytes n)

-- `rsEncode` gives as many error correction bytes as asked for, for every message of bytes.
pub length-rs_encode :
    (message : List ℕ) (degree : ℕ) → Bytes message → length (rs_encode message degree) ≡ degree
unfolding rs_encode
length-rs_encode message degree h =
    let gen = ec_polynomial-Monic degree in
    let padded = message ++ zeros degree in
    let bytes = append-Bytes message (zeros degree) h (zeros-Bytes degree) in
    let short : length (poly_mod padded (1 ∷ gen.0)) ≤ length gen.0 =
      (poly_mod_within-poly_mod (length padded) gen.0 padded bytes (omega arith)).1 in
    let fits : length (poly_mod padded (ec_polynomial degree)) ≤ degree =
      subst (λ p. length (poly_mod padded p) ≤ degree) (sym gen.1) (omega (arith, short, gen.2)) in
    let remainder = poly_mod padded (ec_polynomial degree) in
    omega (
      arith,
      length-append (zeros (degree - length remainder)) remainder,
      length-zeros (degree - length remainder),
      fits,
    )
