-- ===== src/Base/Words.antt =====
-- JavaScript strings: lists of code units, with the comparisons and patterns that the program uses.
use Prim.Native.Nat.{ℕ, ◌+◌, ◌-◌, ◌*◌, ◌≤◌, ◌<◌}
use Prim.Native.Char.{code}
use Prim.Native.String.{String}
use mathlib.Core.Path.{◌≡◌, refl}
use mathlib.Core.Logic.{◌↔◌}
use mathlib.Core.Bool.{Bool, true, false, ◌&&◌, ◌||◌}
use mathlib.Core.Option.{Option, none, some}
use mathlib.Core.List.{List, [], ◌∷◌, map}
use native.Mathlib.Omega.{arith}
use final_arc.Base.Tests.{ltb, leb, ◌==◌, if◌then◌else◌}

abbrev pub Text : Type 0
Text = List ℕ

-- The code units of an ASCII literal.
abbrev pub codes : String → Text
codes String.[] = []
codes (String.◌∷◌ c s) = code c ∷ codes s

-- `===` on strings.
unfoldable pub text_eq : Text → Text → Bool
text_eq [] [] = true
text_eq (x ∷ xs) (y ∷ ys) = x == y && text_eq xs ys
text_eq _ _ = false

pub text_eq_refl : (s : Text) → text_eq s s ≡ true
unfolding text_eq
text_eq_refl [] = refl
text_eq_refl (x ∷ xs) = ground (arith, text_eq_refl xs)

pub text_eq→eq : (s t : Text) → text_eq s t ≡ true → s ≡ t
unfolding text_eq
text_eq→eq [] [] h = refl
text_eq→eq [] (y ∷ t) h = cc
text_eq→eq (x ∷ s) [] h = cc
text_eq→eq (x ∷ s) (y ∷ t) h = ground (arith, text_eq→eq s t)

pub text_eq_iff : (s t : Text) → (text_eq s t ≡ true) ↔ (s ≡ t)
text_eq_iff s t = (text_eq→eq s t, λ e. rw e (text_eq_refl t))

-- `<` on strings: by code units, a prefix first.
unfoldable pub text_lt : Text → Text → Bool
text_lt _ [] = false
text_lt [] (y ∷ ys) = true
text_lt (x ∷ xs) (y ∷ ys) = ltb x y || (x == y && text_lt xs ys)

-- `Array.prototype.includes` on strings.
unfoldable pub includes : List Text → Text → Bool
includes [] t = false
includes (s ∷ ss) t = text_eq s t || includes ss t

-- `toLowerCase` on ASCII; other code units stay.
unfoldable pub lower_unit : ℕ → ℕ
lower_unit c = if leb b'A' c && leb c b'Z' then c + 32 else c

unfoldable pub to_lower_case : Text → Text
unfolding lower_unit
to_lower_case s = map lower_unit s

abbrev pub is_digit : ℕ → Bool
is_digit c = leb b'0' c && leb c b'9'

-- `[0-9a-fA-F]*`, to the end.
unfoldable pub all_hex : Text → Bool
all_hex [] = true
all_hex (c ∷ cs) =
    (is_digit c || (leb b'a' c && leb c b'f') || (leb b'A' c && leb c b'F')) && all_hex cs

-- `[0-9a-f]*`, to the end.
unfoldable pub lower_hex : Text → Bool
lower_hex [] = true
lower_hex (c ∷ cs) = (is_digit c || (leb b'a' c && leb c b'f')) && lower_hex cs

-- What follows a prefix.
unfoldable pub drop_prefix : Text → Text → Option Text
drop_prefix [] s = some s
drop_prefix (p ∷ ps) [] = none
drop_prefix (p ∷ ps) (c ∷ cs) = if p == c then drop_prefix ps cs else none

unfoldable pub all_digits : Text → Bool
all_digits [] = true
all_digits (c ∷ cs) = is_digit c && all_digits cs

-- `/^[1-9]\d*$/`.
unfoldable pub is_positive_decimal : Text → Bool
unfolding all_digits
is_positive_decimal [] = false
is_positive_decimal (c ∷ cs) = leb b'1' c && leb c b'9' && all_digits cs

-- `/^(?:0|[1-9]\d*)$/`.
unfoldable pub is_decimal : Text → Bool
unfolding is_positive_decimal text_eq
is_decimal s = text_eq s (b'0' ∷ []) || is_positive_decimal s

unfoldable pub digits_value : ℕ → Text → ℕ
digits_value acc [] = acc
digits_value acc (c ∷ cs) = digits_value (acc * 10 + (c - b'0')) cs

-- `BigInt(s)` on decimal digits.
unfoldable pub big_int : Text → ℕ
unfolding digits_value
big_int s = digits_value 0 s

digits_value-ge : (acc : ℕ) (s : Text) → acc ≤ digits_value acc s
unfolding digits_value
digits_value-ge acc [] = omega arith
digits_value-ge acc (c ∷ cs) = omega (arith, digits_value-ge (acc * 10 + (c - b'0')) cs)

-- A text that the positive pattern accepts stands for a positive number.
pub big_int_pos : (s : Text) → is_positive_decimal s ≡ true → 0 < big_int s
unfolding is_positive_decimal big_int
big_int_pos [] h = cc
big_int_pos (c ∷ cs) h = ground (arith, digits_value-ge (0 * 10 + (c - b'0')) cs)
