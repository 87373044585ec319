-- ===== src/Base/Values.antt =====
-- A value that arrives from outside, such as parsed JSON: what TypeScript calls `unknown`.
use Prim.Native.Nat.{ℕ}
use mathlib.Core.Bool.{Bool, ◌&&◌, ◌||◌}
use mathlib.Core.List.{[], ◌∷◌, reverse}
use final_arc.Base.Tests.{leb, ◌==◌, if◌then◌else◌}
use final_arc.Base.Words.{Text, text_eq}
use final_arc.Base.Int.{ℤ}

-- `fraction` stands for the numbers that are no integer, NaN and the infinities.
mutual
  pub data Value : Type 0 where
    undefined : Value
    null : Value
    boolean : Bool → Value
    number : ℤ → Value
    fraction : Value
    string : Text → Value
    array : Items → Value
    object : Fields → Value

  pub data Items : Type 0 where
    nil : Items
    cons : Value → Items → Items

  pub data Fields : Type 0 where
    end : Fields
    field : Text → Value → Fields → Fields

-- What `String.prototype.trim` takes off.
unfoldable pub is_space : ℕ → Bool
is_space c =
    (leb 9 c && leb c 13)
    || c == 32
    || c == 160
    || c == 5760
    || (leb 8192 c && leb c 8202)
    || c == 8232
    || c == 8233
    || c == 8239
    || c == 8287
    || c == 12288
    || c == 65279

unfoldable pub trim_start : Text → Text
trim_start [] = []
trim_start (c ∷ cs) = if is_space c then trim_start cs else c ∷ cs

unfoldable pub trim : Text → Text
unfolding trim_start is_space
trim s = reverse (trim_start (reverse (trim_start s)))

-- `object[key]`.
unfoldable pub read_field : Text → Fields → Value
read_field k end = undefined
read_field k (field j v fs) = if text_eq j k then v else read_field k fs
