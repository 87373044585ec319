-- ===== src/Base/Dictionary.antt =====
-- A JavaScript object used as a dictionary: entries in insertion order, keys compared by `===`.
use mathlib.Core.Path.{◌≡◌, refl}
use mathlib.Core.Bool.{Bool, false}
use mathlib.Core.Option.{Option, none, some}
use mathlib.Core.List.{List, [], ◌∷◌}
use native.Mathlib.Omega.{arith}
use final_arc.Base.Tests.{if◌then◌else◌}
use final_arc.Base.Lists.{any_of}
use final_arc.Base.Words.{Text, text_eq, text_eq_iff}

abbrev pub Entries {ℓ} : Type ℓ → Type ℓ
Entries V = List (Text × V)

module _ {ℓ} {V : Type ℓ} where
  -- `dict[key]`.
  unfoldable pub get : Text → Entries V → Option V
  get k [] = none
  get k ((j, v) ∷ m) = if text_eq j k then some v else get k m

  -- `dict[key] = value`.
  unfoldable pub put : Text → V → Entries V → Entries V
  put k v [] = (k, v) ∷ []
  put k v ((j, w) ∷ m) = if text_eq j k then (j, v) ∷ m else (j, w) ∷ put k v m

  -- `delete dict[key]`.
  unfoldable pub remove : Text → Entries V → Entries V
  remove k [] = []
  remove k ((j, v) ∷ m) = if text_eq j k then remove k m else (j, v) ∷ remove k m

  -- `Object.values(dict)`.
  abbrev pub values : Entries V → List V
  values [] = []
  values ((j, v) ∷ m) = v ∷ values m

  pub get-put :
      (j k : Text) (v : V) (m : Entries V)
      → get j (put k v m) ≡ (if text_eq k j then some v else get j m)
  unfolding get put
  get-put j k v [] = refl
  get-put j k v ((i, w) ∷ m) =
      ground (arith, text_eq_iff k j, text_eq_iff i k, text_eq_iff i j, get-put j k v m)

  pub get-remove :
      (j k : Text) (m : Entries V) → get j (remove k m) ≡ (if text_eq k j then none else get j m)
  unfolding get remove
  get-remove j k [] = ground arith
  get-remove j k ((i, w) ∷ m) =
      ground (arith, text_eq_iff k j, text_eq_iff i k, text_eq_iff i j, get-remove j k m)

  -- What a scan of the values finds nowhere does not hold at any key.
  pub any_of-values :
      (p : V → Bool) (k : Text) (v : V) (m : Entries V)
      → any_of p (values m) ≡ false
      → get k m ≡ some v
      → p v ≡ false
  unfolding get
  any_of-values p k v [] h e = cc
  any_of-values p k v ((i, w) ∷ m) h e = ground (arith, any_of-values p k v m)
