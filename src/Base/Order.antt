-- ===== src/Base/Order.antt =====
-- Python's order of texts, by code points, and `sorted` on a set of texts and on a dict's items.

use mathlib.Core.Path.{◌≡◌, refl}
use mathlib.Core.Bool.{Bool, true, false, ◌||◌}
use mathlib.Core.List.{List, [], ◌∷◌}
use native.Mathlib.Omega.{arith}
use coin_hq.Base.Bools.{ltb, nat_beq, if◌then◌else◌, ◌==◌}
use coin_hq.Base.Text.{Text, text_eq, text_beq_iff}
use coin_hq.Base.Lists.{contains}
use coin_hq.Base.Dict.{Dict}

unfoldable pub text_ltb : Text → Text → Bool
text_ltb s [] = false
text_ltb [] (d ∷ t) = true
text_ltb (c ∷ s) (d ∷ t) = if nat_beq c d then text_ltb s t else ltb c d

-- An element takes its place in a sorted list, unless it is there.
unfoldable pub add_sorted : Text → List Text → List Text
add_sorted x [] = x ∷ []
add_sorted x (y ∷ ys) =
    if x == y then y ∷ ys else if text_ltb x y then x ∷ y ∷ ys else y ∷ add_sorted x ys

-- `sorted(set(xs))`
unfoldable pub sorted_set : List Text → List Text
sorted_set [] = []
sorted_set (x ∷ xs) = add_sorted x (sorted_set xs)

contains-add_sorted :
    (x y : Text) (ys : List Text) → contains (add_sorted x ys) y ≡ (y == x || contains ys y)
unfolding add_sorted
contains-add_sorted x y [] = ground arith
contains-add_sorted x y (z ∷ zs) =
    ground (arith, contains-add_sorted x y zs, text_beq_iff x z, text_beq_iff y z, text_beq_iff y x)

-- Sorting a set loses no element and adds none.
contains-sorted_set : (xs : List Text) (y : Text) → contains (sorted_set xs) y ≡ contains xs y
unfolding sorted_set
contains-sorted_set [] y = refl
contains-sorted_set (x ∷ xs) y =
    ground (arith, contains-sorted_set xs y, contains-add_sorted x y (sorted_set xs))

module _ {ℓ} {V : Type ℓ} where
  unfoldable pub add_item : Text → V → Dict Text V → Dict Text V
  add_item k v [] = (k, v) ∷ []
  add_item k v ((j, w) ∷ d) = if text_ltb j k then (j, w) ∷ add_item k v d else (k, v) ∷ (j, w) ∷ d

  -- `sorted(d.items())`; the keys of a dict differ, so that values are not compared
  unfoldable pub sorted_items : Dict Text V → Dict Text V
  sorted_items [] = []
  sorted_items ((k, v) ∷ d) = add_item k v (sorted_items d)
