-- ===== src/Number.antt =====
-- Python's `float`, as an interface: the program's amounts, quantities and prices are values of a
-- type with these operations. The model has no NaN and no infinity, and one zero.
pub mod Laws
pub mod Cents
use coin_hq.Base.{ℕ, Bool, true, ◌≡◌, List, [], ◌∷◌, if◌then◌else◌}

pub record Number (F : Type 0) : Type 0 where
  pub nought : F
  -- the literal n / d, such as 0.99 or 1e-12
  pub ratio : ℕ → ℕ → F
  pub add : F → F → F
  pub sub : F → F → F
  pub mul : F → F → F
  pub div : F → F → F
  pub le : F → F → Bool
  pub lt : F → F → Bool
  pub eq : F → F → Bool
  -- `round(x, digits)`
  pub round : F → ℕ → F
  -- `float(n)`
  pub of_nat : ℕ → F

module _ {F : Type 0} ⦃n : Number F⦄ where
  open n use {le, nought, add, lt}

  -- `x <= y` as a statement.
  infix 4 ◌≼◌
  abbrev pub ◌≼◌ : F → F → Type 0
  x ≼ y = le x y ≡ true

  -- `min(x, y)` and `max(x, y)`: the first, unless the second is smaller, or larger.
  unfoldable pub minimum : F → F → F
  minimum x y = if lt y x then y else x

  unfoldable pub maximum : F → F → F
  maximum x y = if lt x y then y else x

  -- `sum(xs)`, from the left.
  unfoldable pub sum_from : F → List F → F
  sum_from acc [] = acc
  sum_from acc (x ∷ xs) = sum_from (add acc x) xs

  abbrev pub sum : List F → F
  sum = sum_from nought
