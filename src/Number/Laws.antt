-- ===== src/Number/Laws.antt =====
-- What is assumed of `float`. `IsOrdered` holds of finite IEEE numbers: rounding is monotone and a
-- sum does not depend on the order of its two terms. `IsExact` is arithmetic without rounding.
use coin_hq.Base.{◌≡◌, refl, ◌⊎◌, inl, inr, Bool, true, false, not, List, [], ◌∷◌, ◌++◌, arith}
use coin_hq.Base.{All, keep, Bool-cases}
use coin_hq.Number.{Number, ◌≼◌, minimum, sum_from}

pub record IsOrdered (F : Type 0) ⦃n : Number F⦄ : Type 0 where
  pub le_refl : (x : F) → x ≼ x
  pub le_trans : (x y z : F) → x ≼ y → y ≼ z → x ≼ z
  pub le_total : (x y : F) → (x ≼ y) ⊎ (y ≼ x)
  pub lt-eq-not-le : (x y : F) → n.lt x y ≡ not (n.le y x)
  pub add_comm : (x y : F) → n.add x y ≡ n.add y x
  pub nought_add : (x : F) → n.add n.nought x ≡ x
  pub add_mono : (x y z : F) → x ≼ y → n.add x z ≼ n.add y z
  pub sub_nonneg : (x y : F) → x ≼ y → n.nought ≼ n.sub y x

pub record IsExact (F : Type 0) ⦃n : Number F⦄ : Type 0 where
  pub add_comm : (x y : F) → n.add x y ≡ n.add y x
  pub add_assoc : (x y z : F) → n.add (n.add x y) z ≡ n.add x (n.add y z)
  pub nought_add : (x : F) → n.add n.nought x ≡ x
  pub sub-add : (x y : F) → n.add (n.sub x y) y ≡ x
  pub add-sub : (x y : F) → n.sub (n.add x y) y ≡ x
  pub mul_sub : (x y z : F) → n.mul x (n.sub y z) ≡ n.sub (n.mul x y) (n.mul x z)

module _ {F : Type 0} ⦃n : Number F⦄ (laws : IsOrdered F) where
  open n use {nought, add, sub, le, lt}
  open laws use {le_refl, le_trans, le_total, lt-eq-not-le, add_comm, nought_add, add_mono}

  le_of_not_lt : (x y : F) → lt x y ≡ false → y ≼ x
  le_of_not_lt x y h = ground (arith, lt-eq-not-le x y)

  le_of_lt : (x y : F) → lt x y ≡ true → x ≼ y
  le_of_lt x y h = ground (arith, lt-eq-not-le x y, le_total x y)

  pub le-add_right : (x y : F) → nought ≼ y → x ≼ add x y
  le-add_right x y h = ground (arith, add_mono nought y x h, nought_add x, add_comm x y)

  pub add_nonneg : (x y : F) → nought ≼ x → nought ≼ y → nought ≼ add x y
  add_nonneg x y p q = le_trans nought x (add x y) p (le-add_right x y q)

  pub minimum-le_right : (x y : F) → minimum x y ≼ y
  unfolding minimum
  minimum-le_right x y = ground (arith, le_of_not_lt y x, le_refl y)

  minimum-le_left : (x y : F) → minimum x y ≼ x
  unfolding minimum
  minimum-le_left x y = ground (arith, le_of_lt y x, le_refl x)

  minimum_nonneg : (x y : F) → nought ≼ x → nought ≼ y → nought ≼ minimum x y
  unfolding minimum
  minimum_nonneg x y p q = ground arith

  sum_from_mono : (a b : F) (xs : List F) → a ≼ b → sum_from a xs ≼ sum_from b xs
  unfolding sum_from
  sum_from_mono a b [] h = h
  sum_from_mono a b (x ∷ xs) h = sum_from_mono (add a x) (add b x) xs (add_mono a b x h)

  -- Dropping amounts that are not negative does not raise a sum.
  sum_from-keep-le :
      (p : F → Bool) (a : F) (xs : List F)
      → All (λ x. nought ≼ x) xs
      → sum_from a (keep p xs) ≼ sum_from a xs
  unfolding sum_from
  sum_from-keep-le p a [] h = le_refl a
  sum_from-keep-le p a (x ∷ xs) (h, hs) = elim (Bool-cases (p x)) [
    | inl kept ↦ rw kept (sum_from-keep-le p (add a x) xs hs)
    | inr dropped ↦ rw dropped (
        le_trans _ _ _ (sum_from-keep-le p a xs hs)
          (sum_from_mono a (add a x) xs (le-add_right a x h)))
  ]

module _ {F : Type 0} ⦃n : Number F⦄ where
  pub sum_from-append :
      (a : F) (xs : List F) (x : F) → sum_from a (xs ++ x ∷ []) ≡ n.add (sum_from a xs) x
  unfolding sum_from
  sum_from-append a [] x = refl
  sum_from-append a (y ∷ xs) x = sum_from-append (n.add a y) xs x
