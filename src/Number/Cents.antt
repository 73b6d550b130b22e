-- ===== src/Number/Cents.antt =====
-- Whole units as numbers, to show that the laws can be met and to run the tests.
use coin_hq.Base.{ℕ, suc, ◌*◌, ◌/◌, arith, nat_beq}
use coin_hq.Base.Int.{
  ℤ, pos, negsuc, pos_part, neg_part, ◌+ℤ◌, ◌-ℤ◌, ◌*ℤ◌, leb_ℤ, ltb_ℤ, eq_of_parts, -ℤ_parts,
  *ℤ_parts,
}
use coin_hq.Base.{◌≡◌, ◌&&◌, ap}
use coin_hq.Number.{Number}
use coin_hq.Number.Laws.{IsOrdered, IsExact}

-- Division towards zero, and 0 by a divisor that is not positive.
abbrev pub div_ℤ : ℤ → ℤ → ℤ
div_ℤ a (negsuc d) = pos 0
div_ℤ (pos n) (pos d) = pos (n / d)
div_ℤ (negsuc n) (pos d) = pos 0 -ℤ pos (suc n / d)

instance abbrev pub int_number : Number ℤ
int_number = record {
  nought = pos 0;
  ratio = λ n d. pos (n / d);
  add = ◌+ℤ◌;
  sub = ◌-ℤ◌;
  mul = ◌*ℤ◌;
  div = div_ℤ;
  le = leb_ℤ;
  lt = ltb_ℤ;
  eq = λ a b. nat_beq (pos_part a) (pos_part b) && nat_beq (neg_part a) (neg_part b);
  round = λ a d. a;
  of_nat = pos;
}

pub int-IsOrdered : IsOrdered ℤ
unfolding ◌+ℤ◌ ◌-ℤ◌
int-IsOrdered = record {
  le_refl = λ x. ground arith;
  le_trans = λ x y z p q. ground arith;
  le_total = λ x y. ground arith;
  lt-eq-not-le = λ x y. ground arith;
  add_comm = λ x y. ground arith;
  nought_add = λ x. ground arith;
  add_mono = λ x y z p. ground arith;
  sub_nonneg = λ x y p. ground arith;
}

mul_sub_ℤ : (x y z : ℤ) → x *ℤ (y -ℤ z) ≡ x *ℤ y -ℤ x *ℤ z
mul_sub_ℤ x y z = eq_of_parts _ _ (
    omega (
      arith,
      *ℤ_parts x (y -ℤ z),
      *ℤ_parts x y,
      *ℤ_parts x z,
      -ℤ_parts (x *ℤ y) (x *ℤ z),
      ap (λ (t : ℕ). pos_part x * t) (-ℤ_parts y z),
      ap (λ (t : ℕ). neg_part x * t) (-ℤ_parts y z),
    ))

pub int-IsExact : IsExact ℤ
unfolding ◌+ℤ◌ ◌-ℤ◌ ◌*ℤ◌
int-IsExact = record {
  add_comm = λ x y. ground arith;
  add_assoc = λ x y z. ground arith;
  nought_add = λ x. ground arith;
  sub-add = λ x y. ground arith;
  add-sub = λ x y. ground arith;
  mul_sub = mul_sub_ℤ;
}
