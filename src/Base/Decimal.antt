-- ===== src/Base/Decimal.antt =====
-- `str(n)` of an integer, and `int(s)` of a text in ASCII: spaces around it, a
-- sign, and digits with single underscores between them.
use Prim.Native.Nat.{ℕ, zero, suc, ◌+◌, ◌-◌, ◌*◌, ◌/◌, ◌%◌, ◌<◌}
use mathlib.Core.Path.{◌≡◌, refl}
use mathlib.Core.Bool.{Bool, true, false, ◌&&◌}
use mathlib.Core.List.{[], ◌∷◌}
use mathlib.Core.Option.{Option, none, some}
use native.Mathlib.Omega.{arith}
use coin_hq.Base.Bools.{ltb, leb, nat_beq, if◌then◌else◌}
use coin_hq.Base.Lists.{All}
use coin_hq.Base.Text.{Text, strip, strip_left, strip_right, is_space}
use coin_hq.Base.Int.{ℤ, pos, negsuc, sub_ℕ}

abbrev digit : ℕ → ℕ
digit n = 48 + n % 10

-- The digits of `n` before `out`, on fuel above `n`.
push_digits : ℕ → ℕ → Text → Text
push_digits zero n out = out
push_digits (suc fuel) n out =
    let longer = push_digits fuel (n / 10) (digit n ∷ out) in
    if ltb n 10 then digit n ∷ out else longer

unfoldable pub show_nat : ℕ → Text
unfolding push_digits
show_nat n = push_digits (suc n) n []

-- `str(i)`
abbrev pub show_int : ℤ → Text
show_int (pos n) = show_nat n
show_int (negsuc n) = b'-' ∷ show_nat (suc n)

abbrev pub is_digit : ℕ → Bool
is_digit c = leb 48 c && leb c 57

-- The flag says that a digit stands before.
unfoldable pub read_digits : Bool → ℕ → Text → Option ℕ
read_digits after acc [] = if after then some acc else none
read_digits after acc (c ∷ s) =
    let more = read_digits true (acc * 10 + (c - 48)) s in
    let skip = read_digits false acc s in
    if is_digit c then more else if nat_beq c b'_' && after then skip else none

abbrev positive : Option ℕ → Option ℤ
positive none = none
positive (some n) = some (pos n)

abbrev negative : Option ℕ → Option ℤ
negative none = none
negative (some n) = some (sub_ℕ 0 n)

unfoldable pub read_signed : Text → Option ℤ
unfolding read_digits
read_signed [] = none
read_signed (c ∷ s) =
    if nat_beq c b'-'
    then negative (read_digits false 0 s)
    else if nat_beq c b'+'
    then positive (read_digits false 0 s)
    else positive (read_digits false 0 (c ∷ s))

-- `int(s)`; `none` is a `ValueError`
unfoldable pub int_of_text : Text → Option ℤ
unfolding read_signed strip
int_of_text s = read_signed (strip s)

abbrev pub IsDigits : Text → Type 0
IsDigits = All (λ c. is_digit c ≡ true)

push_digits-IsDigits : (fuel n : ℕ) (out : Text) → IsDigits out → IsDigits (push_digits fuel n out)
unfolding push_digits
push_digits-IsDigits zero n out h = h
push_digits-IsDigits (suc fuel) n out h =
    let d : is_digit (digit n) ≡ true = ground arith in
    ground (arith, push_digits-IsDigits fuel (n / 10) (digit n ∷ out) (d, h))

pub show_nat-IsDigits : (n : ℕ) → IsDigits (show_nat n)
unfolding show_nat
show_nat-IsDigits n = push_digits-IsDigits (suc n) n [] tt

read_digits-push_digits :
    (fuel n : ℕ) (out : Text) (after : Bool)
    → n < fuel
    → read_digits after 0 (push_digits fuel n out) ≡ read_digits true n out
unfolding push_digits read_digits
read_digits-push_digits zero n out after h = absurd (omega arith)
read_digits-push_digits (suc fuel) n out after h =
    ground (arith, read_digits-push_digits fuel (n / 10) (digit n ∷ out) after)

read_digits-show_nat : (n : ℕ) → read_digits false 0 (show_nat n) ≡ some n
unfolding show_nat read_digits
read_digits-show_nat n = read_digits-push_digits (suc n) n [] false (omega arith)

strip_right_digits : (s : Text) → IsDigits s → strip_right s ≡ s
unfolding strip_right is_space
strip_right_digits [] h = refl
strip_right_digits (c ∷ s) (h, hs) = ground (arith, strip_right_digits s hs)

strip_left_digits : (s : Text) → IsDigits s → strip_left s ≡ s
unfolding strip_left is_space
strip_left_digits [] h = refl
strip_left_digits (c ∷ s) (h, hs) = ground arith

read_signed_digits : (s : Text) → IsDigits s → read_signed s ≡ positive (read_digits false 0 s)
unfolding read_signed read_digits
read_signed_digits [] h = refl
read_signed_digits (c ∷ s) (h, hs) = ground arith

-- What `str` prints of a number, `int` reads back.
pub int_of_text-show_nat : (n : ℕ) → int_of_text (show_nat n) ≡ some (pos n)
unfolding int_of_text
int_of_text-show_nat n =
    let ds = show_nat-IsDigits n in
    rw (
      strip_left_digits (show_nat n) ds,
      strip_right_digits (show_nat n) ds,
      read_signed_digits (show_nat n) ds,
      read_digits-show_nat n,
    )
