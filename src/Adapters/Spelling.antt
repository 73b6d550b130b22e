-- ===== src/Adapters/Spelling.antt =====
-- How the adapters spell and test the side of an order (backend/app/exchanges/*.py).
use coin_hq.Base.{
  ℕ, ◌+◌, ◌≤◌, Bool, true, false, ◌||◌, ◌≡◌, refl, [], ◌∷◌, arith, if◌then◌else◌, ◌==◌, nat_beq,
}
use coin_hq.Base.Text.{
  Text, text, text_eq, text_beq, text_beq_iff, upper, lower, upper_code, lower_code,
}
use coin_hq.Adapters.Orders.{capitalize, is_one_of}

-- A letter is told the same way in either case.
letter : (c l : ℕ) → 65 ≤ l → l ≤ 90 → nat_beq (upper_code c) l ≡ nat_beq (lower_code c) (l + 32)
unfolding upper_code lower_code
letter c l a b = ground arith

pub upper_buy : (s : Text) → (upper s == text "BUY") ≡ (lower s == text "buy")
unfolding upper lower text_beq
upper_buy [] = refl
upper_buy (c ∷ []) = ground (arith, letter c 66)
upper_buy (c ∷ d ∷ []) = ground (arith, letter c 66, letter d 85)
upper_buy (c ∷ d ∷ e ∷ []) = ground (arith, letter c 66, letter d 85, letter e 89)
upper_buy (c ∷ d ∷ e ∷ f ∷ s) = ground (arith, letter c 66, letter d 85, letter e 89)

upper_sell : (s : Text) → (upper s == text "SELL") ≡ (lower s == text "sell")
unfolding upper lower text_beq
upper_sell [] = refl
upper_sell (c ∷ []) = ground (arith, letter c 83)
upper_sell (c ∷ d ∷ []) = ground (arith, letter c 83, letter d 69)
upper_sell (c ∷ d ∷ e ∷ []) = ground (arith, letter c 83, letter d 69, letter e 76)
upper_sell (c ∷ d ∷ e ∷ f ∷ []) = ground (arith, letter c 83, letter d 69, letter e 76, letter f 76)
upper_sell (c ∷ d ∷ e ∷ f ∷ g ∷ s) =
    ground (arith, letter c 83, letter d 69, letter e 76, letter f 76)

capitalize_buy : (s : Text) → (capitalize s == text "Buy") ≡ (lower s == text "buy")
unfolding lower text_beq
capitalize_buy [] = refl
capitalize_buy (c ∷ s) = ground (arith, letter c 66)

capitalize_sell : (s : Text) → (capitalize s == text "Sell") ≡ (lower s == text "sell")
unfolding lower text_beq
capitalize_sell [] = refl
capitalize_sell (c ∷ s) = ground (arith, letter c 83)

-- The side, in any case of its letters.
abbrev pub is_buy_or_sell : Text → Bool
is_buy_or_sell side = lower side == text "buy" || lower side == text "sell"

-- The spellings of a side.
pub upper_sides :
    (side : Text) → is_one_of (text "BUY") (text "SELL") (upper side) ≡ is_buy_or_sell side
upper_sides side = ground (arith, upper_buy side, upper_sell side)

pub capitalize_sides :
    (side : Text) → is_one_of (text "Buy") (text "Sell") (capitalize side) ≡ is_buy_or_sell side
capitalize_sides side = ground (arith, capitalize_buy side, capitalize_sell side)

spelled :
    (buy sell s : Text) (buys : Bool)
    → (s == buy) ≡ buys
    → is_one_of buy sell s ≡ true
    → s ≡ (if buys then buy else sell)
spelled buy sell s true e h = (text_beq_iff s buy).0 e
spelled buy sell s false e h = (text_beq_iff s sell).0 (ground (arith, e, h))

pub upper_code_of :
    (side : Text)
    → is_one_of (text "BUY") (text "SELL") (upper side) ≡ true
    → upper side ≡ (if lower side == text "buy" then text "BUY" else text "SELL")
upper_code_of side = spelled (text "BUY") (text "SELL") (upper side) _ (upper_buy side)

pub capitalize_code_of :
    (side : Text)
    → is_one_of (text "Buy") (text "Sell") (capitalize side) ≡ true
    → capitalize side ≡ (if lower side == text "buy" then text "Buy" else text "Sell")
capitalize_code_of side =
    spelled (text "Buy") (text "Sell") (capitalize side) _ (capitalize_buy side)

pub lower_code_of :
    (side : Text)
    → is_one_of (text "buy") (text "sell") (lower side) ≡ true
    → lower side ≡ (if lower side == text "buy" then text "buy" else text "sell")
lower_code_of side = spelled (text "buy") (text "sell") (lower side) _ refl
