-- ===== src/TradeLimits.antt =====
-- The checks on a delegated trade: backend/app/core/trade_limits.py. The reasons stand for the
-- messages of `TradeNotAllowedError`, in the order of the checks.
pub mod Laws
use coin_hq.Base.{
  ℕ, Bool, true, false, not, ◌&&◌, ◌||◌, List, [], ◌∷◌, map, Option, none, some, if◌then◌else◌,
  contains, keep, ◌==◌,
}
use coin_hq.Base.Text.{Text, text, text_eq, is_truthy, upper, lower, strip, split}
use coin_hq.Number.{Number}
use coin_hq.Store.{ShareLink}

pub data Denial : Type 0 where
  not_permitted bad_side only_buy only_sell coin_not_allowed not_positive : Denial
  over_order_limit over_daily_limit : Denial

-- `{c.strip().upper() for c in coins.split(",") if c.strip()}`
unfoldable pub coin_set : Text → List Text
coin_set coins = map (λ c. upper (strip c)) (keep (λ c. is_truthy (strip c)) (split b',' coins))

-- The whitelist of the link, empty if there is none.
unfoldable pub allowed_coins : Option Text → List Text
allowed_coins none = []
allowed_coins (some coins) = if is_truthy coins then coin_set coins else []

-- `coin in allowed`, or an empty whitelist
abbrev pub is_listed : List Text → Text → Bool
is_listed [] coin = true
is_listed (c ∷ cs) coin = contains (c ∷ cs) coin

-- `(link.trade_direction or "both").lower()`
unfoldable pub direction_of : Text → Text
direction_of [] = lower (text "both")
direction_of (c ∷ s) = lower (c ∷ s)

abbrev pub is_side : Text → Bool
is_side side = side == text "buy" || side == text "sell"

module _ {F : Type 0} ⦃n : Number F⦄ where
  open n use {nought, add, le, lt}

  -- `cap is not None and x > cap`
  abbrev pub exceeds : Option F → F → Bool
  exceeds none x = false
  exceeds (some cap) x = lt cap x

  -- `none` is the return without an error.
  unfoldable pub check_delegate_trade : ShareLink F → Text → Text → F → F → Option Denial
  check_delegate_trade link side base_asset usd_value spent_today =
      let s = lower side in
      let direction = direction_of link.trade_direction in
      if not link.can_trade
      then some not_permitted
      else if not (is_side s)
      then some bad_side
      else if direction == text "buy" && not (s == text "buy")
      then some only_buy
      else if direction == text "sell" && not (s == text "sell")
      then some only_sell
      else if not (is_listed (allowed_coins link.trade_allowed_coins) (upper base_asset))
      then some coin_not_allowed
      else if le usd_value nought
      then some not_positive
      else if exceeds link.trade_max_per_order_usd usd_value
      then some over_order_limit
      else if exceeds link.trade_daily_limit_usd (add spent_today usd_value)
      then some over_daily_limit
      else none
