-- ===== src/Adapters/Sides.antt =====
-- Which orders the adapters send (backend/app/exchanges/*.py).
use coin_hq.Base.{
  ◌<◌, All, ◌++◌, Bool, true, false, not, Option, none, some, [], if◌then◌else◌, ◌==◌,
}
use coin_hq.Base.Text.{Text, text, text_eq, upper, lower}
use coin_hq.Number.{Number}
use coin_hq.Exchanges.{Adapter, bybit, okx, coinbase, kraken, binancetr, gateio}
use coin_hq.Adapters.Orders.{Size, by_quote, Order, base_size}
use coin_hq.Adapters.Spelling.{is_buy_or_sell}

-- Whether an order is sized in the asset.
abbrev pub sized_by_base : Adapter → Bool → Bool
sized_by_base kraken buys = true
sized_by_base coinbase buys = not buys
sized_by_base binancetr buys = not buys
sized_by_base gateio buys = not buys
sized_by_base _ buys = false

-- The exchange's name for the asset against USDT.
abbrev pub separator : Adapter → Text
separator okx = text "-"
separator coinbase = text "-"
separator binancetr = text "_"
separator gateio = text "_"
separator _ = []

abbrev pub asset_code : Adapter → Text → Text
asset_code kraken asset = if asset == text "BTC" then text "XBT" else asset
asset_code _ asset = asset

abbrev pub market_of : Adapter → Text → Text
market_of a base = asset_code a (upper base) ++ (separator a ++ text "USDT")

-- The exchange's code for a side.
abbrev pub side_code : Adapter → Bool → Text
side_code bybit buys = if buys then text "Buy" else text "Sell"
side_code okx buys = if buys then text "buy" else text "sell"
side_code kraken buys = if buys then text "buy" else text "sell"
side_code gateio buys = if buys then text "buy" else text "sell"
side_code binancetr buys = if buys then text "0" else text "1"
side_code _ buys = if buys then text "BUY" else text "SELL"

-- Text for which the case of letters is as modelled.
abbrev pub IsAscii : Text → Type 0
IsAscii = All (λ c. c < 128)

module _ {F : Type 0} ⦃n : Number F⦄ where
  open n use {round}

  -- The size that an order should have: none without a price that it needs.
  abbrev pub right_size : Adapter → Bool → F → Option F → Option (Size F)
  right_size a buys usd price =
      if sized_by_base a buys then base_size usd price else some (by_quote (round usd 2))

  abbrev pub with_size : Text → Text → Option (Size F) → Option (Order F)
  with_size symbol side none = none
  with_size symbol side (some size) = some record { symbol = symbol; side = side; size = size }

  -- The order that should be sent: none for a side that is no side.
  abbrev pub right_order : Adapter → Text → Text → F → Option F → Option (Order F)
  right_order a base side usd price =
      let buys = lower side == text "buy" in
      if is_buy_or_sell side
      then with_size (market_of a base) (side_code a buys) (right_size a buys usd price)
      else none
