-- ===== src/Adapters/Orders.antt =====
-- What each adapter's `place_order` sends: backend/app/exchanges/*.py. `none` is the `ValueError`
-- that is raised before a request; the signature and the exchange's answer are left out.
-- The case of letters is that of ASCII text, as elsewhere.
use coin_hq.Base.{Bool, true, false, ◌||◌, Option, none, some, [], ◌∷◌, ◌++◌, if◌then◌else◌, ◌==◌}
use coin_hq.Base.Text.{Text, text, text_eq, upper, lower, upper_code}
use coin_hq.Number.{Number}
use coin_hq.Exchanges.{
  Adapter, demo, binance, bybit, okx, coinbase, kraken, binancetr, gateio, base_qty,
}

-- The amount of an order, in dollars or in the asset.
pub data Size (F : Type 0) : Type 0 where
  by_quote : F → Size F
  by_base : F → Size F

pub record Order (F : Type 0) : Type 0 where
  pub symbol : Text
  pub side : Text
  pub size : Size F

-- `s.capitalize()`
abbrev pub capitalize : Text → Text
capitalize [] = []
capitalize (c ∷ s) = upper_code c ∷ lower s

-- `side not in (buy, sell)`
abbrev pub is_one_of : Text → Text → Text → Bool
is_one_of buy sell side = side == buy || side == sell

-- Kraken's own name of an asset.
abbrev pub kraken_base : Text → Text
kraken_base base = if upper base == text "BTC" then text "XBT" else upper base

module _ {F : Type 0} ⦃n : Number F⦄ where
  open n use {round}

  abbrev pub quote_size : F → Option (Size F)
  quote_size usd = some (by_quote (round usd 2))

  unfoldable pub base_size : F → Option F → Option (Size F)
  base_size usd price = elim (base_qty usd price) [ none ↦ none | some q ↦ some (by_base q) ]

  -- An order of a side that is allowed, once its size is known.
  abbrev pub send : Bool → Text → Text → Option (Size F) → Option (Order F)
  send false symbol side size = none
  send true symbol side none = none
  send true symbol side (some size) = some record { symbol = symbol; side = side; size = size }

  -- Sells are sized in the asset, buys in dollars.
  abbrev pub buy_by_quote : Bool → F → Option F → Option (Size F)
  buy_by_quote true usd price = quote_size usd
  buy_by_quote false usd price = base_size usd price

  abbrev pub binance_order : Text → Text → F → Option F → Option (Order F)
  binance_order base side usd price =
      let s = upper side in
      send (is_one_of (text "BUY") (text "SELL") s) (upper base ++ text "USDT") s (quote_size usd)

  abbrev pub bybit_order : Text → Text → F → Option F → Option (Order F)
  bybit_order base side usd price =
      let s = capitalize side in
      send (is_one_of (text "Buy") (text "Sell") s) (upper base ++ text "USDT") s (quote_size usd)

  abbrev pub okx_order : Text → Text → F → Option F → Option (Order F)
  okx_order base side usd price =
      let s = lower side in
      send (is_one_of (text "buy") (text "sell") s) (upper base ++ text "-USDT") s (quote_size usd)

  abbrev pub coinbase_order : Text → Text → F → Option F → Option (Order F)
  coinbase_order base side usd price =
      let s = upper side in
      send (is_one_of (text "BUY") (text "SELL") s) (upper base ++ text "-USDT") s
        (buy_by_quote (s == text "BUY") usd price)

  abbrev pub kraken_order : Text → Text → F → Option F → Option (Order F)
  kraken_order base side usd price =
      let s = lower side in
      send (is_one_of (text "buy") (text "sell") s) (kraken_base base ++ text "USDT") s
        (base_size usd price)

  abbrev pub binancetr_order : Text → Text → F → Option F → Option (Order F)
  binancetr_order base side usd price =
      let s = lower side in
      send (is_one_of (text "buy") (text "sell") s) (upper base ++ text "_USDT")
        (if s == text "buy" then text "0" else text "1") (buy_by_quote (s == text "buy") usd price)

  abbrev pub gateio_order : Text → Text → F → Option F → Option (Order F)
  gateio_order base side usd price =
      let s = lower side in
      send (is_one_of (text "buy") (text "sell") s) (upper base ++ text "_USDT") s
        (buy_by_quote (s == text "buy") usd price)

  -- The paper exchange fills the order by itself.
  abbrev pub demo_order : Text → Text → F → Option F → Option (Order F)
  demo_order base side usd price =
      let s = upper side in
      send (is_one_of (text "BUY") (text "SELL") s) (upper base ++ text "USDT") s (quote_size usd)

  -- The method of the adapter.
  unfoldable pub place_order : Adapter → Text → Text → F → Option F → Option (Order F)
  place_order binance = binance_order
  place_order bybit = bybit_order
  place_order okx = okx_order
  place_order coinbase = coinbase_order
  place_order kraken = kraken_order
  place_order binancetr = binancetr_order
  place_order gateio = gateio_order
  place_order demo = demo_order
