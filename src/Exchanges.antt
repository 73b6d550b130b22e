-- ===== src/Exchanges.antt =====
-- Which exchanges there are: backend/app/exchanges/factory.py, with `DEMO_MODE` as an argument. And
-- `_base_qty` and `_mask_key` of backend/app/exchanges/base.py.
pub mod Laws
use coin_hq.Base.{
  ℕ, Bool, true, false, not, ◌&&◌, ◌||◌, List, [], ◌∷◌, ◌++◌, Option, none, some, if◌then◌else◌,
  ltb, length, ◌==◌,
}
use coin_hq.Base.Text.{Text, text, text_eq, lower}
use coin_hq.Number.{Number}

-- The adapter classes.
pub data Adapter : Type 0 where
  demo binance bybit okx coinbase kraken binancetr gateio : Adapter

-- `none` is the `ValueError` for an unsupported exchange.
unfoldable pub get_adapter : Bool → Text → Option Adapter
get_adapter demo_mode name =
    let e = lower name in
    if e == text "demo" && demo_mode
    then some demo
    else if e == text "binance"
    then some binance
    else if e == text "bybit"
    then some bybit
    else if e == text "okx"
    then some okx
    else if e == text "coinbase"
    then some coinbase
    else if e == text "kraken"
    then some kraken
    else if e == text "binancetr"
    then some binancetr
    else if e == text "gateio"
    then some gateio
    else none

abbrev pub all_exchanges : List Text
all_exchanges =
    text "binance"
    ∷ text "bybit"
    ∷ text "okx"
    ∷ text "coinbase"
    ∷ text "kraken"
    ∷ text "binancetr"
    ∷ text "gateio"
    ∷ []

unfoldable pub supported_exchanges : Bool → List Text
supported_exchanges demo_mode =
    if demo_mode then all_exchanges ++ text "demo" ∷ [] else all_exchanges

module _ {F : Type 0} ⦃n : Number F⦄ where
  open n use {nought, le, div, round}

  -- `_base_qty`: `none` is the `ValueError`. A price of zero is not truthy.
  unfoldable pub base_qty : F → Option F → Option F
  base_qty usd none = none
  base_qty usd (some price) = if le price nought then none else some (round (div usd price) 8)

abbrev take_six : Text → Text
take_six (a ∷ b ∷ c ∷ d ∷ e ∷ f ∷ s) = a ∷ b ∷ c ∷ d ∷ e ∷ f ∷ []
take_six s = s

-- `_mask_key`
unfoldable pub mask_key : Text → Text
mask_key key = if ltb 6 (length key) then take_six key ++ text "..." else text "***"
