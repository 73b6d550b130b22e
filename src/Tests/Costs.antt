-- ===== src/Tests/Costs.antt =====
-- Trade histories, the waitlist and the history of values at concrete inputs.
use coin_hq.Base.{true, ◌≡◌, refl, List, [], ◌∷◌, none, some, arith, nat_eq}
use coin_hq.Base.Text.{Text, text, text_eq, text_beq}
use coin_hq.Base.Dict.{Dict, lookup, insert}
use coin_hq.Base.Int.{ℤ, pos, ◌+ℤ◌, ◌-ℤ◌, ◌*ℤ◌}
use coin_hq.Number.{◌≼◌, minimum}
use coin_hq.Number.Cents.{int_number, int-IsOrdered}
use coin_hq.Portfolio.{Feeds, off}
use coin_hq.CostBasis.{Fill, Position, add_fills, add_fill, apply_fill, is_stable}
use coin_hq.CostBasis.PerAsset.{fills_in}
use coin_hq.CostBasis.Figures.{HasFigures, add_fills-HasFigures, add_fills-IsCovered}
use coin_hq.CostBasis.Service.{fills, raised, no_redis, memo_get, get_cost_basis}
use coin_hq.CostBasis.Memory.{get_cost_basis_remembers}
use coin_hq.History.{portfolio_history}
use coin_hq.History.Order.{Shows, portfolio_history-Shows}
use coin_hq.Tests.Fixtures.{alice, trade_key, db}

-- A buy of 10 with a fee of 1 in the coin, one against a coin, and a sale of 4.
abbrev buy_fill : Fill ℤ
buy_fill = record {
  asset = text "BTC";
  side = text "buy";
  qty = pos 10;
  quote_asset = text "USDT";
  quote_qty = pos 90;
  fee_asset = text "BTC";
  fee_qty = pos 1;
  ts_ms = 1;
}

abbrev history : List (Fill ℤ)
history =
    buy_fill
    ∷ record buy_fill { quote_asset = text "ETH"; ts_ms = 2 }
    ∷ record buy_fill { asset = text "SOL"; ts_ms = 3 }
    ∷ record buy_fill { side = text "sell"; qty = pos 4; ts_ms = 4 }
    ∷ []

abbrev held : Dict Text ℤ
held = (text "BTC", pos 5) ∷ []

abbrev position : Position ℤ
position = record {
  qty = pos 5;
  cost = pos 50;
  bought_qty = pos 9;
  has_buys = true;
  skipped_non_stable = true;
}

add_fills-HasFigures_example : HasFigures (fills_in (text "BTC") history) position
unfolding add_fills add_fill apply_fill lookup insert text_beq minimum is_stable ◌+ℤ◌ ◌-ℤ◌ ◌*ℤ◌
add_fills-HasFigures_example = add_fills-HasFigures (text "BTC") held history position refl

add_fills-IsCovered_example : pos 0 ≼ pos 5
unfolding add_fills add_fill apply_fill lookup insert text_beq minimum is_stable ◌+ℤ◌ ◌-ℤ◌ ◌*ℤ◌
add_fills-IsCovered_example =
    add_fills-IsCovered int-IsOrdered (text "BTC") held history position refl

abbrev feeds : Feeds ℤ
feeds = record {
  get_balances = λ key. some (
      record { asset = text "BTC"; free = pos 5; locked = pos 0; total = pos 5; usd_value = none }
      ∷ []);
  get_prices = λ key assets. none;
  get_usd_prices = λ assets. (text "BTC", pos 45) ∷ [];
}

-- The first call has the history, the second meets a failure within the minute.
get_cost_basis_remembers_example :
    let first =
      get_cost_basis
        (λ key assets. fills history)
        feeds
        no_redis
        off
        100
        10
        (text "main")
        (trade_key ∷ [])
        db
        [] in
    (get_cost_basis
      (λ key assets. raised)
      feeds
      no_redis
      off
      150
      10
      (text "main")
      (trade_key ∷ [])
      db
      first.memo).response
    ≡ first.response
unfolding memo_get lookup
get_cost_basis_remembers_example =
    get_cost_basis_remembers (λ key assets. fills history) (λ key assets. raised) feeds feeds
      no_redis no_redis off off 100 150 10 (text "main") (text "main") (trade_key ∷ [])
      (trade_key ∷ []) db db [] refl (omega arith)

portfolio_history-Shows_example :
    Shows {F = ℤ} 1000 30 10 alice db (portfolio_history 1000 30 10 alice db)
portfolio_history-Shows_example = portfolio_history-Shows 1000 30 10 alice db
