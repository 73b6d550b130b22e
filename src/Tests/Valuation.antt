-- ===== src/Tests/Valuation.antt =====
-- Portfolios and profits at concrete inputs.
use coin_hq.Base.{arith, false, ◌≡◌, refl, List, [], ◌∷◌, none, some}
use coin_hq.Base.Text.{Text, text, text_eq, text_beq, upper}
use coin_hq.Base.Dict.{lookup, get_or, HasUniqueKeys, insert}
use coin_hq.Base.Int.{ℤ, pos, ◌+ℤ◌, ◌-ℤ◌, ◌*ℤ◌}
use coin_hq.Number.{sum, minimum}
use coin_hq.Number.Cents.{int_number, int-IsExact}
use coin_hq.Store.{PortfolioSnapshot, Db}
use coin_hq.Portfolio.{Balance, dedupe_keys, maybe_save_snapshot}
use coin_hq.Portfolio.Keys.{best, keys_for, dedupe_keys-best}
use coin_hq.Portfolio.Snapshots.{IsSpaced, maybe_save_snapshot-IsSpaced}
use coin_hq.Portfolio.Aggregate.{
  ProfileResult, get_aggregate_portfolio, totals_of, all_balances, values_of,
  get_aggregate_portfolio-totals,
}
use coin_hq.Pnl.{AssetState, Trade, no_trades, states_from, add_trade, apply_trade}
use coin_hq.Pnl.PerAsset.{trades_in}
use coin_hq.Pnl.Accounts.{receipts_from, states_from-IsBalanced}
use coin_hq.Tests.Fixtures.{trade_key, read_key, db}

abbrev tether : Balance ℤ
tether = record {
  asset = text "USDT";
  free = pos 3;
  locked = pos 0;
  total = pos 3;
  usd_value = none;
}

abbrev bitcoin : Balance ℤ
bitcoin = record tether { asset = text "BTC"; total = pos 2; usd_value = some (pos 90) }

dedupe_keys-best_example :
    ((e : Text)
      → lookup e (dedupe_keys (trade_key ∷ read_key ∷ []))
        ≡ best (keys_for e (trade_key ∷ read_key ∷ [])))
    × HasUniqueKeys (dedupe_keys (trade_key ∷ read_key ∷ []))
dedupe_keys-best_example = dedupe_keys-best (trade_key ∷ read_key ∷ [])

abbrev snapshot : PortfolioSnapshot ℤ
snapshot = record { id = 5; profile_id = 10; total_usd = pos 90; created_at = 1000 }

abbrev kept : Db ℤ
kept = record db { snapshots = snapshot ∷ [] }

maybe_save_snapshot-IsSpaced_example :
    IsSpaced 5 (maybe_save_snapshot 4606 4601 10 (pos 91) kept).snapshots
maybe_save_snapshot-IsSpaced_example =
    maybe_save_snapshot-IsSpaced 5 4606 4601 10 (pos 91) kept (omega arith) (tt, tt)

abbrev results : List (ProfileResult ℤ)
results =
    record {
      id = 10;
      name = text "main";
      portfolio = some (record {
        profile_id = 10;
        profile_name = text "main";
        exchanges =
            record { exchange = text "okx"; balances = bitcoin ∷ tether ∷ []; total_usd = pos 90 }
            ∷ [];
        total_usd = pos 90;
        cached = false;
      });
    }
    ∷ record { id = 11; name = text "side"; portfolio = none }
    ∷ []

get_aggregate_portfolio-totals_example :
    ((get_aggregate_portfolio results).grand_total_usd ≡ sum (totals_of results))
    × (get_or (text "BTC") (pos 0) (get_aggregate_portfolio results).asset_totals
        ≡ sum (values_of (text "BTC") (all_balances results)))
get_aggregate_portfolio-totals_example = get_aggregate_portfolio-totals (text "BTC") results

-- Two buys of 4, and a sale of 10 of which 8 are known.
abbrev buy : Trade ℤ
buy = record { base_asset = text "btc"; side = text "buy"; amount = pos 4; usd_value = pos 40 }

abbrev trades : List (Trade ℤ)
trades =
    buy
    ∷ record buy { base_asset = text "BTC"; usd_value = pos 80 }
    ∷ record buy { base_asset = text "ETH" }
    ∷ record buy { side = text "sell"; amount = pos 10; usd_value = pos 200 }
    ∷ []

abbrev outcome : AssetState ℤ
outcome = record {
  qty = pos 0;
  cost_basis_total = pos 0;
  realized_pnl = pos 40;
  total_bought_usd = pos 120;
  total_sold_usd = pos 200;
  buy_count = 2;
  sell_count = 1;
}

states_from-IsBalanced_example :
    pos 40 +ℤ pos 120 ≡ pos 0 +ℤ receipts_from (pos 0) no_trades (trades_in (text "BTC") trades)
unfolding states_from add_trade apply_trade lookup insert upper text_beq minimum ◌+ℤ◌ ◌-ℤ◌ ◌*ℤ◌
states_from-IsBalanced_example = states_from-IsBalanced int-IsExact (text "BTC") trades outcome refl
