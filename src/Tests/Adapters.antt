-- ===== src/Tests/Adapters.antt =====
-- The adapters at concrete inputs, in whole dollars.
use coin_hq.Base.{
  ◌*◌, true, false, ◌≡◌, ◌↔◌, ◌⊎◌, refl, List, [], ◌∷◌, none, some, arith, map, take,
}
use coin_hq.Base.Text.{Text, upper, text, text_beq, text_eq}
use coin_hq.Base.Int.{ℤ, pos}
use coin_hq.Number.Cents.{int_number}
use coin_hq.CostBasis.{Fill}
use coin_hq.Exchanges.{bybit}
use coin_hq.Adapters.Permissions.{
  accepted, bybit_key, moves_funds, can_trade, validate_trade_key, validate_trade_key-verdict,
  IsHalfAble,
}
use coin_hq.Adapters.Fills.{FillRow, KrakenPair, add_pairs}
use coin_hq.Adapters.Pages.{kraken_max_pages, kraken_fills}
use coin_hq.Adapters.Pages.Newest.{wanted_in, serve_trades, kraken_fills-newest}
use coin_hq.Adapters.Binance.Walk.{run, start}
use coin_hq.Adapters.Binance.Budget.{AllBudgeted, run-start-AllBudgeted}
use coin_hq.Adapters.Binance.Trades.{Trades, IsAscending}
use coin_hq.Adapters.Binance.Tracks.{serve}
use coin_hq.Adapters.Binance.Whole.{Completes, run-start-Completes}

abbrev bought : Fill ℤ
bought = record {
  asset = text "BTC";
  side = text "buy";
  qty = pos 2;
  quote_asset = text "USDT";
  quote_qty = pos 90;
  fee_asset = text "BTC";
  fee_qty = pos 0;
  ts_ms = 1000;
}

-- A market of two trades, of which the second does not parse.
abbrev history : Text → Text → Trades ℤ
history base quote = (3, some bought) ∷ (8, none) ∷ []

abbrev markets : List (Text × Text)
markets = (text "BTC", text "USDT") ∷ (text "ETH", text "USDT") ∷ []

history-IsAscending : (base quote : Text) → IsAscending (history base quote)
history-IsAscending base quote = ground arith

run-start-Completes_example :
    Completes history markets (run (serve history) (1 ∷ 0 ∷ []) (some (start markets)))
run-start-Completes_example = run-start-Completes history markets (1 ∷ 0 ∷ []) history-IsAscending

run-start-AllBudgeted_example :
    AllBudgeted (run (serve history) (1 ∷ 0 ∷ []) (some (start markets)))
run-start-AllBudgeted_example = run-start-AllBudgeted (serve history) markets (1 ∷ 0 ∷ [])

validate_trade_key-verdict_example :
    ((validate_trade_key bybit (bybit_key (text "0") false true) ≡ accepted) ↔ (
      (moves_funds (bybit_key (text "0") false true) ≡ false)
      × (can_trade (bybit_key (text "0") false true) ≡ true)))
    ⊎ (IsHalfAble bybit (bybit_key (text "0") false true)
        × (moves_funds (bybit_key (text "0") false true) ≡ false)
        × (can_trade (bybit_key (text "0") false true) ≡ false)
        × (validate_trade_key bybit (bybit_key (text "0") false true) ≡ accepted))
unfolding validate_trade_key text_beq
validate_trade_key-verdict_example =
    validate_trade_key-verdict bybit (bybit_key (text "0") false true) refl cc

abbrev xbt_pair : KrakenPair
xbt_pair = record {
  key = text "XXBTZUSD";
  base = text "XXBT";
  quote = text "ZUSD";
  altname = text "XBTUSD";
}

-- The first row parses, the second has no time.
abbrev kraken_rows : List (FillRow ℤ)
kraken_rows =
    record {
      market = some (text "XBTUSD");
      side = some (text "Buy");
      qty = some (pos 2);
      price = none;
      cost = some (pos 90);
      size_in_quote = false;
      fee = some (pos 1);
      fee_asset = [];
      ts_ms = some 1000;
    }
    ∷ record {
      market = some (text "XXBTZUSD");
      side = some (text "sell");
      qty = some (pos 1);
      price = none;
      cost = some (pos 50);
      size_in_quote = false;
      fee = some (pos 0);
      fee_asset = [];
      ts_ms = none;
    }
    ∷ []

kraken_fills-newest_example :
    kraken_fills (some (xbt_pair ∷ [])) (serve_trades 1 kraken_rows) (text "btc" ∷ [])
    ≡ some (
        wanted_in
          (add_pairs (xbt_pair ∷ []) [])
          (map upper (text "btc" ∷ []))
          (take (kraken_max_pages * 1) kraken_rows))
kraken_fills-newest_example =
    kraken_fills-newest 1 (xbt_pair ∷ []) kraken_rows (text "btc" ∷ []) (ground arith)
