-- ===== src/Tests/Prices.antt =====
-- Prices, settings and migrations at concrete inputs, in whole dollars.
use coin_hq.Base.{ℕ, true, false, ◌≡◌, refl, [], List, if◌then◌else◌, ◌==◌, ◌∷◌, none, some, keep}
use coin_hq.Base.Text.{Text, text, text_eq, text_beq, upper, starts_with}
use coin_hq.Base.Dict.{lookup, insert, first_of}
use coin_hq.Base.Int.{ℤ, pos}
use coin_hq.Number.Cents.{int_number}
use coin_hq.Prices.Symbols.{
  Coin, Answer, rows, PriceMemo, Gecko, fetch_market_cap_symbol_map, add_pages, add_ranked,
  get_coingecko_symbol_map,
}
use coin_hq.Prices.Search.{found_id, search_symbol_ids, split_cached, cached_id}
use coin_hq.Prices.Service.{Sources, get_usd_prices, fetch_coingecko_prices}
use coin_hq.Prices.Ranking.{get_coingecko_symbol_map-ranked}
use coin_hq.Prices.Priority.{own_price, unpriced, get_usd_prices-lookup}
use coin_hq.Prices.Stuck.{search_symbol_ids_stuck}
use coin_hq.Startup.{Server, run_startup_migrations}
use coin_hq.Startup.Script.{main}
use coin_hq.Startup.Agreement.{
  IsLocked, is_command, run_startup_migrations-IsLocked, run_startup_migrations-main,
}
use coin_hq.Config.{load_settings}
use coin_hq.Config.Urls.{IsNormal, load_settings_normalizes}
use coin_hq.Tests.Signing.{settings}

abbrev coin : Text → Text → Coin
coin s i = record { symbol = some s; id = some i }

abbrev pages : ℕ → Answer
pages n = rows (coin (text "atlas") (text "star-atlas") ∷ coin (text "ATLAS") (text "other") ∷ [])

abbrev gecko : Gecko
gecko = record {
  markets = pages;
  coins_list = none;
  search = λ s. rows [];
  redis_coin_list = none;
  redis_symbol_id = λ s. none;
}

abbrev memo : PriceMemo
memo = record { coin_list = none; symbol_ids = [] }

abbrev sources : Sources ℤ
sources = record {
  tickers = some (record { symbol = text "SOLUSDT"; price = some (pos 150) } ∷ []);
  redis_all_prices = none;
  redis_price = λ s. none;
  simple_price = λ ids. some (λ i. some (pos 7));
  gecko = gecko;
}

get_usd_prices-lookup_example :
    lookup
      (text "ATLAS")
      (get_usd_prices sources 0 (text "SOL" ∷ text "ATLAS" ∷ text "DAI" ∷ []) memo).0
    ≡ first_of (own_price sources (text "ATLAS")) (
        lookup
          (text "ATLAS")
          (fetch_coingecko_prices sources 0
            (unpriced sources (text "SOL" ∷ text "ATLAS" ∷ text "DAI" ∷ []))
            memo).0)
unfolding text_beq
get_usd_prices-lookup_example =
    get_usd_prices-lookup sources 0 (text "SOL" ∷ text "ATLAS" ∷ text "DAI" ∷ []) memo
      (text "ATLAS")

get_coingecko_symbol_map-ranked_example :
    lookup (text "ATLAS") (get_coingecko_symbol_map gecko 0 memo).0 ≡ some (text "star-atlas")
unfolding lookup insert text_beq upper fetch_market_cap_symbol_map add_pages add_ranked
get_coingecko_symbol_map-ranked_example =
    get_coingecko_symbol_map-ranked gecko 0 memo (text "ATLAS") (text "ATLAS", text "star-atlas") []
      refl refl refl

-- Seven symbols that no cache knows: only the last one has a match, and it is not searched for.
abbrev solana : Gecko
solana = record gecko {
  search = λ s. if s == text "SOL" then rows (coin (text "SOL") (text "solana") ∷ []) else rows [];
}

abbrev seven : List Text
seven = text "A" ∷ text "B" ∷ text "C" ∷ text "D" ∷ text "E" ∷ text "F" ∷ text "SOL" ∷ []

search_symbol_ids_stuck_example : search_symbol_ids solana 0 seven memo ≡ ([], memo)
unfolding found_id split_cached cached_id lookup text_beq
search_symbol_ids_stuck_example =
    search_symbol_ids_stuck solana 0 seven memo (refl, (refl, (refl, (refl, (refl, (refl, tt))))))

abbrev server : Server
server = record {
  connects = true;
  try_lock = some true;
  has_version = some false;
  has_users = some true;
  stamps = true;
  upgrades = false;
  unlocks = true;
  tells_type = true;
}

run_startup_migrations-IsLocked_example :
    IsLocked server
      (text "postgresql://h")
      (run_startup_migrations server (text "postgresql://h")).0
    × ((run_startup_migrations server (text "postgresql://h")).1 ≡ true)
run_startup_migrations-IsLocked_example =
    run_startup_migrations-IsLocked server (text "postgresql://h")

run_startup_migrations-main_example :
    keep is_command (run_startup_migrations server (text "postgresql://h")).0 ≡ (main server).0
unfolding starts_with
run_startup_migrations-main_example =
    run_startup_migrations-main server (text "postgresql://h") refl refl

load_settings_normalizes_example :
    IsNormal (load_settings settings).database_url
    × (load_settings (load_settings settings) ≡ load_settings settings)
load_settings_normalizes_example = load_settings_normalizes settings
