-- ===== src/Prices/Service.antt =====
-- `get_usd_prices` and its two sources: backend/app/services/price_service.py. The answers of
-- Binance, CoinGecko and Redis are arguments; what is written to Redis is left out.
use coin_hq.Base.{
  ℕ, List, [], ◌∷◌, ◌++◌, Option, none, some, not, if◌then◌else◌, keep, map, or_else, ◌==◌,
}
use coin_hq.Base.Text.{Text, text, text_eq, upper}
use coin_hq.Base.Dict.{Dict, lookup, update, keys}
use coin_hq.Number.{Number}
use coin_hq.Prices.Symbols.{
  PriceMemo, Gecko, get_coingecko_symbol_map, has, put, put_off, unless_blank,
}
use coin_hq.Prices.Search.{search_symbol_ids}

-- `s[:-len(suffix)]`, if `s.endswith(suffix)`
unfoldable pub cut_suffix : Text → Text → Option Text
cut_suffix suffix [] = if suffix == [] then some [] else none
cut_suffix suffix (c ∷ s) =
    let rest = cut_suffix suffix s in
    if suffix == c ∷ s then some [] else elim rest [ none ↦ none | some t ↦ some (c ∷ t) ]

-- A row of the ticker; `none` is a price that is absent or no number.
pub record Ticker (F : Type 0) : Type 0 where
  pub symbol : Text
  pub price : Option F

-- What the sources answer; `none` is a failure, a status 429, or nothing in Redis.
pub record Sources (F : Type 0) : Type 0 where
  pub tickers : Option (List (Ticker F))
  pub redis_all_prices : Option (Dict Text F)
  pub redis_price : Text → Option F
  pub simple_price : List Text → Option (Text → Option F)
  pub gecko : Gecko

module _ {F : Type 0} where
  abbrev pub add_ticker : Ticker F → Dict Text F → Dict Text F
  add_ticker t prices = elim (cut_suffix (text "USDT") t.symbol) [
    | none ↦ prices
    | some asset ↦ put asset t.price prices
  ]

  unfoldable pub add_tickers : List (Ticker F) → Dict Text F → Dict Text F
  unfolding cut_suffix
  add_tickers [] prices = prices
  add_tickers (t ∷ ts) prices = add_tickers ts (add_ticker t prices)

  -- `prices[a] = source[a]` for each asset that the source has
  unfoldable pub pick : Dict Text F → List Text → Dict Text F → Dict Text F
  pick source [] prices = prices
  pick source (a ∷ assets) prices = pick source assets (put a (lookup a source) prices)

module _ {F : Type 0} ⦃n : Number F⦄ where
  open n use {of_nat}

  -- The five that Binance's own quotes are completed with.
  abbrev pub pegged : Dict Text F
  pegged =
      (text "USDT", of_nat 1)
      ∷ (text "USDC", of_nat 1)
      ∷ (text "BUSD", of_nat 1)
      ∷ (text "FDUSD", of_nat 1)
      ∷ (text "TUSD", of_nat 1)
      ∷ []

  -- `_STABLECOINS`
  abbrev pub dollar_coins : Dict Text F
  dollar_coins = pegged ++ (text "DAI", of_nat 1) ∷ []

  unfoldable pub fetch_binance_all_prices : Option (List (Ticker F)) → Dict Text F
  unfolding add_tickers
  fetch_binance_all_prices none = []
  fetch_binance_all_prices (some ts) = update (add_tickers ts []) pegged

-- `symbol_map.get(sym.upper())` for each symbol, as far as it is there and not empty.
unfoldable pub map_symbols : Dict Text Text → List Text → Dict Text Text → Dict Text Text
map_symbols symbol_map [] ids = ids
map_symbols symbol_map (sym ∷ syms) ids =
    map_symbols symbol_map syms (put sym (unless_blank (lookup (upper sym) symbol_map)) ids)

-- `[s for s in symbols if s not in d]`
abbrev pub missing_from : {V : Type 0} → Dict Text V → List Text → List Text
missing_from d = keep (λ s. not (has s d))

module _ {F : Type 0} where
  -- The rows of the answer for the symbols that were asked for.
  unfoldable pub add_quotes :
      (Text → Option F) → Dict Text Text → List Text → Dict Text F → Dict Text F
  add_quotes answer ids [] prices = prices
  add_quotes answer ids (sym ∷ syms) prices =
      add_quotes answer ids syms (put sym (answer (or_else (lookup sym ids) [])) prices)

  abbrev pub add_answer :
      Dict Text Text → List Text → Dict Text F → Option (Text → Option F) → Dict Text F
  add_answer ids syms prices none = prices
  add_answer ids syms prices (some answer) = add_quotes answer ids syms prices

module _ {F : Type 0} (sources : Sources F) where
  -- The prices in Redis, and the symbols that have none there.
  unfoldable pub cached_prices : List Text → Dict Text F → List Text → Dict Text F × List Text
  cached_prices [] prices uncached = (prices, uncached)
  cached_prices (sym ∷ syms) prices uncached =
      let p = sources.redis_price sym in
      cached_prices syms (put sym p prices) (put_off sym p uncached)

  unfoldable pub ask_prices : Dict Text Text → Dict Text F × List Text → Dict Text F
  unfolding add_quotes
  ask_prices ids (prices, []) = prices
  ask_prices ids (prices, sym ∷ syms) =
      add_answer ids (sym ∷ syms) prices
        (sources.simple_price (map (λ s. or_else (lookup s ids) []) (sym ∷ syms)))

  -- The ids of the symbols: of the ranked map, and of the search for the rest.
  abbrev pub complete_ids : ℕ → List Text → Dict Text Text → PriceMemo → Dict Text Text × PriceMemo
  complete_ids now [] ids memo = (ids, memo)
  complete_ids now (s ∷ missing) ids memo =
      let (found, memo') = search_symbol_ids sources.gecko now (s ∷ missing) memo in
      (update ids found, memo')

  unfoldable pub resolve_ids :
      ℕ → List Text → Dict Text Text × PriceMemo → Dict Text Text × PriceMemo
  unfolding map_symbols search_symbol_ids
  resolve_ids now symbols ([], memo) = ([], memo)
  resolve_ids now symbols (e ∷ symbol_map, memo) =
      let ids = map_symbols (e ∷ symbol_map) symbols [] in
      complete_ids now (missing_from ids symbols) ids memo

  abbrev pub prices_of_ids : Dict Text Text × PriceMemo → Dict Text F × PriceMemo
  prices_of_ids (ids, memo) = (ask_prices ids (cached_prices (keys ids) [] []), memo)

  unfoldable pub fetch_coingecko_prices : ℕ → List Text → PriceMemo → Dict Text F × PriceMemo
  unfolding ask_prices cached_prices
  fetch_coingecko_prices now [] memo = ([], memo)
  fetch_coingecko_prices now (s ∷ symbols) memo =
      prices_of_ids
        (resolve_ids now (s ∷ symbols) (get_coingecko_symbol_map sources.gecko now memo))

module _ {F : Type 0} ⦃n : Number F⦄ where
  unfoldable pub add_dollar_coins : List Text → Dict Text F → Dict Text F
  unfolding pick
  add_dollar_coins assets prices = pick dollar_coins assets prices

  abbrev pub binance_prices : Sources F → Dict Text F
  binance_prices sources =
      or_else sources.redis_all_prices (fetch_binance_all_prices sources.tickers)

  -- The prices that need no CoinGecko.
  unfoldable pub own_prices : Sources F → List Text → Dict Text F
  unfolding add_dollar_coins fetch_binance_all_prices
  own_prices sources assets = add_dollar_coins assets (pick (binance_prices sources) assets [])

  -- CoinGecko is asked for what has no price yet.
  abbrev pub complete_prices :
      Sources F → ℕ → PriceMemo → Dict Text F → List Text → Dict Text F × PriceMemo
  complete_prices sources now memo result [] = (result, memo)
  complete_prices sources now memo result (a ∷ unpriced) =
      let (found, memo') = fetch_coingecko_prices sources now (a ∷ unpriced) memo in
      (update result found, memo')

  unfoldable pub get_usd_prices : Sources F → ℕ → List Text → PriceMemo → Dict Text F × PriceMemo
  unfolding own_prices
  get_usd_prices sources now [] memo = ([], memo)
  get_usd_prices sources now (a ∷ assets) memo =
      let result = own_prices sources (a ∷ assets) in
      complete_prices sources now memo result (missing_from result (a ∷ assets))
