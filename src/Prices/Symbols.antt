-- ===== src/Prices/Symbols.antt =====
-- From ticker symbols to CoinGecko's ids: backend/app/services/price_service.py. The answers of
-- CoinGecko and what Redis holds are arguments.
use coin_hq.Base.{
  ℕ, ◌+◌, Bool, List, [], ◌∷◌, ◌++◌, Option, none, some, ◌&&◌, ◌||◌, not, if◌then◌else◌, ltb,
  is_some, ◌==◌, or_else,
}
use coin_hq.Base.Text.{Text, text, text_eq, is_truthy, upper, lower}
use coin_hq.Base.Dict.{Dict, lookup, insert, update, first_of}

-- A coin of a list or a search; `none` is a field that is absent or null.
pub record Coin : Type 0 where
  pub symbol : Option Text
  pub id : Option Text

-- The answer to a request: status 429, any other failure, or the rows.
pub data Answer : Type 0 where
  rate_limited : Answer
  failed : Answer
  rows : List Coin → Answer

abbrev pub symbol_of : Coin → Text
symbol_of c = upper (or_else c.symbol [])

abbrev pub id_of : Coin → Text
id_of c = or_else c.id []

-- A dict that may be asked whether it has a key.
abbrev pub has : {V : Type 0} → Text → Dict Text V → Bool
has k d = is_some (lookup k d)

-- `d[k] = v`, if there is a value
abbrev pub put : {V : Type 0} → Text → Option V → Dict Text V → Dict Text V
put k none d = d
put k (some v) d = insert k v d

-- A key without a value is put off.
abbrev pub put_off : {V : Type 0} → Text → Option V → List Text → List Text
put_off k none ks = ks ++ k ∷ []
put_off k (some v) ks = ks

-- `if s`
abbrev pub unless_blank : Option Text → Option Text
unless_blank none = none
unless_blank (some []) = none
unless_blank (some (c ∷ s)) = some (c ∷ s)

unfoldable pub add_ranked : Dict Text Text → List Coin → Dict Text Text
add_ranked m [] = m
add_ranked m (c ∷ cs) =
    let longer = add_ranked (insert (symbol_of c) (id_of c) m) cs in
    let same = add_ranked m cs in
    if is_truthy (symbol_of c) && is_truthy (id_of c) && not (has (symbol_of c) m)
    then longer
    else same

-- The coins of a page, with whether a further page is asked for.
abbrev pub page_rows : Answer → Option (List Coin)
page_rows rate_limited = none
page_rows failed = none
page_rows (rows []) = none
page_rows (rows (c ∷ cs)) = some (c ∷ cs)

unfoldable pub add_pages : (ℕ → Answer) → List ℕ → Dict Text Text → Dict Text Text
unfolding add_ranked
add_pages markets [] m = m
add_pages markets (page ∷ pages) m = elim (page_rows (markets page)) [
  | none ↦ m
  | some cs ↦ add_pages markets pages (add_ranked m cs)
]

unfoldable pub fetch_market_cap_symbol_map : (ℕ → Answer) → Dict Text Text
unfolding add_pages
fetch_market_cap_symbol_map markets = add_pages markets (1 ∷ 2 ∷ 3 ∷ 4 ∷ []) []

-- The fallback's rows, where an id that equals its symbol in lower case beats earlier ones.
unfoldable pub add_listed : Dict Text Text → List Coin → Dict Text Text
add_listed m [] = m
add_listed m (c ∷ cs) =
    let longer = add_listed (insert (symbol_of c) (id_of c) m) cs in
    let same = add_listed m cs in
    if not (is_truthy (symbol_of c)) || not (is_truthy (id_of c))
    then same
    else if not (has (symbol_of c) m) || id_of c == lower (symbol_of c)
    then longer
    else same

abbrev pub id_overrides : Dict Text Text
id_overrides =
    (text "BTC", text "bitcoin")
    ∷ (text "ETH", text "ethereum")
    ∷ (text "SOL", text "solana")
    ∷ (text "BNB", text "binancecoin")
    ∷ (text "XRP", text "ripple")
    ∷ (text "ADA", text "cardano")
    ∷ (text "DOGE", text "dogecoin")
    ∷ (text "TRX", text "tron")
    ∷ (text "DOT", text "polkadot")
    ∷ (text "LINK", text "chainlink")
    ∷ (text "LTC", text "litecoin")
    ∷ (text "AVAX", text "avalanche-2")
    ∷ (text "MATIC", text "matic-network")
    ∷ (text "POL", text "polygon-ecosystem-token")
    ∷ (text "SHIB", text "shiba-inu")
    ∷ (text "UNI", text "uniswap")
    ∷ (text "ATOM", text "cosmos")
    ∷ (text "XLM", text "stellar")
    ∷ (text "ETC", text "ethereum-classic")
    ∷ (text "NEAR", text "near")
    ∷ (text "APT", text "aptos")
    ∷ (text "ARB", text "arbitrum")
    ∷ (text "OP", text "optimism")
    ∷ (text "TON", text "the-open-network")
    ∷ (text "PEPE", text "pepe")
    ∷ []

-- The process-local memo, split by what its keys hold: each value with the time it expires at.
pub record PriceMemo : Type 0 where
  pub coin_list : Option (ℕ × Dict Text Text)
  pub symbol_ids : Dict Text (ℕ × Text)

-- `_memo_get` of an entry; one that has expired is read as absent, and stays until it is written.
abbrev pub fresh : {V : Type 0} → ℕ → Option (ℕ × V) → Option V
fresh now none = none
fresh now (some (expires_at, v)) = if ltb expires_at now then none else some v

abbrev pub coin_list_ttl : ℕ
coin_list_ttl = 86400

-- What CoinGecko and Redis answer while a symbol is resolved; `none` is no answer of use.
pub record Gecko : Type 0 where
  pub markets : ℕ → Answer
  pub coins_list : Option (List Coin)
  pub search : Text → Answer
  pub redis_coin_list : Option (Dict Text Text)
  pub redis_symbol_id : Text → Option Text

-- `if d`
abbrev pub unless_empty : {V : Type 0} → Option (Dict Text V) → Option (Dict Text V)
unless_empty none = none
unless_empty (some []) = none
unless_empty (some (e ∷ d)) = some (e ∷ d)

-- The list of coins stands in for an empty ranking; `none` is its failure.
abbrev pub or_listed : Dict Text Text → Option (List Coin) → Option (Dict Text Text)
or_listed (e ∷ m) coins = some (e ∷ m)
or_listed [] none = none
or_listed [] (some coins) = some (add_listed [] coins)

-- The overrides win, and the map is kept for a day.
abbrev pub store_map : ℕ → PriceMemo → Option (Dict Text Text) → Dict Text Text × PriceMemo
store_map now memo none = ([], memo)
store_map now memo (some m) =
    let symbol_map = update m id_overrides in
    (symbol_map, record memo { coin_list = some (now + coin_list_ttl, symbol_map) })

module _ (gecko : Gecko) where
  unfoldable pub build_symbol_map : ℕ → PriceMemo → Dict Text Text × PriceMemo
  build_symbol_map now memo =
      store_map now memo (or_listed (fetch_market_cap_symbol_map gecko.markets) gecko.coins_list)

  abbrev pub or_build : ℕ → PriceMemo → Option (Dict Text Text) → Dict Text Text × PriceMemo
  or_build now memo (some m) = (m, memo)
  or_build now memo none = build_symbol_map now memo

  unfoldable pub get_coingecko_symbol_map : ℕ → PriceMemo → Dict Text Text × PriceMemo
  unfolding build_symbol_map
  get_coingecko_symbol_map now memo =
      or_build now memo
        (first_of (unless_empty gecko.redis_coin_list) (unless_empty (fresh now memo.coin_list)))
