-- ===== src/Portfolio.antt =====
-- Portfolio valuation: backend/app/services/portfolio_service.py. The exchanges, the global price
-- service and Redis are arguments.
pub mod Pricing
pub mod Keys
pub mod Snapshots
pub mod Aggregate
pub mod Endpoints
use coin_hq.Base.{
  ℕ, ◌+◌, Bool, true, false, not, ◌&&◌, ◌||◌, List, [], ◌∷◌, ◌++◌, map, Option, none, some,
  if◌then◌else◌, leb, find, is_some, ◌==◌, nat_eq,
}
use coin_hq.Base.Text.{Text, text, text_eq}
use coin_hq.Base.Dict.{Dict, lookup, insert, update, get_or, values}
use coin_hq.Base.Order.{sorted_set}
use coin_hq.Number.{Number, sum}
use coin_hq.Store.{ExchangeKey, Profile, PortfolioSnapshot, Db}

-- backend/app/schemas/portfolio.py
pub record Balance (F : Type 0) : Type 0 where
  pub asset : Text
  pub free : F
  pub locked : F
  pub total : F
  pub usd_value : Option F

pub record ExchangeBalance (F : Type 0) : Type 0 where
  pub exchange : Text
  pub balances : List (Balance F)
  pub total_usd : F

pub record PortfolioResponse (F : Type 0) : Type 0 where
  pub profile_id : ℕ
  pub profile_name : Text
  pub exchanges : List (ExchangeBalance F)
  pub total_usd : F
  pub cached : Bool

-- What a venue's fetch gave: its name, its balances and its own quotes.
pub record Fetched (F : Type 0) : Type 0 where
  pub exchange : Text
  pub balances : List (Balance F)
  pub local_prices : Dict Text F

-- The outside: `none` is an exception, in decrypting, in making the adapter or in its call.
pub record Feeds (F : Type 0) : Type 0 where
  pub get_balances : ExchangeKey → Option (List (Balance F))
  pub get_prices : ExchangeKey → List Text → Option (Dict Text F)
  pub get_usd_prices : List Text → Dict Text F

-- How the cache answers: there is none, it raised, it has nothing, or it has a response.
pub data CacheRead (F : Type 0) : Type 0 where
  off failed miss : CacheRead F
  hit : PortfolioResponse F → CacheRead F

-- One step of the loop over the keys; `_dedupe_keys` of cost_basis_service.py is the same loop.
unfoldable pub prefer_key : ExchangeKey → Dict Text ExchangeKey → Dict Text ExchangeKey
prefer_key key chosen = elim (lookup key.exchange chosen) [
  | none ↦ insert key.exchange key chosen
  | some existing ↦
      if not (existing.key_type == text "read_only") && key.key_type == text "read_only"
      then insert key.exchange key chosen
      else chosen
]

unfoldable pub dedupe_from : Dict Text ExchangeKey → List ExchangeKey → Dict Text ExchangeKey
dedupe_from chosen [] = chosen
dedupe_from chosen (key ∷ ks) = dedupe_from (prefer_key key chosen) ks

unfoldable pub dedupe_keys : List ExchangeKey → Dict Text ExchangeKey
unfolding dedupe_from prefer_key
dedupe_keys = dedupe_from []

abbrev pub hour : ℕ
hour = 3600

module _ {F : Type 0} where
  abbrev pub assets_of : List (Balance F) → List Text
  assets_of = map (λ b. b.asset)

  -- `local_prices`, empty if the venue's price fetch failed
  abbrev pub or_empty : Option (Dict Text F) → Dict Text F
  or_empty none = []
  or_empty (some prices) = prices

  unfoldable pub fetch_exchange_balance : Feeds F → ExchangeKey → Option (Fetched F)
  fetch_exchange_balance feeds key = elim (feeds.get_balances key) [
    | none ↦ none
    | some balances ↦ some (record {
      exchange = key.exchange;
      balances = balances;
      local_prices = or_empty (feeds.get_prices key (assets_of balances));
    })
  ]

  -- `asyncio.gather` and the loop that drops the failures
  unfoldable pub fetch_all : Feeds F → List ExchangeKey → List (Fetched F)
  unfolding fetch_exchange_balance
  fetch_all feeds [] = []
  fetch_all feeds (k ∷ ks) =
      let rest = fetch_all feeds ks in
      elim (fetch_exchange_balance feeds k) [ none ↦ rest | some f ↦ f ∷ rest ]

  -- The assets of the venues that quote nothing themselves.
  unfoldable pub unquoted_assets : List (Fetched F) → List Text
  unquoted_assets [] = []
  unquoted_assets (f ∷ fs) = elim f.local_prices [
    | [] ↦ assets_of f.balances ++ unquoted_assets fs
    | p ∷ ps ↦ unquoted_assets fs
  ]

  -- `_maybe_save_snapshot`; a database error there is logged and dropped. The row is stamped
  -- `created` by the database, which takes the time when its transaction began.
  unfoldable pub maybe_save_snapshot : ℕ → ℕ → ℕ → F → Db F → Db F
  maybe_save_snapshot now created profile_id total_usd d =
      if is_some
        (find (λ s. s.profile_id == profile_id && leb now (s.created_at + hour)) d.snapshots)
      then d
      else record d {
        snapshots =
            d.snapshots
            ++ record {
              id = d.next_id;
              profile_id = profile_id;
              total_usd = total_usd;
              created_at = created;
            }
              ∷ [];
        next_id = d.next_id + 1;
      }

module _ {F : Type 0} ⦃n : Number F⦄ where
  open n use {nought, add, mul, of_nat}

  -- _STABLECOIN_USD
  abbrev pub stablecoins : Dict Text F
  stablecoins =
      (text "USDT", of_nat 1)
      ∷ (text "USDC", of_nat 1)
      ∷ (text "BUSD", of_nat 1)
      ∷ (text "FDUSD", of_nat 1)
      ∷ (text "TUSD", of_nat 1)
      ∷ (text "DAI", of_nat 1)
      ∷ []

  unfoldable pub value_of : Dict Text F → Balance F → F
  value_of prices b = mul (get_or b.asset nought prices) b.total

  -- The loop of `_build_exchange_balance`, over the total and the priced balances so far.
  unfoldable pub price_from : Dict Text F → F → List (Balance F) → F × List (Balance F)
  unfolding value_of
  price_from prices total [] = (total, [])
  price_from prices total (b ∷ bs) =
      let usd_val = value_of prices b in
      let (t, rest) = price_from prices (add total usd_val) bs in
      (t, record b { usd_value = some usd_val } ∷ rest)

  unfoldable pub build_exchange_balance : Text → List (Balance F) → Dict Text F → ExchangeBalance F
  unfolding price_from
  build_exchange_balance exchange balances prices =
      let (total, priced) = price_from prices nought balances in
      record { exchange = exchange; balances = priced; total_usd = total }

  -- A venue's own quotes, over the stablecoins, or the global prices if it has none.
  unfoldable pub venue_prices : Dict Text F → Dict Text F → Dict Text F
  venue_prices [] global_prices = global_prices
  venue_prices (p ∷ ps) global_prices = update stablecoins (p ∷ ps)

  unfoldable pub price_venue : Dict Text F → Fetched F → ExchangeBalance F
  unfolding build_exchange_balance venue_prices update
  price_venue global_prices f =
      build_exchange_balance f.exchange f.balances (venue_prices f.local_prices global_prices)

  abbrev pub exchange_total : ExchangeBalance F → F
  exchange_total ex = ex.total_usd

  -- The valuation of `get_portfolio`, when the cache has no answer.
  unfoldable pub value_portfolio : Feeds F → ℕ → Text → List ExchangeKey → PortfolioResponse F
  unfolding dedupe_keys fetch_all unquoted_assets price_venue
  value_portfolio feeds profile_id profile_name keys =
      let raw = fetch_all feeds (values (dedupe_keys keys)) in
      let global_prices = feeds.get_usd_prices (sorted_set (unquoted_assets raw)) in
      let exchanges = map (price_venue global_prices) raw in
      record {
        profile_id = profile_id;
        profile_name = profile_name;
        exchanges = exchanges;
        total_usd = sum (map exchange_total exchanges);
        cached = false;
      }

  -- The response, the database, and what is written to the cache.
  abbrev pub save_if : Bool → ℕ → ℕ → ℕ → F → Db F → Db F
  save_if with_db now created profile_id total d =
      if with_db then maybe_save_snapshot now created profile_id total d else d

  abbrev pub cache_write : CacheRead F → PortfolioResponse F → Option (PortfolioResponse F)
  cache_write miss r = some r
  cache_write other r = none

  -- `with_db` says that the caller passed a session: only then a snapshot is kept.
  unfoldable pub get_portfolio :
      Feeds F
      → CacheRead F
      → Bool
      → ℕ
      → ℕ
      → ℕ
      → Text
      → List ExchangeKey
      → Db F
      → PortfolioResponse F × Db F × Option (PortfolioResponse F)
  unfolding value_portfolio maybe_save_snapshot
  get_portfolio feeds (hit r) with_db now created profile_id profile_name keys d =
      (record r { cached = true }, d, none)
  get_portfolio feeds cache with_db now created profile_id profile_name keys d =
      let r = value_portfolio feeds profile_id profile_name keys in
      (r, save_if with_db now created profile_id r.total_usd d, cache_write cache r)
