-- ===== src/CostBasis/Service.antt =====
-- `get_cost_basis` of backend/app/services/cost_basis_service.py. The exchanges' trade histories,
-- the portfolio's feeds and Redis are arguments. The memo is keyed by the id of the profile, which
-- is all that differs in the source's keys; the data kept there are the response itself.
use coin_hq.Base.{
  ℕ, ◌+◌, Bool, true, false, not, ◌&&◌, ◌||◌, List, [], ◌∷◌, map, Option, none, some, if◌then◌else◌,
  ltb, or_else, keep, nat_eq,
}
use coin_hq.Base.Text.{Text, text_eq, upper}
use coin_hq.Base.Dict.{Dict, lookup, insert, erase}
use coin_hq.Number.{Number}
use coin_hq.Store.{ExchangeKey, Db}
use coin_hq.Portfolio.{Balance, ExchangeBalance, Feeds, CacheRead, off, dedupe_keys, get_portfolio}
use coin_hq.CostBasis.{Fill, AssetCostBasis, is_stable, compute_avco}

pub record ExchangeCostBasis (F : Type 0) : Type 0 where
  pub exchange : Text
  pub supported : Bool
  pub assets : List (AssetCostBasis F)

pub record CostBasisResponse (F : Type 0) : Type 0 where
  pub profile_id : ℕ
  pub computed_at : ℕ
  pub exchanges : List (ExchangeCostBasis F)

-- How decrypting the key and asking its adapter for the fills ends: with fills, with `None` from an
-- adapter that has no history, with `None` from one that has, or in an exception.
pub data History (F : Type 0) : Type 0 where
  fills : List (Fill F) → History F
  no_history history_failed raised : History F

-- What the service keeps: until when, and the response.
abbrev pub Memo : Type 0 → Type 0
Memo F = Dict ℕ (ℕ × CostBasisResponse F)

-- How Redis answers for this profile's cost basis.
pub data Cached (F : Type 0) : Type 0 where
  no_redis redis_failed absent : Cached F
  present : CostBasisResponse F → Cached F

-- The response, the memo, and what goes to Redis, with its lifetime.
pub record Outcome (F : Type 0) : Type 0 where
  pub response : CostBasisResponse F
  pub memo : Memo F
  pub stored : Option (CostBasisResponse F × ℕ)

-- COST_BASIS_CACHE_TTL and COST_BASIS_DEGRADED_TTL, in seconds
abbrev pub cache_ttl : ℕ
cache_ttl = 900

abbrev pub degraded_ttl : ℕ
degraded_ttl = 60

module _ {F : Type 0} where
  -- `_memo_get`: an entry that has expired is removed.
  unfoldable pub memo_get : ℕ → ℕ → Memo F → Option (CostBasisResponse F) × Memo F
  memo_get now key memo = elim (lookup key memo) [
    | none ↦ (none, memo)
    | some e ↦ if ltb e.0 now then (none, erase key memo) else (some e.1, memo)
  ]

  unfoldable pub memo_set : ℕ → ℕ → CostBasisResponse F → ℕ → Memo F → Memo F
  memo_set now key value ttl memo = insert key (now + ttl, value) memo

  -- The portfolio's own cache is left aside when there is no Redis, or it failed just before.
  abbrev pub portfolio_cache : Cached F → CacheRead F → CacheRead F
  portfolio_cache no_redis pcache = off
  portfolio_cache redis_failed pcache = off
  portfolio_cache other pcache = pcache

  abbrev pub redis_write : Cached F → CostBasisResponse F → ℕ → Option (CostBasisResponse F × ℕ)
  redis_write absent response ttl = some (response, ttl)
  redis_write other response ttl = none

  abbrev pub not_supported : Text → ExchangeCostBasis F
  not_supported exchange = record { exchange = exchange; supported = false; assets = [] }

module _ {F : Type 0} ⦃n : Number F⦄ where
  open n use {nought, lt}

  abbrev pub usd : Balance F → F
  usd b = or_else b.usd_value nought

  -- `sorted(…, key=lambda b: b.usd_value or 0.0, reverse=True)`, which keeps equal ones in order
  unfoldable pub by_value : Balance F → List (Balance F) → List (Balance F)
  by_value b [] = b ∷ []
  by_value b (c ∷ cs) = if lt (usd b) (usd c) then c ∷ by_value b cs else b ∷ c ∷ cs

  unfoldable pub sort_by_value : List (Balance F) → List (Balance F)
  unfolding by_value
  sort_by_value [] = []
  sort_by_value (b ∷ bs) = by_value b (sort_by_value bs)

  abbrev pub is_held : Balance F → Bool
  is_held b = lt nought b.total && not (is_stable (upper b.asset))

  -- `{b.asset: b.total for b in held_balances}`
  unfoldable pub held_from : Dict Text F → List (Balance F) → Dict Text F
  held_from held [] = held
  held_from held (b ∷ bs) = held_from (insert b.asset b.total held) bs

  -- `_exchange_cost_basis`: `none` is an exception; the flag says that a venue with a history failed.
  unfoldable pub exchange_cost_basis :
      (ExchangeKey → List Text → History F)
      → ExchangeKey
      → List (Balance F)
      → Option (ExchangeCostBasis F × Bool)
  unfolding sort_by_value held_from
  exchange_cost_basis history key balances = elim (sort_by_value (keep is_held balances)) [
    | [] ↦ some (record { exchange = key.exchange; supported = true; assets = [] }, false)
    | b ∷ bs ↦ elim (history key (map (λ c. c.asset) (b ∷ bs))) [
      | fills fs ↦ some (
        record {
          exchange = key.exchange;
          supported = true;
          assets = compute_avco fs (held_from [] (b ∷ bs));
        },
        false,
      )
      | no_history ↦ some (not_supported key.exchange, false)
      | history_failed ↦ some (not_supported key.exchange, true)
      | raised ↦ none
    ]
  ]

  -- The jobs, for the exchanges with a key, and the loop over their results: the venues, and
  -- whether one of them failed.
  unfoldable pub collect :
      (ExchangeKey → List Text → History F)
      → Dict Text ExchangeKey
      → List (ExchangeBalance F)
      → List (ExchangeCostBasis F) × Bool
  collect history chosen [] = ([], false)
  collect history chosen (ex ∷ exs) =
      let rest = collect history chosen exs in
      elim (lookup ex.exchange chosen) [
        | none ↦ rest
        | some key ↦ elim (exchange_cost_basis history key ex.balances) [
          | none ↦ (not_supported ex.exchange ∷ rest.0, true)
          | some r ↦ (r.0 ∷ rest.0, r.1 || rest.1)
        ]
      ]

  unfoldable pub compute_cost_basis :
      (ExchangeKey → List Text → History F)
      → Feeds F
      → CacheRead F
      → ℕ
      → ℕ
      → Text
      → List ExchangeKey
      → Db F
      → CostBasisResponse F × ℕ
  unfolding collect exchange_cost_basis
  compute_cost_basis history feeds pcache now profile_id name keys d =
      let portfolio = (get_portfolio feeds pcache false now now profile_id name keys d).0 in
      let found = collect history (dedupe_keys keys) portfolio.exchanges in
      (
        record { profile_id = profile_id; computed_at = now; exchanges = found.0 },
        if found.1 then degraded_ttl else cache_ttl,
      )

  -- The whole of it, when the memo has nothing.
  unfoldable pub read_or_compute :
      (ExchangeKey → List Text → History F)
      → Feeds F
      → Cached F
      → CacheRead F
      → ℕ
      → ℕ
      → Text
      → List ExchangeKey
      → Db F
      → Memo F
      → Outcome F
  unfolding memo_set
  read_or_compute history feeds (present r) pcache now profile_id name keys d memo = record {
    response = r;
    memo = memo_set now profile_id r cache_ttl memo;
    stored = none;
  }
  read_or_compute history feeds cached pcache now profile_id name keys d memo =
      let made =
        compute_cost_basis history feeds (portfolio_cache cached pcache) now profile_id name keys
          d in
      record {
        response = made.0;
        memo = memo_set now profile_id made.0 made.1 memo;
        stored = redis_write cached made.0 made.1;
      }

  -- What follows the look into the memo.
  abbrev pub resume :
      (ExchangeKey → List Text → History F)
      → Feeds F
      → Cached F
      → CacheRead F
      → ℕ
      → ℕ
      → Text
      → List ExchangeKey
      → Db F
      → Option (CostBasisResponse F) × Memo F
      → Outcome F
  resume history feeds cached pcache now profile_id name keys d (some r, memo) = record {
    response = r;
    memo = memo;
    stored = none;
  }
  resume history feeds cached pcache now profile_id name keys d (none, memo) =
      read_or_compute history feeds cached pcache now profile_id name keys d memo

  unfoldable pub get_cost_basis :
      (ExchangeKey → List Text → History F)
      → Feeds F
      → Cached F
      → CacheRead F
      → ℕ
      → ℕ
      → Text
      → List ExchangeKey
      → Db F
      → Memo F
      → Outcome F
  get_cost_basis history feeds cached pcache now profile_id name keys d memo =
      resume history feeds cached pcache now profile_id name keys d (memo_get now profile_id memo)

  -- `_avg_buy_prices` of backend/app/api/v1/share.py, of a response
  unfoldable pub prices_of : List (AssetCostBasis F) → Dict Text F
  prices_of [] = []
  prices_of (a ∷ rest) = elim a.avg_buy_price [
    | none ↦ prices_of rest
    | some price ↦ (a.asset, price) ∷ prices_of rest
  ]

  unfoldable pub avg_buy_prices : List (ExchangeCostBasis F) → Dict Text (Dict Text F)
  unfolding prices_of
  avg_buy_prices [] = []
  avg_buy_prices (ex ∷ exs) =
      let rest = avg_buy_prices exs in
      if ex.supported then (ex.exchange, prices_of ex.assets) ∷ rest else rest
