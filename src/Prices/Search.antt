-- ===== src/Prices/Search.antt =====
-- The search for single symbols: backend/app/services/price_service.py.
use coin_hq.Base.{ℕ, ◌+◌, Bool, List, [], ◌∷◌, Option, none, some, ◌&&◌, find, ◌==◌, take}
use coin_hq.Base.Text.{Text, text_eq, is_truthy, upper}
use coin_hq.Base.Dict.{Dict, lookup, insert}
use coin_hq.Prices.Symbols.{
  Coin, Answer, rate_limited, failed, rows, symbol_of, id_of, PriceMemo, fresh, Gecko, put, put_off,
  unless_blank,
}

abbrev pub search_max_per_call : ℕ
search_max_per_call = 6

abbrev pub search_ttl : ℕ
search_ttl = 604800

abbrev pub is_match : Text → Coin → Bool
is_match sym c = symbol_of c == upper sym && is_truthy (id_of c)

-- What an answer to a search tells: `none` ends the search, and a symbol may be left without an id.
unfoldable pub found_id : Text → Answer → Option (Option Text)
found_id sym rate_limited = none
found_id sym failed = some none
found_id sym (rows coins) =
    some (elim (find (is_match sym) coins) [ none ↦ none | some c ↦ some (id_of c) ])

abbrev pub remember : ℕ → Text → Option Text → PriceMemo → PriceMemo
remember now sym none memo = memo
remember now sym (some cg_id) memo = record memo {
  symbol_ids = insert sym (now + search_ttl, cg_id) memo.symbol_ids;
}

module _ (gecko : Gecko) where
  -- The memo's entry if it is there, or else Redis's.
  unfoldable pub cached_id : ℕ → PriceMemo → Text → Option Text
  cached_id now memo sym = unless_blank (elim (fresh now (lookup sym memo.symbol_ids)) [
    | some i ↦ some i
    | none ↦ gecko.redis_symbol_id sym
  ])

  -- The ids that a cache knows, and the symbols that none does.
  unfoldable pub split_cached :
      ℕ → PriceMemo → List Text → Dict Text Text → List Text → Dict Text Text × List Text
  unfolding cached_id
  split_cached now memo [] resolved pending = (resolved, pending)
  split_cached now memo (sym ∷ syms) resolved pending =
      let i = cached_id now memo sym in
      split_cached now memo syms (put sym i resolved) (put_off sym i pending)

  -- One request for each symbol, until one is answered with 429.
  unfoldable pub search_each :
      ℕ → List Text → Dict Text Text → PriceMemo → Dict Text Text × PriceMemo
  unfolding found_id
  search_each now [] resolved memo = (resolved, memo)
  search_each now (sym ∷ syms) resolved memo = elim (found_id sym (gecko.search sym)) [
    | none ↦ (resolved, memo)
    | some i ↦ search_each now syms (put sym i resolved) (remember now sym i memo)
  ]

  abbrev pub search_pending :
      ℕ → PriceMemo → Dict Text Text × List Text → Dict Text Text × PriceMemo
  search_pending now memo (resolved, pending) =
      search_each now (take search_max_per_call pending) resolved memo

  unfoldable pub search_symbol_ids : ℕ → List Text → PriceMemo → Dict Text Text × PriceMemo
  search_symbol_ids now symbols memo = search_pending now memo (split_cached now memo symbols [] [])
