-- ===== src/Prices/Absent.antt =====
-- A symbol that was not asked for gets neither an id nor a price
-- (backend/app/services/price_service.py).
use coin_hq.Base.{
  take, ℕ, zero, suc, Bool, false, List, [], ◌∷◌, Option, none, some, not, ◌≡◌, refl, arith,
  contains, keep, or_else, ◌==◌, Option-cases, inl, inr, map, ap, ◌∙◌,
}
use coin_hq.Base.Text.{Text, text_eq, upper}
use coin_hq.Base.Dict.{Dict, lookup, keys, lookup-insert, lookup-update-none}
use coin_hq.Prices.Symbols.{
  PriceMemo, Gecko, has, put, put_off, unless_blank, get_coingecko_symbol_map,
}
use coin_hq.Prices.Search.{
  found_id, remember, cached_id, split_cached, search_each, search_symbol_ids, search_max_per_call,
}
use coin_hq.Prices.Service.{
  Sources, missing_from, cached_prices, add_quotes, add_answer, ask_prices, map_symbols,
  complete_ids, fetch_coingecko_prices, resolve_ids,
}

put-absent :
    {V : Type 0} (k a : Text) (o : Option V) (d : Dict Text V)
    → (k == a) ≡ false
    → lookup k d ≡ none
    → lookup k (put a o d) ≡ none
put-absent k a none d h h' = h'
put-absent k a (some v) d h h' = ground (arith, lookup-insert k a v d)

put_off-absent :
    {V : Type 0} (k a : Text) (o : Option V) (ks : List Text)
    → (k == a) ≡ false
    → contains ks k ≡ false
    → contains (put_off a o ks) k ≡ false
put_off-absent k a (some v) ks h h' = h'
put_off-absent k a none [] h h' = ground arith
put_off-absent {V} k a none (x ∷ ks) h h' = ground (arith, put_off-absent {V = V} k a none ks h)

contains-keys :
    {V : Type 0} (k : Text) (d : Dict Text V) → lookup k d ≡ none → contains (keys d) k ≡ false
unfolding lookup
contains-keys k [] h = refl
contains-keys k ((j, v) ∷ d) h = ground (arith, contains-keys k d)

contains-keep :
    (p : Text → Bool) (k : Text) (ks : List Text)
    → contains ks k ≡ false
    → contains (keep p ks) k ≡ false
contains-keep p k [] h = refl
contains-keep p k (x ∷ ks) h = ground (arith, contains-keep p k ks)

contains-take :
    (m : ℕ) (k : Text) (ks : List Text) → contains ks k ≡ false → contains (take m ks) k ≡ false
contains-take zero k ks h = refl
contains-take (suc m) k [] h = refl
contains-take (suc m) k (x ∷ ks) h = ground (arith, contains-take m k ks)

map_symbols-absent :
    (k : Text) (symbol_map : Dict Text Text) (syms : List Text) (ids : Dict Text Text)
    → contains syms k ≡ false
    → lookup k ids ≡ none
    → lookup k (map_symbols symbol_map syms ids) ≡ none
unfolding map_symbols
map_symbols-absent k m [] ids h h' = h'
map_symbols-absent k m (s ∷ syms) ids h h' =
    map_symbols-absent k m syms (put s (unless_blank (lookup (upper s) m)) ids) (ground arith)
      (put-absent k s (unless_blank (lookup (upper s) m)) ids (ground arith) h')

add_quotes-absent :
    {F : Type 0} (k : Text) (answer : Text → Option F) (ids : Dict Text Text) (syms : List Text)
    (d : Dict Text F)
    → contains syms k ≡ false
    → lookup k d ≡ none
    → lookup k (add_quotes answer ids syms d) ≡ none
unfolding add_quotes
add_quotes-absent k answer ids [] d h h' = h'
add_quotes-absent k answer ids (s ∷ syms) d h h' =
    add_quotes-absent k answer ids syms (put s (answer (or_else (lookup s ids) [])) d)
      (ground arith) (put-absent k s (answer (or_else (lookup s ids) [])) d (ground arith) h')

cached_prices-absent :
    {F : Type 0} (sources : Sources F) (k : Text) (syms : List Text) (d : Dict Text F)
    (rest : List Text)
    → contains syms k ≡ false
    → lookup k d ≡ none
    → contains rest k ≡ false
    → (lookup k (cached_prices sources syms d rest).0 ≡ none)
      × (contains (cached_prices sources syms d rest).1 k ≡ false)
unfolding cached_prices
cached_prices-absent sources k [] d rest h h' h'' = (h', h'')
cached_prices-absent sources k (s ∷ syms) d rest h h' h'' =
    let p = sources.redis_price s in
    cached_prices-absent sources k syms (put s p d) (put_off s p rest) (ground arith)
      (put-absent k s p d (ground arith) h') (put_off-absent k s p rest (ground arith) h'')

split_cached-absent :
    (gecko : Gecko) (now : ℕ) (memo : PriceMemo) (k : Text) (syms : List Text) (d : Dict Text Text)
    (rest : List Text)
    → contains syms k ≡ false
    → lookup k d ≡ none
    → contains rest k ≡ false
    → (lookup k (split_cached gecko now memo syms d rest).0 ≡ none)
      × (contains (split_cached gecko now memo syms d rest).1 k ≡ false)
unfolding split_cached
split_cached-absent gecko now memo k [] d rest h h' h'' = (h', h'')
split_cached-absent gecko now memo k (s ∷ syms) d rest h h' h'' =
    let i = cached_id gecko now memo s in
    split_cached-absent gecko now memo k syms (put s i d) (put_off s i rest) (ground arith)
      (put-absent k s i d (ground arith) h') (put_off-absent k s i rest (ground arith) h'')

module _ (gecko : Gecko) (now : ℕ) (s : Text) (syms : List Text) (d : Dict Text Text)
    (memo : PriceMemo) where
  search_each_stop :
      found_id s (gecko.search s) ≡ none → search_each gecko now (s ∷ syms) d memo ≡ (d, memo)
  unfolding search_each
  search_each_stop h =
      ap
        (λ o. elim o [
          | none ↦ (d, memo)
          | some i ↦ search_each gecko now syms (put s i d) (remember now s i memo)
        ])
        h

  pub search_each_next :
      {i : Option Text}
      → found_id s (gecko.search s) ≡ some i
      → search_each gecko now (s ∷ syms) d memo
        ≡ search_each gecko now syms (put s i d) (remember now s i memo)
  unfolding search_each
  search_each_next h =
      ap
        (λ o. elim o [
          | none ↦ (d, memo)
          | some i ↦ search_each gecko now syms (put s i d) (remember now s i memo)
        ])
        h

search_each-absent :
    (gecko : Gecko) (now : ℕ) (k : Text) (syms : List Text) (d : Dict Text Text) (memo : PriceMemo)
    → contains syms k ≡ false
    → lookup k d ≡ none
    → lookup k (search_each gecko now syms d memo).0 ≡ none
search_each-absent gecko now k [] d memo h h' = unfold search_each in h'
search_each-absent gecko now k (s ∷ syms) d memo h h' =
    elim (Option-cases (found_id s (gecko.search s))) [
      | inl stop ↦ rw (search_each_stop gecko now s syms d memo stop) h'
      | inr (i, next) ↦ rw (search_each_next gecko now s syms d memo next) (
          search_each-absent gecko now k syms (put s i d) (remember now s i memo) (ground arith)
            (put-absent k s i d (ground arith) h'))
    ]

search_symbol_ids-absent :
    (gecko : Gecko) (now : ℕ) (k : Text) (syms : List Text) (memo : PriceMemo)
    → contains syms k ≡ false
    → lookup k (search_symbol_ids gecko now syms memo).0 ≡ none
unfolding search_symbol_ids lookup
search_symbol_ids-absent gecko now k syms memo h =
    let split = split_cached gecko now memo syms [] [] in
    let (known, rest) = split_cached-absent gecko now memo k syms [] [] h refl refl in
    search_each-absent gecko now k (take search_max_per_call split.1) split.0 memo
      (contains-take search_max_per_call k split.1 rest) known

complete_ids-absent :
    {F : Type 0} (sources : Sources F) (now : ℕ) (k : Text) (missing : List Text)
    (ids : Dict Text Text) (memo : PriceMemo)
    → contains missing k ≡ false
    → lookup k ids ≡ none
    → lookup k (complete_ids sources now missing ids memo).0 ≡ none
complete_ids-absent sources now k [] ids memo h h' = h'
complete_ids-absent sources now k (s ∷ missing) ids memo h h' =
    lookup-update-none k ids (search_symbol_ids sources.gecko now (s ∷ missing) memo).0
      (search_symbol_ids-absent sources.gecko now k (s ∷ missing) memo h)
    ∙ h'

resolve_ids-absent :
    {F : Type 0} (sources : Sources F) (now : ℕ) (k : Text) (syms : List Text)
    (found : Dict Text Text × PriceMemo)
    → contains syms k ≡ false
    → lookup k (resolve_ids sources now syms found).0 ≡ none
unfolding resolve_ids lookup
resolve_ids-absent sources now k syms ([], memo) h = refl
resolve_ids-absent sources now k syms (e ∷ m, memo) h =
    let ids = map_symbols (e ∷ m) syms [] in
    complete_ids-absent sources now k (missing_from ids syms) ids memo
      (contains-keep (λ s. not (has s ids)) k syms h) (map_symbols-absent k (e ∷ m) syms [] h refl)

add_answer-absent :
    {F : Type 0} (k : Text) (ids : Dict Text Text) (syms : List Text) (d : Dict Text F)
    (o : Option (Text → Option F))
    → lookup k d ≡ none
    → contains syms k ≡ false
    → lookup k (add_answer ids syms d o) ≡ none
add_answer-absent k ids syms d none h h' = h
add_answer-absent k ids syms d (some answer) h h' = add_quotes-absent k answer ids syms d h' h

ask_prices-absent :
    {F : Type 0} (sources : Sources F) (k : Text) (ids : Dict Text Text)
    (cached : Dict Text F × List Text)
    → lookup k cached.0 ≡ none
    → contains cached.1 k ≡ false
    → lookup k (ask_prices sources ids cached) ≡ none
unfolding ask_prices
ask_prices-absent sources k ids (d, []) h h' = h
ask_prices-absent sources k ids (d, s ∷ syms) h h' =
    add_answer-absent k ids (s ∷ syms) d
      (sources.simple_price (map (λ s. or_else (lookup s ids) []) (s ∷ syms))) h h'

-- CoinGecko's prices are for the symbols that were asked for.
pub fetch_coingecko_prices-absent :
    {F : Type 0} (sources : Sources F) (now : ℕ) (k : Text) (syms : List Text) (memo : PriceMemo)
    → contains syms k ≡ false
    → lookup k (fetch_coingecko_prices sources now syms memo).0 ≡ none
unfolding fetch_coingecko_prices lookup
fetch_coingecko_prices-absent sources now k [] memo h = refl
fetch_coingecko_prices-absent sources now k (s ∷ syms) memo h =
    let found = get_coingecko_symbol_map sources.gecko now memo in
    let ids = (resolve_ids sources now (s ∷ syms) found).0 in
    let gone = resolve_ids-absent sources now k (s ∷ syms) found h in
    let (a, b) =
      cached_prices-absent sources k (keys ids) [] [] (contains-keys k ids gone) refl refl in
    ask_prices-absent sources k ids (cached_prices sources (keys ids) [] []) a b
