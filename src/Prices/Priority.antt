-- ===== src/Prices/Priority.antt =====
-- Which source prices an asset (backend/app/services/price_service.py).
use coin_hq.Base.{
  ℕ, Bool, true, false, List, [], ◌∷◌, Option, none, some, ◌&&◌, not, ◌≡◌, refl, ap, ◌∙◌, arith,
  contains, keep, map, if◌then◌else◌, is_some, or_else, ◌==◌,
}
use coin_hq.Base.Text.{Text, text_eq, text_beq_iff}
use coin_hq.Base.Dict.{
  first_of, lookup-update, Dict, lookup, keys, lookup-insert, HasUniqueKeys, insert-HasUniqueKeys,
}
use coin_hq.Number.{Number}
use coin_hq.Prices.Symbols.{PriceMemo, has, put, get_coingecko_symbol_map}
use coin_hq.Prices.Absent.{fetch_coingecko_prices-absent}
use coin_hq.Prices.Service.{
  Sources, own_prices, pick, add_answer, dollar_coins, missing_from, add_dollar_coins,
  cached_prices, add_quotes, ask_prices, binance_prices, complete_prices, fetch_coingecko_prices,
  get_usd_prices, resolve_ids,
}

lookup-put :
    {V : Type 0} (k a : Text) (o : Option V) (d : Dict Text V)
    → lookup k (put a o d) ≡ (if k == a then first_of o (lookup k d) else lookup k d)
lookup-put k a none d = ground arith
lookup-put k a (some v) d = ground (arith, lookup-insert k a v d)

put-HasUniqueKeys :
    {V : Type 0} (k : Text) (o : Option V) (d : Dict Text V)
    → HasUniqueKeys d
    → HasUniqueKeys (put k o d)
put-HasUniqueKeys k none d h = h
put-HasUniqueKeys k (some v) d h = insert-HasUniqueKeys k v d h

module _ {F : Type 0} where
  lookup-pick :
      (k : Text) (source : Dict Text F) (assets : List Text) (d : Dict Text F)
      → lookup k (pick source assets d)
        ≡ (if contains assets k then first_of (lookup k source) (lookup k d) else lookup k d)
  unfolding pick
  lookup-pick k source [] d = refl
  lookup-pick k source (a ∷ assets) d = ground (
    arith,
    lookup-pick k source assets (put a (lookup a source) d),
    lookup-put k a (lookup a source) d,
    text_beq_iff k a,
  )

  cached_prices-HasUniqueKeys :
      (sources : Sources F) (syms : List Text) (d : Dict Text F) (rest : List Text)
      → HasUniqueKeys d
      → HasUniqueKeys (cached_prices sources syms d rest).0
  unfolding cached_prices
  cached_prices-HasUniqueKeys sources [] d rest h = h
  cached_prices-HasUniqueKeys sources (s ∷ syms) d rest h =
      cached_prices-HasUniqueKeys sources syms (put s (sources.redis_price s) d) _
        (put-HasUniqueKeys s (sources.redis_price s) d h)

  add_quotes-HasUniqueKeys :
      (answer : Text → Option F) (ids : Dict Text Text) (syms : List Text) (d : Dict Text F)
      → HasUniqueKeys d
      → HasUniqueKeys (add_quotes answer ids syms d)
  unfolding add_quotes
  add_quotes-HasUniqueKeys answer ids [] d h = h
  add_quotes-HasUniqueKeys answer ids (s ∷ syms) d h =
      add_quotes-HasUniqueKeys answer ids syms _
        (put-HasUniqueKeys s (answer (or_else (lookup s ids) [])) d h)

  add_answer-HasUniqueKeys :
      (ids : Dict Text Text) (syms : List Text) (d : Dict Text F) (o : Option (Text → Option F))
      → HasUniqueKeys d
      → HasUniqueKeys (add_answer ids syms d o)
  add_answer-HasUniqueKeys ids syms d none h = h
  add_answer-HasUniqueKeys ids syms d (some answer) h = add_quotes-HasUniqueKeys answer ids syms d h

  ask_prices-HasUniqueKeys :
      (sources : Sources F) (ids : Dict Text Text) (cached : Dict Text F × List Text)
      → HasUniqueKeys cached.0
      → HasUniqueKeys (ask_prices sources ids cached)
  unfolding ask_prices
  ask_prices-HasUniqueKeys sources ids (d, []) h = h
  ask_prices-HasUniqueKeys sources ids (d, s ∷ syms) h =
      add_answer-HasUniqueKeys ids (s ∷ syms) d
        (sources.simple_price (map (λ s. or_else (lookup s ids) []) (s ∷ syms))) h

  fetch_coingecko_prices-HasUniqueKeys :
      (sources : Sources F) (now : ℕ) (syms : List Text) (memo : PriceMemo)
      → HasUniqueKeys (fetch_coingecko_prices sources now syms memo).0
  unfolding fetch_coingecko_prices
  fetch_coingecko_prices-HasUniqueKeys sources now [] memo = tt
  fetch_coingecko_prices-HasUniqueKeys sources now (s ∷ syms) memo =
      let ids =
        (resolve_ids sources now (s ∷ syms) (get_coingecko_symbol_map sources.gecko now memo)).0 in
      ask_prices-HasUniqueKeys sources ids (cached_prices sources (keys ids) [] [])
        (cached_prices-HasUniqueKeys sources (keys ids) [] [] tt)

contains-keep_all :
    (p : Text → Bool) (k : Text) (ks : List Text) → contains (keep p ks) k ≡ (contains ks k && p k)
contains-keep_all p k [] = refl
contains-keep_all p k (x ∷ ks) = ground (arith, contains-keep_all p k ks, text_beq_iff k x)

-- A price of one's own comes first, as CoinGecko is asked for nothing that has one.
own_first :
    {V : Type 0} (asked sent : Bool) (own found known : Option V)
    → known ≡ (if asked then own else none)
    → sent ≡ (asked && not (is_some own))
    → (sent ≡ false → found ≡ none)
    → first_of found known ≡ (if asked then first_of own found else none)
own_first true sent none found known h h' absent = ground arith
own_first true sent (some v) found known h h' absent = ground arith
own_first false sent own found known h h' absent = ground arith

keep-cong :
    (p q : Text → Bool) (xs : List Text)
    → ((x : Text) → contains xs x ≡ true → p x ≡ q x)
    → keep p xs ≡ keep q xs
keep-cong p q [] h = refl
keep-cong p q (x ∷ xs) h =
    ground (arith, h x, text_beq_iff x x, keep-cong p q xs (λ y there. h y (ground arith)))

module _ {F : Type 0} ⦃n : Number F⦄ where
  -- The prices before CoinGecko is asked.
  abbrev pub own_price : Sources F → Text → Option F
  own_price sources a = first_of (lookup a dollar_coins) (lookup a (binance_prices sources))

  -- The assets that CoinGecko is asked for.
  abbrev pub unpriced : Sources F → List Text → List Text
  unpriced sources = keep (λ a. not (is_some (own_price sources a)))

  lookup-own_prices :
      (sources : Sources F) (assets : List Text) (a : Text)
      → lookup a (own_prices sources assets)
        ≡ (if contains assets a then own_price sources a else none)
  unfolding own_prices add_dollar_coins
  lookup-own_prices sources assets a =
      let binance = pick (binance_prices sources) assets [] in
      let none_yet : lookup {V = F} a [] ≡ none = unfold lookup in refl in
      ground (
        arith,
        lookup-pick a dollar_coins assets binance,
        lookup-pick a (binance_prices sources) assets [],
        none_yet,
      )

  missing_from-own_prices :
      (sources : Sources F) (assets : List Text)
      → missing_from (own_prices sources assets) assets ≡ unpriced sources assets
  missing_from-own_prices sources assets =
      keep-cong (λ s. not (has s (own_prices sources assets)))
        (λ a. not (is_some (own_price sources a))) assets
        (λ a asked. ap (λ o. not (is_some o)) (lookup-own_prices sources assets a ∙ ground arith))

  lookup-complete_prices :
      (sources : Sources F) (now : ℕ) (memo : PriceMemo) (d : Dict Text F) (us : List Text)
      (a : Text)
      → lookup a (complete_prices sources now memo d us).0
        ≡ first_of (lookup a (fetch_coingecko_prices sources now us memo).0) (lookup a d)
  lookup-complete_prices sources now memo d [] a = unfold fetch_coingecko_prices lookup in refl
  lookup-complete_prices sources now memo d (u ∷ us) a =
      lookup-update a d (fetch_coingecko_prices sources now (u ∷ us) memo).0
        (fetch_coingecko_prices-HasUniqueKeys sources now (u ∷ us) memo)

  -- Which source prices an asset. An asset that was not asked for has no price. One that was
  -- has the dollar of a stablecoin, or else Binance's price, or else what CoinGecko answers to
  -- a call for just the assets that have neither; if all have one, CoinGecko prices nothing.
  pub get_usd_prices-lookup :
      (sources : Sources F) (now : ℕ) (assets : List Text) (memo : PriceMemo) (a : Text)
      → lookup a (get_usd_prices sources now assets memo).0 ≡ (
          if contains assets a
          then first_of
              (own_price sources a)
              (lookup a (fetch_coingecko_prices sources now (unpriced sources assets) memo).0)
          else none)
  unfolding get_usd_prices
  get_usd_prices-lookup sources now [] memo a = unfold lookup in refl
  get_usd_prices-lookup sources now (x ∷ assets) memo a =
      let assets' : List Text = x ∷ assets in
      let found = (fetch_coingecko_prices sources now (unpriced sources assets') memo).0 in
      let absent = fetch_coingecko_prices-absent sources now a (unpriced sources assets') memo in
      let among = contains-keep_all (λ a. not (is_some (own_price sources a))) a assets' in
      let own = lookup-own_prices sources assets' a in
      ap (λ us. lookup a (complete_prices sources now memo (own_prices sources assets') us).0)
        (missing_from-own_prices sources assets')
      ∙ lookup-complete_prices sources now memo (own_prices sources assets')
          (unpriced sources assets') a
      ∙ own_first (contains assets' a) (contains (unpriced sources assets') a) (own_price sources a)
          (lookup a found) (lookup a (own_prices sources assets')) own among absent
