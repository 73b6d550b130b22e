-- ===== src/Prices/Ranking.antt =====
-- Which coin a ticker symbol stands for (backend/app/services/price_service.py).
use coin_hq.Base.{
  ℕ, Bool, List, [], ◌∷◌, ◌++◌, Option, none, some, ◌&&◌, ◌≡◌, refl, sym, ap, ◌∙◌, arith, find,
  ◌==◌,
}
use coin_hq.Base.Text.{Text, text_eq, text_beq, text_beq_iff, is_truthy}
use coin_hq.Base.Dict.{Dict, lookup, insert, lookup-insert, HasUniqueKeys, lookup-update, first_of}
use coin_hq.Prices.Symbols.{
  Coin, Answer, symbol_of, id_of, add_ranked, page_rows, add_pages, fetch_market_cap_symbol_map,
  id_overrides, PriceMemo, fresh, Gecko, unless_empty, build_symbol_map, get_coingecko_symbol_map,
}

-- A coin that may stand for a symbol.
abbrev pub is_for : Text → Coin → Bool
is_for s c = symbol_of c == s && (is_truthy (symbol_of c) && is_truthy (id_of c))

-- The id of the first such coin.
abbrev pub ranked_id : Text → List Coin → Option Text
ranked_id s cs = elim (find (is_for s) cs) [ none ↦ none | some c ↦ some (id_of c) ]

-- The rows of the pages, up to the first that is refused, fails or is empty.
abbrev pub served : (ℕ → Answer) → List ℕ → List Coin
served markets [] = []
served markets (page ∷ pages) = elim (page_rows (markets page)) [
  | none ↦ []
  | some cs ↦ cs ++ served markets pages
]

lookup-add_ranked :
    (s : Text) (m : Dict Text Text) (cs : List Coin)
    → lookup s (add_ranked m cs) ≡ first_of (lookup s m) (ranked_id s cs)
unfolding add_ranked
lookup-add_ranked s m [] = ground arith
lookup-add_ranked s m (c ∷ cs) = ground (
  arith,
  lookup-add_ranked s m cs,
  lookup-add_ranked s (insert (symbol_of c) (id_of c) m) cs,
  lookup-insert s (symbol_of c) (id_of c) m,
  text_beq_iff (symbol_of c) s,
  text_beq_iff s (symbol_of c),
)

ranked_id-append :
    (s : Text) (cs ds : List Coin)
    → ranked_id s (cs ++ ds) ≡ first_of (ranked_id s cs) (ranked_id s ds)
ranked_id-append s [] ds = refl
ranked_id-append s (c ∷ cs) ds = ground (arith, ranked_id-append s cs ds)

lookup-add_page :
    (markets : ℕ → Answer) (s : Text) (pages : List ℕ) (m : Dict Text Text) (o : Option (List Coin))
    → ((m' : Dict Text Text)
        → lookup s (add_pages markets pages m')
          ≡ first_of (lookup s m') (ranked_id s (served markets pages)))
    → lookup s (elim o [ none ↦ m | some cs ↦ add_pages markets pages (add_ranked m cs) ])
      ≡ first_of
          (lookup s m)
          (ranked_id s (elim o [ none ↦ [] | some cs ↦ cs ++ served markets pages ]))
lookup-add_page markets s pages m none rest = ground arith
lookup-add_page markets s pages m (some cs) rest = ground (
  arith,
  rest (add_ranked m cs),
  lookup-add_ranked s m cs,
  ranked_id-append s cs (served markets pages),
)

lookup-add_pages :
    (markets : ℕ → Answer) (s : Text) (pages : List ℕ) (m : Dict Text Text)
    → lookup s (add_pages markets pages m)
      ≡ first_of (lookup s m) (ranked_id s (served markets pages))
unfolding add_pages
lookup-add_pages markets s [] m = ground arith
lookup-add_pages markets s (page ∷ pages) m =
    lookup-add_page markets s pages m (page_rows (markets page)) (lookup-add_pages markets s pages)

overrides-HasUniqueKeys : HasUniqueKeys id_overrides
unfolding lookup text_beq
overrides-HasUniqueKeys = ground arith

lookup-fetch_market_cap_symbol_map :
    (markets : ℕ → Answer) (s : Text)
    → lookup s (fetch_market_cap_symbol_map markets)
      ≡ ranked_id s (served markets (1 ∷ 2 ∷ 3 ∷ 4 ∷ []))
unfolding fetch_market_cap_symbol_map lookup
lookup-fetch_market_cap_symbol_map markets s = lookup-add_pages markets s (1 ∷ 2 ∷ 3 ∷ 4 ∷ []) []

-- A symbol stands for its override, or else for the first coin that bears it in the pages of
-- coins by market value, up to the first page that is refused, fails or is empty; where no cache
-- holds a map, and the pages give at least one coin.
pub get_coingecko_symbol_map-ranked :
    (gecko : Gecko) (now : ℕ) (memo : PriceMemo) (s : Text) (c : Text × Text) (m : Dict Text Text)
    → unless_empty gecko.redis_coin_list ≡ none
    → unless_empty (fresh now memo.coin_list) ≡ none
    → fetch_market_cap_symbol_map gecko.markets ≡ c ∷ m
    → lookup s (get_coingecko_symbol_map gecko now memo).0
      ≡ first_of (lookup s id_overrides) (ranked_id s (served gecko.markets (1 ∷ 2 ∷ 3 ∷ 4 ∷ [])))
unfolding get_coingecko_symbol_map build_symbol_map
get_coingecko_symbol_map-ranked gecko now memo s c m r f e =
    rw (r, f)
      (rw e (
        lookup-update s (c ∷ m) id_overrides overrides-HasUniqueKeys
        ∙ ap (first_of (lookup s id_overrides))
            (ap (lookup s) (sym e) ∙ lookup-fetch_market_cap_symbol_map gecko.markets s)))
