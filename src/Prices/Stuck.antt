-- ===== src/Prices/Stuck.antt =====
-- The budget of searches is spent on the same symbols again and again
-- (backend/app/services/price_service.py).
use coin_hq.Base.{take, ℕ, List, [], ◌∷◌, none, some, ◌≡◌, refl, ◌∙◌, All}
use coin_hq.Base.Text.{Text}
use coin_hq.Base.Dict.{Dict}
use coin_hq.Prices.Symbols.{PriceMemo, Gecko}
use coin_hq.Prices.Search.{
  search_max_per_call, found_id, split_cached, search_each, search_symbol_ids,
}
use coin_hq.Prices.Absent.{search_each_next}

-- A search for the symbol fails or has no match.
abbrev pub IsUnknown : Gecko → Text → Type 0
IsUnknown gecko s = found_id s (gecko.search s) ≡ some none

search_each_unknown :
    (gecko : Gecko) (now : ℕ) (syms : List Text) (d : Dict Text Text) (memo : PriceMemo)
    → All (IsUnknown gecko) syms
    → search_each gecko now syms d memo ≡ (d, memo)
unfolding search_each
search_each_unknown gecko now [] d memo h = refl
search_each_unknown gecko now (s ∷ syms) d memo (h, hs) =
    search_each_next gecko now s syms d memo h ∙ search_each_unknown gecko now syms d memo hs

-- If the first six symbols that no cache knows have no match, or their searches fail, then the
-- call finds no id for any further symbol, and leaves the memo as it was, so that the next call
-- searches for the same six again.
pub search_symbol_ids_stuck :
    (gecko : Gecko) (now : ℕ) (symbols : List Text) (memo : PriceMemo)
    → let (known, pending) = split_cached gecko now memo symbols [] [] in
      All (IsUnknown gecko) (take search_max_per_call pending)
      → search_symbol_ids gecko now symbols memo ≡ (known, memo)
unfolding search_symbol_ids
search_symbol_ids_stuck gecko now symbols memo h =
    let split = split_cached gecko now memo symbols [] [] in
    search_each_unknown gecko now (take search_max_per_call split.1) split.0 memo h
