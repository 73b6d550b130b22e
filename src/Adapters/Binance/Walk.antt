-- ===== src/Adapters/Binance/Walk.antt =====
-- `get_fills` of backend/app/exchanges/binance.py: one walk for each market, all of them at once,
-- on one budget of calls. The order in which the exchange's answers come in is an argument, a list
-- of the walks that are answered.
use coin_hq.Base.{
  ℕ, zero, suc, ◌+◌, ◌-◌, Bool, true, false, List, [], ◌∷◌, ◌++◌, Option, none, some, ◌&&◌, not,
  map, if◌then◌else◌, ltb, length, contains, keep, ◌==◌,
}
use coin_hq.Base.Text.{Text, text, text_eq, upper}
use coin_hq.CostBasis.{Fill}

abbrev pub fill_page_limit : ℕ
fill_page_limit = 1000

abbrev pub fill_max_calls : ℕ
fill_max_calls = 150

-- `_FILL_QUOTES`
abbrev pub fill_quotes : List Text
fill_quotes = text "USDT" ∷ text "USDC" ∷ text "FDUSD" ∷ []

-- A row of an answer: its id, and the fill that it parses to.
pub record Row (F : Type 0) : Type 0 where
  pub id : Option ℕ
  pub fill : Option (Fill F)

-- Status 400, a failure, a body that is no list, or rows.
pub data Answer (F : Type 0) : Type 0 where
  bad_request : Answer F
  failure : Answer F
  no_list : Answer F
  rows : List (Row F) → Answer F

-- A walk waits for an answer until it is done.
pub record Walk (F : Type 0) : Type 0 where
  pub base : Text
  pub quote : Text
  pub from_id : ℕ
  pub out : List (Fill F)
  pub is_done : Bool

-- The calls that are left, the answers that have come, and the walks.
pub record Pool (F : Type 0) : Type 0 where
  pub left : ℕ
  pub answered : ℕ
  pub walks : List (Walk F)

-- Whether a market is listed; nothing is known without the list.
abbrev pub has_market : Option (List Text) → Text → Bool
has_market none symbol = true
has_market (some symbols) symbol = contains symbols symbol

-- The markets of an asset that are listed, or all of them if the list could not be fetched.
unfoldable pub markets_of : Option (List Text) → List Text → List (Text × Text)
markets_of listed [] = []
markets_of listed (a ∷ assets) =
    map (λ quote. (upper a, quote))
      (keep (λ quote. not (upper a == quote) && has_market listed (upper a ++ quote)) fill_quotes)
    ++ markets_of listed assets

module _ {F : Type 0} where
  abbrev pub last_id : List (Row F) → Option ℕ
  last_id [] = none
  last_id (r ∷ []) = r.id
  last_id (r ∷ s ∷ rs) = last_id (s ∷ rs)

  -- The fills of the rows that parse.
  abbrev pub fills_of : List (Row F) → List (Fill F)
  fills_of [] = []
  fills_of (r ∷ rs) = elim r.fill [ none ↦ fills_of rs | some f ↦ f ∷ fills_of rs ]

  abbrev pub stop : Walk F → Walk F
  stop w = record w { is_done = true }

  -- The next page begins after the last row; a row without an id ends the walk.
  abbrev pub turn_page : Option ℕ → Walk F → Walk F
  turn_page none w = stop w
  turn_page (some i) w = record w { from_id = i + 1 }

  abbrev pub add_rows : List (Row F) → Walk F → Walk F
  add_rows rs w = record w { out = w.out ++ fills_of rs }

  -- What a walk does with an answer; `none` is an exception.
  unfoldable pub receive : Answer F → Walk F → Option (Walk F)
  receive bad_request w = some (stop w)
  receive failure w = none
  receive no_list w = some (stop w)
  receive (rows rs) w = some (
      if ltb (length rs) fill_page_limit
      then stop (add_rows rs w)
      else turn_page (last_id rs) (add_rows rs w))

  -- A walk that goes on takes a call from the budget, or ends with what it has.
  unfoldable pub claim : ℕ → Walk F → ℕ × Walk F
  claim left w =
      if w.is_done then (left, w) else if ltb 0 left then (left - 1, w) else (left, stop w)

  abbrev pub new_walk : Text → Text → Walk F
  new_walk base quote = record {
    base = base;
    quote = quote;
    from_id = 0;
    out = [];
    is_done = false;
  }

  -- All walks take their first call in order.
  unfoldable pub start_walks : ℕ → List (Text × Text) → ℕ × List (Walk F)
  unfolding claim
  start_walks left [] = (left, [])
  start_walks left ((base, quote) ∷ markets) =
      let (left', w') = claim left (new_walk base quote) in
      let (left'', ws) = start_walks left' markets in (left'', w' ∷ ws)

  unfoldable pub start : List (Text × Text) → Pool F
  unfolding start_walks
  start markets =
      let (left, ws) = start_walks fill_max_calls markets in
      record { left = left; answered = 0; walks = ws }

  abbrev pub put_first : List (Walk F) → Option (ℕ × Walk F) → Option (ℕ × ℕ × List (Walk F))
  put_first ws none = none
  put_first ws (some (left, w)) = some (left, 1, w ∷ ws)

  abbrev pub put_after : Walk F → Option (ℕ × ℕ × List (Walk F)) → Option (ℕ × ℕ × List (Walk F))
  put_after w none = none
  put_after w (some (left, n, ws)) = some (left, n, w ∷ ws)

  abbrev pub claim_again : ℕ → Option (Walk F) → Option (ℕ × Walk F)
  claim_again left none = none
  claim_again left (some w) = some (claim left w)

-- The exchange answers a walk by its market and the id that it asks from.
module _ {F : Type 0} (serve : Text → Text → ℕ → Answer F) where
  abbrev pub advance : ℕ → Walk F → Option (ℕ × Walk F)
  advance left w = claim_again left (receive (serve w.base w.quote w.from_id) w)

  abbrev pub answer_first : Bool → ℕ → Walk F → List (Walk F) → Option (ℕ × ℕ × List (Walk F))
  answer_first true left w ws = some (left, 0, w ∷ ws)
  answer_first false left w ws = put_first ws (advance left w)

  -- The answer for one of the walks, with how many came in: none for a walk that is done.
  unfoldable pub resume_at : ℕ → ℕ → List (Walk F) → Option (ℕ × ℕ × List (Walk F))
  unfolding claim receive
  resume_at i left [] = some (left, 0, [])
  resume_at zero left (w ∷ ws) = answer_first w.is_done left w ws
  resume_at (suc i) left (w ∷ ws) = put_after w (resume_at i left ws)

  abbrev pub update_pool : ℕ → Option (ℕ × ℕ × List (Walk F)) → Option (Pool F)
  update_pool answered none = none
  update_pool answered (some (left, n, ws)) =
      some record { left = left; answered = answered + n; walks = ws }

  unfoldable pub answer_walk : ℕ → Pool F → Option (Pool F)
  unfolding resume_at
  answer_walk i p = update_pool p.answered (resume_at i p.left p.walks)

  -- The answers of a schedule; `none` is an exception, and `get_fills` returns `None`.
  unfoldable pub run : List ℕ → Option (Pool F) → Option (Pool F)
  run schedule none = none
  run [] (some p) = some p
  run (i ∷ schedule) (some p) = run schedule (answer_walk i p)

abbrev pub all_fills : {F : Type 0} → List (Walk F) → List (Fill F)
all_fills [] = []
all_fills (w ∷ ws) = w.out ++ all_fills ws
