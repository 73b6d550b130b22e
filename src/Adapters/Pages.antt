-- ===== src/Adapters/Pages.antt =====
-- Trade histories that are read page after page: `get_fills` of OKX, Coinbase and Kraken
-- (backend/app/exchanges). The exchange's answer to a page is an argument; `none` is an exception,
-- after which the method returns `None`.
use coin_hq.Base.{
  ℕ, zero, suc, ◌+◌, Bool, true, false, ◌||◌, not, List, [], ◌∷◌, ◌++◌, Option, none, some, map,
  if◌then◌else◌, ltb, leb, length, contains, nat_beq, ◌==◌, ◌&&◌,
}
use coin_hq.Base.Text.{Text, text, text_eq, upper, lower, is_truthy}
use coin_hq.Base.Dict.{Dict, lookup, insert}
use coin_hq.Adapters.Holdings.{normalize_kraken_asset}
use coin_hq.Number.{Number, maximum}
use coin_hq.CostBasis.{Fill}
use coin_hq.Adapters.Fills.{FillRow, KrakenPair, add_pairs, parse_okx, parse_coinbase, parse_kraken}
pub mod Newest

abbrev pub okx_page_limit : ℕ
okx_page_limit = 100

abbrev pub okx_max_pages : ℕ
okx_max_pages = 10

abbrev pub coinbase_max_pages : ℕ
coinbase_max_pages = 10

abbrev pub kraken_max_pages : ℕ
kraken_max_pages = 5

-- A row of OKX with its billId, a page of Coinbase with its cursor, and one of Kraken with the
-- count of all trades.
pub record OkxRow (F : Type 0) : Type 0 where
  pub row : FillRow F
  pub bill_id : Text

pub record CoinbasePage (F : Type 0) : Type 0 where
  pub fills : List (FillRow F)
  pub cursor : Text

pub record KrakenPage (F : Type 0) : Type 0 where
  pub trades : List (FillRow F)
  pub count : ℕ

module _ {F : Type 0} where
  -- `if fill is not None and fill.asset in wanted: fills.append(fill)`, for each row
  unfoldable pub keep_wanted : List Text → List (Option (Fill F)) → List (Fill F)
  keep_wanted wanted [] = []
  keep_wanted wanted (none ∷ fs) = keep_wanted wanted fs
  keep_wanted wanted (some f ∷ fs) =
      let rest = keep_wanted wanted fs in if contains wanted f.asset then f ∷ rest else rest

  abbrev pub last_bill : List (OkxRow F) → Text
  last_bill [] = []
  last_bill (r ∷ []) = r.bill_id
  last_bill (r ∷ s ∷ rs) = last_bill (s ∷ rs)

module _ {F : Type 0} ⦃n : Number F⦄ where
  -- What a page leaves to do: `go` reads the pages that follow.
  abbrev pub okx_turn :
      (Text → List (Fill F) → Option (List (Fill F)))
      → List Text
      → List (Fill F)
      → Option (List (OkxRow F))
      → Option (List (Fill F))
  okx_turn go wanted fills none = none
  okx_turn go wanted fills (some rows) =
      let fills' = fills ++ keep_wanted wanted (map (λ r. parse_okx r.row) rows) in
      let rest = go (last_bill rows) fills' in
      if ltb (length rows) okx_page_limit || last_bill rows == [] then some fills' else rest

  unfoldable pub okx_pages :
      (Text → Option (List (OkxRow F)))
      → List Text
      → ℕ
      → Text
      → List (Fill F)
      → Option (List (Fill F))
  unfolding keep_wanted parse_okx
  okx_pages serve wanted zero after fills = some fills
  okx_pages serve wanted (suc k) after fills =
      okx_turn (okx_pages serve wanted k) wanted fills (serve after)

  unfoldable pub okx_fills : (Text → Option (List (OkxRow F))) → List Text → Option (List (Fill F))
  unfolding okx_pages
  okx_fills serve [] = some []
  okx_fills serve (a ∷ assets) = okx_pages serve (map upper (a ∷ assets)) okx_max_pages [] []

  abbrev pub coinbase_turn :
      (Text → List (Fill F) → Option (List (Fill F)))
      → List Text
      → List (Fill F)
      → Option (CoinbasePage F)
      → Option (List (Fill F))
  coinbase_turn go wanted fills none = none
  coinbase_turn go wanted fills (some p) =
      let fills' = fills ++ keep_wanted wanted (map parse_coinbase p.fills) in
      let rest = go p.cursor fills' in
      if p.cursor == [] || nat_beq (length p.fills) 0 then some fills' else rest

  unfoldable pub coinbase_pages :
      (Text → Option (CoinbasePage F))
      → List Text
      → ℕ
      → Text
      → List (Fill F)
      → Option (List (Fill F))
  unfolding keep_wanted parse_coinbase
  coinbase_pages serve wanted zero cursor fills = some fills
  coinbase_pages serve wanted (suc k) cursor fills =
      coinbase_turn (coinbase_pages serve wanted k) wanted fills (serve cursor)

  unfoldable pub coinbase_fills :
      (Text → Option (CoinbasePage F)) → List Text → Option (List (Fill F))
  unfolding coinbase_pages
  coinbase_fills serve [] = some []
  coinbase_fills serve (a ∷ assets) =
      coinbase_pages serve (map upper (a ∷ assets)) coinbase_max_pages [] []

  abbrev pub kraken_turn :
      (ℕ → List (Fill F) → Option (List (Fill F)))
      → Dict Text (Text × Text)
      → List Text
      → ℕ
      → List (Fill F)
      → Option (KrakenPage F)
      → Option (List (Fill F))
  kraken_turn go pair_map wanted offset fills none = none
  kraken_turn go pair_map wanted offset fills (some p) =
      let fills' = fills ++ keep_wanted wanted (map (parse_kraken pair_map) p.trades) in
      let offset' = offset + length p.trades in
      let rest = go offset' fills' in
      if nat_beq (length p.trades) 0 || leb p.count offset' then some fills' else rest

  unfoldable pub kraken_pages :
      (ℕ → Option (KrakenPage F))
      → Dict Text (Text × Text)
      → List Text
      → ℕ
      → ℕ
      → List (Fill F)
      → Option (List (Fill F))
  unfolding keep_wanted parse_kraken
  kraken_pages serve pair_map wanted zero offset fills = some fills
  kraken_pages serve pair_map wanted (suc k) offset fills =
      kraken_turn (kraken_pages serve pair_map wanted k) pair_map wanted offset fills (serve offset)

  -- The pairs are those of Kraken's public list, or `none` for a failed call.
  unfoldable pub kraken_fills :
      Option (List KrakenPair) → (ℕ → Option (KrakenPage F)) → List Text → Option (List (Fill F))
  unfolding kraken_pages add_pairs
  kraken_fills pairs serve [] = some []
  kraken_fills none serve (a ∷ assets) = none
  kraken_fills (some pairs) serve (a ∷ assets) =
      kraken_pages serve (add_pairs pairs []) (map upper (a ∷ assets)) kraken_max_pages 0 []
