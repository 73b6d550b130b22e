-- ===== src/CostBasis.antt =====
-- Average buy prices from the exchanges' own trade history: `compute_avco` of
-- backend/app/services/cost_basis_service.py. `CostBasis.Service` is the rest of that file.
pub mod Figures
pub mod PerAsset
pub mod Service
pub mod Memory
use coin_hq.Base.{
  ℕ, Bool, true, false, not, ◌&&◌, ◌||◌, List, [], ◌∷◌, map, Option, none, some, if◌then◌else◌, ltb,
  contains, ◌==◌,
}
use coin_hq.Base.Text.{Text, text, text_eq}
use coin_hq.Base.Dict.{Dict, lookup, insert, get_or}
use coin_hq.Base.Order.{sorted_items}
use coin_hq.Number.{Number, minimum}

-- `Fill` of backend/app/exchanges/base.py
pub record Fill (F : Type 0) : Type 0 where
  pub asset : Text
  pub side : Text
  pub qty : F
  pub quote_asset : Text
  pub quote_qty : F
  pub fee_asset : Text
  pub fee_qty : F
  pub ts_ms : ℕ

-- `_Position`
pub record Position (F : Type 0) : Type 0 where
  pub qty : F
  pub cost : F
  pub bought_qty : F
  pub has_buys : Bool
  pub skipped_non_stable : Bool

-- backend/app/schemas/cost_basis.py
pub data Coverage : Type 0 where
  full partial nothing : Coverage

pub record AssetCostBasis (F : Type 0) : Type 0 where
  pub asset : Text
  pub avg_buy_price : Option F
  pub bought_qty : F
  pub coverage : Coverage

-- STABLE_QUOTES
abbrev pub stable_quotes : List Text
stable_quotes =
    text "USDT"
    ∷ text "USDC"
    ∷ text "FDUSD"
    ∷ text "BUSD"
    ∷ text "TUSD"
    ∷ text "DAI"
    ∷ text "USD"
    ∷ []

unfoldable pub is_stable : Text → Bool
is_stable asset = contains stable_quotes asset

module _ {F : Type 0} where
  -- `sorted(fills, key=lambda x: x.ts_ms)`, which keeps the order of fills of one time
  unfoldable pub by_ts : Fill F → List (Fill F) → List (Fill F)
  by_ts f [] = f ∷ []
  by_ts f (g ∷ gs) = if ltb g.ts_ms f.ts_ms then g ∷ by_ts f gs else f ∷ g ∷ gs

  unfoldable pub sort_by_ts : List (Fill F) → List (Fill F)
  unfolding by_ts
  sort_by_ts [] = []
  sort_by_ts (f ∷ fs) = by_ts f (sort_by_ts fs)

module _ {F : Type 0} ⦃n : Number F⦄ where
  open n use {nought, ratio, add, sub, mul, div, le, lt}

  -- _EPS
  abbrev pub dust : F
  dust = ratio 1 1_000_000_000_000

  abbrev pub no_position : Position F
  no_position = record {
    qty = nought;
    cost = nought;
    bought_qty = nought;
    has_buys = false;
    skipped_non_stable = false;
  }

  -- What a buy credits, and what it costs: a fee in the asset comes off the one, a fee in a
  -- stablecoin goes on the other.
  unfoldable pub received : Fill F → F
  received f = if f.fee_asset == f.asset then sub f.qty f.fee_qty else f.qty

  unfoldable pub paid : Fill F → F
  paid f =
      if f.fee_asset == f.asset
      then f.quote_qty
      else if is_stable f.fee_asset
      then add f.quote_qty f.fee_qty
      else f.quote_qty

  unfoldable pub fill_buy : Fill F → Position F → Position F
  unfolding received paid
  fill_buy f pos = if le (received f) nought then pos else record pos {
    qty = add pos.qty (received f);
    cost = add pos.cost (paid f);
    bought_qty = add pos.bought_qty (received f);
    has_buys = true;
  }

  -- A position of dust is closed.
  abbrev pub close_dust : Position F → Position F
  close_dust pos = if le pos.qty dust then record pos { qty = nought; cost = nought } else pos

  unfoldable pub fill_sell : Fill F → Position F → Position F
  unfolding minimum
  fill_sell f pos =
      let sold = minimum f.qty pos.qty in
      let avg = div pos.cost pos.qty in
      if lt nought sold && lt dust pos.qty
      then close_dust (record pos { cost = sub pos.cost (mul sold avg); qty = sub pos.qty sold })
      else pos

  -- The body of the loop, for a fill of an asset that is held.
  unfoldable pub apply_fill : Fill F → Position F → Position F
  unfolding fill_buy fill_sell
  apply_fill f pos =
      if not (is_stable f.quote_asset)
      then record pos { skipped_non_stable = true }
      else if le f.qty nought
      then pos
      else if f.side == text "buy"
      then fill_buy f pos
      else if f.side == text "sell"
      then fill_sell f pos
      else pos

  -- `positions`: an entry for every asset that is held, and for no other
  abbrev pub start_positions : Dict Text F → Dict Text (Position F)
  start_positions [] = []
  start_positions ((asset, held) ∷ d) = (asset, no_position) ∷ start_positions d

  unfoldable pub add_fill : Dict Text (Position F) → Fill F → Dict Text (Position F)
  add_fill positions f = elim (lookup f.asset positions) [
    | none ↦ positions
    | some pos ↦ insert f.asset (apply_fill f pos) positions
  ]

  unfoldable pub add_fills : Dict Text (Position F) → List (Fill F) → Dict Text (Position F)
  add_fills positions [] = positions
  add_fills positions (f ∷ fs) = add_fills (add_fill positions f) fs

  -- Whether the position explains what the venue holds, up to one percent.
  abbrev pub explains : F → Position F → Bool
  explains held_qty pos = le held_qty nought || le (mul held_qty (ratio 99 100)) pos.qty

  unfoldable pub asset_cost_basis : Dict Text F → Text × Position F → AssetCostBasis F
  asset_cost_basis held (asset, pos) =
      if not pos.has_buys || le pos.qty dust
      then record {
        asset = asset;
        avg_buy_price = none;
        bought_qty = pos.bought_qty;
        coverage = nothing;
      }
      else record {
        asset = asset;
        avg_buy_price = some (div pos.cost pos.qty);
        bought_qty = pos.bought_qty;
        coverage =
            if explains (get_or asset nought held) pos && not pos.skipped_non_stable
            then full
            else partial;
      }

  unfoldable pub compute_avco : List (Fill F) → Dict Text F → List (AssetCostBasis F)
  unfolding add_fills add_fill apply_fill sort_by_ts sorted_items asset_cost_basis
  compute_avco fills held =
      map (asset_cost_basis held)
        (sorted_items (add_fills (start_positions held) (sort_by_ts fills)))
