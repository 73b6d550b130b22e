-- ===== src/Pnl.antt =====
-- Realized profit and loss by average cost: backend/app/services/pnl_service.py, with the endpoint of
-- backend/app/api/v1/pnl.py. Orders with one timestamp keep the order in which they were stored.
pub mod Figures
pub mod Accounts
pub mod PerAsset
use coin_hq.Base.{
  ℕ, ◌+◌, suc, Bool, true, false, not, ◌&&◌, List, [], ◌∷◌, map, Option, none, some, if◌then◌else◌,
  keep, ltb, or_else, is_some, ◌==◌, nat_eq,
}
use coin_hq.Base.Text.{Text, text, text_eq, upper}
use coin_hq.Base.Dict.{Dict, lookup, insert, get_or}
use coin_hq.Base.Order.{sorted_items}
use coin_hq.Number.{Number, minimum, sum}
use coin_hq.Store.{User, TradeOrder, Db, Action, ◌>>=◌, ◌>>◌, gets}
use coin_hq.Profiles.{owned_profile}

-- `_AssetState`
pub record AssetState (F : Type 0) : Type 0 where
  pub qty : F
  pub cost_basis_total : F
  pub realized_pnl : F
  pub total_bought_usd : F
  pub total_sold_usd : F
  pub buy_count : ℕ
  pub sell_count : ℕ

pub record AssetPnl (F : Type 0) : Type 0 where
  pub base_asset : Text
  pub current_qty : F
  pub avg_cost : Option F
  pub realized_pnl_usd : F
  pub total_bought_usd : F
  pub total_sold_usd : F
  pub buy_count : ℕ
  pub sell_count : ℕ

pub record ProfilePnl (F : Type 0) : Type 0 where
  pub assets : List (AssetPnl F)
  pub total_realized_pnl_usd : F

-- What the loop reads of an order; the query leaves out orders without an amount.
pub record Trade (F : Type 0) : Type 0 where
  pub base_asset : Text
  pub side : Text
  pub amount : F
  pub usd_value : F

module _ {F : Type 0} where
  -- The rows of the query, in ascending order of `created_at`.
  abbrev is_filled : ℕ → TradeOrder F → Bool
  is_filled profile_id o =
      o.profile_id == profile_id && o.status == text "filled" && is_some o.amount

  unfoldable pub by_time : TradeOrder F → List (TradeOrder F) → List (TradeOrder F)
  by_time o [] = o ∷ []
  by_time o (p ∷ ps) = if ltb p.created_at o.created_at then p ∷ by_time o ps else o ∷ p ∷ ps

  unfoldable pub sort_by_time : List (TradeOrder F) → List (TradeOrder F)
  unfolding by_time
  sort_by_time [] = []
  sort_by_time (o ∷ os) = by_time o (sort_by_time os)

  unfoldable pub trades_of : List (TradeOrder F) → List (Trade F)
  trades_of [] = []
  trades_of (o ∷ os) = elim o.amount [
    | none ↦ trades_of os
    | some amount ↦
        record {
          base_asset = o.base_asset;
          side = o.side;
          amount = amount;
          usd_value = o.usd_value;
        }
        ∷ trades_of os
  ]

  unfoldable pub filled_orders : ℕ → Db F → List (Trade F)
  unfolding sort_by_time trades_of
  filled_orders profile_id d = trades_of (sort_by_time (keep (is_filled profile_id) d.trade_orders))

module _ {F : Type 0} ⦃n : Number F⦄ where
  open n use {nought, ratio, add, sub, mul, div, lt}

  abbrev pub no_trades : AssetState F
  no_trades = record {
    qty = nought;
    cost_basis_total = nought;
    realized_pnl = nought;
    total_bought_usd = nought;
    total_sold_usd = nought;
    buy_count = 0;
    sell_count = 0;
  }

  unfoldable pub apply_buy : F → F → AssetState F → AssetState F
  apply_buy amount usd s = record s {
    qty = add s.qty amount;
    cost_basis_total = add s.cost_basis_total usd;
    total_bought_usd = add s.total_bought_usd usd;
    buy_count = s.buy_count + 1;
  }

  -- What a sell takes from the position: the quantity, clamped to what is tracked.
  unfoldable pub release : F → F → AssetState F → AssetState F
  unfolding minimum
  release amount usd s =
      let sell_qty = minimum amount s.qty in
      let sell_price = div usd amount in
      let avg_cost = div s.cost_basis_total s.qty in
      if lt nought sell_qty && lt nought s.qty
      then record s {
        realized_pnl = add s.realized_pnl (mul sell_qty (sub sell_price avg_cost));
        cost_basis_total = sub s.cost_basis_total (mul sell_qty avg_cost);
        qty = sub s.qty sell_qty;
      }
      else s

  unfoldable pub apply_sell : F → F → AssetState F → AssetState F
  unfolding release
  apply_sell amount usd s =
      let r = release amount usd s in
      record r { total_sold_usd = add r.total_sold_usd usd; sell_count = r.sell_count + 1 }

  -- The body of the loop, for the state of the order's asset.
  unfoldable pub apply_trade : Trade F → AssetState F → AssetState F
  unfolding apply_buy apply_sell
  apply_trade t s =
      if t.side == text "buy"
      then apply_buy t.amount t.usd_value s
      else if t.side == text "sell"
      then apply_sell t.amount t.usd_value s
      else s

  -- `states`, a `defaultdict`: an asset is entered when it is first read.
  unfoldable pub add_trade : Dict Text (AssetState F) → Trade F → Dict Text (AssetState F)
  add_trade states t =
      let asset = upper t.base_asset in
      insert asset (apply_trade t (get_or asset no_trades states)) states

  unfoldable pub states_from : Dict Text (AssetState F) → List (Trade F) → Dict Text (AssetState F)
  states_from states [] = states
  states_from states (t ∷ ts) = states_from (add_trade states t) ts

  -- `None` for a position of no more than 1e-12.
  abbrev pub epsilon : F
  epsilon = ratio 1 1_000_000_000_000

  abbrev pub asset_pnl : Text × AssetState F → AssetPnl F
  asset_pnl (asset, s) = record {
    base_asset = asset;
    current_qty = s.qty;
    avg_cost = if lt epsilon s.qty then some (div s.cost_basis_total s.qty) else none;
    realized_pnl_usd = s.realized_pnl;
    total_bought_usd = s.total_bought_usd;
    total_sold_usd = s.total_sold_usd;
    buy_count = s.buy_count;
    sell_count = s.sell_count;
  }

  unfoldable pub compute_pnl : List (Trade F) → ProfilePnl F
  unfolding states_from add_trade apply_trade sorted_items
  compute_pnl ts =
      let assets = map asset_pnl (sorted_items (states_from [] ts)) in
      record {
        assets = assets;
        total_realized_pnl_usd = sum (map (λ a. a.realized_pnl_usd) assets);
      }

  unfoldable pub compute_profile_pnl : ℕ → Db F → ProfilePnl F
  unfolding compute_pnl filled_orders
  compute_profile_pnl profile_id d = compute_pnl (filled_orders profile_id d)

  unfoldable pub get_profile_pnl : ℕ → User → Action F (ProfilePnl F)
  unfolding compute_profile_pnl owned_profile
  get_profile_pnl profile_id user = do
    owned_profile profile_id user
    gets (compute_profile_pnl profile_id)
