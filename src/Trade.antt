-- ===== src/Trade.antt =====
-- Trade execution: backend/app/services/trade_service.py, and backend/app/api/v1/trade.py, its
-- owner's side. The exchange is an argument: what decrypting, connecting and ordering came to.
-- `execute_trade` stands in two parts, since other requests may run between them.
pub mod Window
pub mod Checks
pub mod Outcomes
pub mod Budget
pub mod Race
pub mod Completeness
use coin_hq.Base.{
  ℕ, ◌+◌, Bool, true, false, not, ◌&&◌, ◌||◌, List, [], ◌∷◌, ◌++◌, map, Option, none, some, leb,
  if◌then◌else◌, is_some, ◌==◌, nat_eq, find, keep,
}
use coin_hq.Base.Text.{Text, text, text_eq, is_truthy, upper, lower}
use coin_hq.Number.{Number, sum}
use coin_hq.Store.{
  User, Profile, ExchangeKey, ShareLink, TradeOrder, Db, Action, ◌>>=◌, ◌>>◌, raise, raise_if,
  crash_if, gets, or_crash, or_raise, modify, fresh_id, pure, Reply, ok, http, crash,
}
use coin_hq.Store.Queries.{get_profile}
use coin_hq.TradeLimits.{check_delegate_trade, is_side}

-- The parts of an exchange's answer that are kept. `executed_qty` is what `_safe_float` makes of it.
pub record Response (F : Type 0) : Type 0 where
  pub order_id : Option Text
  pub ord_id : Option Text
  pub executed_qty : Option F

-- How `adapter.place_order` ended: with an answer that can be read, `NotImplementedError`,
-- `ValueError`, an `httpx.HTTPError`, or another exception, of the call or of reading its answer.
pub data Placement (F : Type 0) : Type 0 where
  placed : Response F → Placement F
  unsupported bad_request unreachable broken : Placement F

-- The exchange's side of a trade: whether the key decrypts and has an adapter, the price that
-- `get_usd_prices` found, and the placement of the order.
pub record Venue (F : Type 0) : Type 0 where
  pub connects : ExchangeKey → Bool
  pub price_of : Text → Option F
  pub place_order : ExchangeKey → Text → Text → F → Option F → Placement F

pub record TradeRequest (F : Type 0) : Type 0 where
  pub exchange : Text
  pub side : Text
  pub base_asset : Text
  pub usd_amount : F
  pub actor : Text

-- 24 hours, in seconds.
abbrev pub day : ℕ
day = 86_400

-- `id if id is not None` compared with a column that may be null
abbrev pub is_link : Option ℕ → ℕ → Bool
is_link none i = false
is_link (some j) i = j == i

-- `str(resp.get("orderId") or resp.get("ordId") or "") or None`
abbrev pub truthy : Option Text → Option Text
truthy none = none
truthy (some s) = if is_truthy s then some s else none

abbrev pub first_truthy : Option Text → Option Text → Option Text
first_truthy (some s) other = if is_truthy s then some s else truthy other
first_truthy none other = truthy other

module _ {F : Type 0} where
  -- The rows of `spent_today_usd`: the link's filled orders of the last 24 hours.
  abbrev pub counts : ℕ → ℕ → TradeOrder F → Bool
  counts now link_id o =
      is_link o.share_link_id link_id && o.status == text "filled" && leb now (o.created_at + day)

  unfoldable pub find_trade_key : ℕ → Text → Db F → Option ExchangeKey
  find_trade_key profile_id exchange d =
      find (λ k. k.profile_id == profile_id && k.exchange == exchange && k.key_type == text "trade")
        d.exchange_keys

module _ {F : Type 0} ⦃n : Number F⦄ where
  open n use {nought, le}

  unfoldable pub spent_today_usd : ℕ → ℕ → Db F → F
  spent_today_usd now link_id d =
      sum (map (λ o. o.usd_value) (keep (counts now link_id) d.trade_orders))

  -- `check_delegate_trade`, where the trade comes through a link
  unfoldable pub is_denied : ℕ → Option (ShareLink F) → Text → Text → F → Db F → Bool
  unfolding spent_today_usd
  is_denied now none side base_asset usd d = false
  is_denied now (some link) side base_asset usd d =
      is_some (check_delegate_trade link side base_asset usd (spent_today_usd now link.id d))

  abbrev pub link_id_of : Option (ShareLink F) → Option ℕ
  link_id_of none = none
  link_id_of (some link) = some link.id

  -- `execute_trade` up to the order: the checks, which read the database and write nothing.
  unfoldable pub authorize :
      Venue F → ℕ → Profile → TradeRequest F → Option (ShareLink F) → Action F ExchangeKey
  authorize venue now profile r share_link = do
    raise_if (le r.usd_amount nought) 400
    raise_if (not (is_side (lower r.side))) 400
    key ← or_raise (← gets (find_trade_key profile.id (lower r.exchange))) 400
    raise_if (← gets (is_denied now share_link (lower r.side) (upper r.base_asset) r.usd_amount))
        403
    crash_if (not (venue.connects key))
    pure key

  -- `TradeOrder(…)`
  abbrev pub new_order : Profile → TradeRequest F → Option (ShareLink F) → ℕ → ℕ → TradeOrder F
  new_order profile r share_link i created = record {
    id = i;
    profile_id = profile.id;
    share_link_id = link_id_of share_link;
    exchange = lower r.exchange;
    symbol = upper r.base_asset ++ text "USDT";
    base_asset = upper r.base_asset;
    side = lower r.side;
    usd_value = r.usd_amount;
    amount = none;
    actor = r.actor;
    status = text "pending";
    exchange_order_id = none;
    error = none;
    created_at = created;
  }

  abbrev pub add_order : TradeOrder F → Db F → Db F
  add_order o d = record d { trade_orders = d.trade_orders ++ o ∷ [] }

  -- The outcome of `place_order`: the order is kept if it was filled, or if the exchange failed.
  unfoldable pub settle :
      Profile → TradeRequest F → Option (ShareLink F) → ℕ → Placement F → Action F (TradeOrder F)
  settle profile r share_link created unsupported = raise 400
  settle profile r share_link created bad_request = raise 400
  settle profile r share_link created broken = or_crash none
  settle profile r share_link created unreachable = do
    i ← fresh_id
    modify (
        add_order (record (new_order profile r share_link i created) {
          status = text "failed";
          error = some (text "Exchange API error");
        }))
    raise 502
  settle profile r share_link created (placed resp) = do
    i ← fresh_id
    let order : TradeOrder F = record (new_order profile r share_link i created) {
      status = text "filled";
      exchange_order_id = first_truthy resp.order_id resp.ord_id;
      amount = resp.executed_qty;
    }
    modify (add_order order)
    pure order

  -- `adapter.place_order`, with the price that was found.
  abbrev pub place : Venue F → TradeRequest F → ExchangeKey → Placement F
  place venue r key =
      let asset = upper r.base_asset in
      venue.place_order key asset (lower r.side) r.usd_amount (venue.price_of asset)

  -- The checks are made at `now`, the row is stamped `created` when it is committed.
  unfoldable pub execute_trade :
      Venue F → ℕ → ℕ → Profile → TradeRequest F → Option (ShareLink F) → Action F (TradeOrder F)
  unfolding authorize settle
  execute_trade venue now created profile r share_link = do
    key ← authorize venue now profile r share_link
    settle profile r share_link created (place venue r key)

  -- `_get_owned_profile` of trade.py
  unfoldable pub owned_profile : ℕ → User → Action F Profile
  owned_profile profile_id user = do
    profile ← or_raise (← gets (get_profile profile_id)) 404
    raise_if (not (profile.user_id == user.id)) 404
    pure profile

  unfoldable pub owner_trade : Venue F → ℕ → ℕ → ℕ → TradeRequest F → User → Action F (TradeOrder F)
  unfolding owned_profile execute_trade
  owner_trade venue now created profile_id r user = do
    profile ← owned_profile profile_id user
    execute_trade venue now created profile (record r { actor = text "owner" }) none
