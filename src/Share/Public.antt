-- ===== src/Share/Public.antt =====
-- The public side of a share link: `public_share_view` and `delegate_trade` of
-- backend/app/api/v1/share.py. The hash of `_mask_exchange` is an argument, as are the portfolio
-- (`get_portfolio` is called without Redis and without a session) and the average prices.
use coin_hq.Base.{
  ℕ, suc, Bool, false, not, ◌&&◌, List, [], ◌∷◌, ◌++◌, map, Option, none, some, if◌then◌else◌, keep,
  or_else, ltb, ◌==◌, nat_eq,
}
use coin_hq.Base.Text.{Text, text, text_eq, is_truthy}
use coin_hq.Base.Dict.{Dict, lookup}
use coin_hq.Base.Order.{sorted_set}
use coin_hq.Number.{Number}
use coin_hq.Store.{
  Profile, ExchangeKey, ShareLink, TradeOrder, Db, Action, ◌>>=◌, ◌>>◌, raise_if, gets, or_raise,
  modify, pure,
}
use coin_hq.Store.Queries.{get_profile}
use coin_hq.Portfolio.{Balance, ExchangeBalance, PortfolioResponse, Feeds, value_portfolio}
use coin_hq.Trade.{Venue, TradeRequest, spent_today_usd, execute_trade}
use coin_hq.Share.{find_active, write_link}

-- backend/app/schemas/share_link.py
pub record SharedAsset (F : Type 0) : Type 0 where
  pub asset : Text
  pub amount : Option F
  pub usd_value : Option F
  pub allocation_pct : Option F
  pub avg_buy_price : Option F

pub record SharedExchange (F : Type 0) : Type 0 where
  pub exchange_name : Text
  pub assets : List (SharedAsset F)
  pub total_usd : Option F

pub record SharedPortfolioView (F : Type 0) : Type 0 where
  pub token : Text
  pub profile_name : Text
  pub total_usd : Option F
  pub exchanges : List (SharedExchange F)
  pub show_total_value : Bool
  pub show_coin_amounts : Bool
  pub show_exchange_names : Bool
  pub show_allocation_pct : Bool
  pub show_avg_buy_price : Bool
  pub allow_follow : Bool
  pub can_trade : Bool
  pub trade_direction : Text
  pub trade_allowed_coins : Option Text
  pub trade_max_per_order_usd : Option F
  pub trade_daily_limit_usd : Option F
  pub trade_spent_today_usd : F
  pub tradable_exchanges : List Text

-- What the handler takes from outside: the portfolio's feeds, the first eight digits of the hash of a
-- name, and `_avg_buy_prices`.
pub record PublicFeeds (F : Type 0) : Type 0 where
  pub feeds : Feeds F
  pub digest : Text → Text
  pub avg_buy_prices : Profile → List ExchangeKey → Dict Text (Dict Text F)

-- `_mask_exchange`
unfoldable pub mask_exchange : (Text → Text) → Text → Text
mask_exchange digest name = text "Exchange " ++ digest name

-- `now > exp`, where there is an expiry
abbrev pub is_expired : Option ℕ → ℕ → Bool
is_expired none now = false
is_expired (some exp) now = ltb exp now

-- `link.label or "Crypto Portfolio"`
abbrev pub display_name : Option Text → Text
display_name none = text "Crypto Portfolio"
display_name (some s) = if is_truthy s then s else text "Crypto Portfolio"

-- `x if shown else None`
abbrev pub shown {ℓ} : {A : Type ℓ} → Bool → A → Option A
shown b x = if b then some x else none

module _ {F : Type 0} where
  -- The lookup by token and the check of the expiry, which both public endpoints begin with.
  unfoldable pub live_link : Text → ℕ → Action F (ShareLink F)
  live_link token now = do
    link ← or_raise (← gets (find_active token)) 404
    raise_if (is_expired link.expires_at now) 410
    pure link

  abbrev pub viewed : ℕ → ShareLink F → ShareLink F
  viewed now l = record l { view_count = suc l.view_count; last_viewed_at = some now }

  abbrev pub keys_of : ℕ → Db F → List ExchangeKey
  keys_of profile_id d = keep (λ k. k.profile_id == profile_id) d.exchange_keys

  -- `avg_prices.get(exchange, {}).get(asset)`
  abbrev pub avg_price : Dict Text (Dict Text F) → Text → Text → Option F
  avg_price avg exchange asset = elim (lookup exchange avg) [
    | none ↦ none
    | some d ↦ lookup asset d
  ]

  unfoldable pub tradable_exchanges_of : ShareLink F → Db F → List Text
  tradable_exchanges_of link d =
      if link.can_trade
      then sorted_set (
          map (λ k. k.exchange)
            (keep (λ k. k.profile_id == link.profile_id && k.key_type == text "trade")
              d.exchange_keys))
      else []

module _ {F : Type 0} ⦃n : Number F⦄ where
  open n use {nought, lt, eq, mul, div, round, of_nat}

  -- The percentage is shown for a total above zero.
  abbrev pub allocation : Bool → F → Option F → Option F
  allocation show grand usd =
      if show && lt nought grand
      then some (round (mul (div (or_else usd nought) grand) (of_nat 100)) 2)
      else none

  abbrev pub share_asset :
      ShareLink F → F → Dict Text (Dict Text F) → Text → Balance F → SharedAsset F
  share_asset link grand avg exchange b = record {
    asset = b.asset;
    amount = shown link.show_coin_amounts b.total;
    usd_value = if link.show_total_value then b.usd_value else none;
    allocation_pct = allocation link.show_allocation_pct grand b.usd_value;
    avg_buy_price = avg_price avg exchange b.asset;
  }

  -- The loop over the balances: those of amount zero are left out.
  unfoldable pub share_assets :
      ShareLink F → F → Dict Text (Dict Text F) → Text → List (Balance F) → List (SharedAsset F)
  share_assets link grand avg exchange [] = []
  share_assets link grand avg exchange (b ∷ bs) =
      let rest = share_assets link grand avg exchange bs in
      if eq b.total nought then rest else share_asset link grand avg exchange b ∷ rest

  unfoldable pub share_exchange :
      (Text → Text)
      → ShareLink F
      → F
      → Dict Text (Dict Text F)
      → ExchangeBalance F
      → SharedExchange F
  unfolding share_assets mask_exchange
  share_exchange digest link grand avg ex = record {
    exchange_name =
        if link.show_exchange_names then ex.exchange else mask_exchange digest ex.exchange;
    assets = share_assets link grand avg ex.exchange ex.balances;
    total_usd = shown link.show_total_value ex.total_usd;
  }

  unfoldable pub share_view :
      (Text → Text)
      → ℕ
      → ShareLink F
      → PortfolioResponse F
      → Dict Text (Dict Text F)
      → Db F
      → SharedPortfolioView F
  unfolding share_exchange tradable_exchanges_of spent_today_usd
  share_view digest now link portfolio avg d = record {
    token = link.token;
    profile_name = display_name link.label;
    total_usd = shown link.show_total_value portfolio.total_usd;
    exchanges = map (share_exchange digest link portfolio.total_usd avg) portfolio.exchanges;
    show_total_value = link.show_total_value;
    show_coin_amounts = link.show_coin_amounts;
    show_exchange_names = link.show_exchange_names;
    show_allocation_pct = link.show_allocation_pct;
    show_avg_buy_price = link.show_avg_buy_price;
    allow_follow = link.allow_follow;
    can_trade = link.can_trade;
    trade_direction = link.trade_direction;
    trade_allowed_coins = link.trade_allowed_coins;
    trade_max_per_order_usd = link.trade_max_per_order_usd;
    trade_daily_limit_usd = link.trade_daily_limit_usd;
    trade_spent_today_usd = if link.can_trade then spent_today_usd now link.id d else nought;
    tradable_exchanges = tradable_exchanges_of link d;
  }

  unfoldable pub public_share_view : PublicFeeds F → Text → ℕ → Action F (SharedPortfolioView F)
  unfolding live_link value_portfolio share_view
  public_share_view outside token now = do
    link ← live_link token now
    modify (write_link link.id (viewed now))
    profile ← or_raise (← gets (get_profile link.profile_id)) 404
    keys ← gets (keys_of link.profile_id)
    let portfolio = value_portfolio outside.feeds link.profile_id profile.name keys
    let avg = if link.show_avg_buy_price then outside.avg_buy_prices profile keys else []
    gets (share_view outside.digest now link portfolio avg)

  unfoldable pub delegate_trade : Venue F → Text → ℕ → ℕ → TradeRequest F → Action F (TradeOrder F)
  unfolding live_link
  delegate_trade venue token now created r = do
    link ← live_link token now
    raise_if (not link.can_trade) 403
    profile ← or_raise (← gets (get_profile link.profile_id)) 404
    execute_trade venue now created profile (record r { actor = text "delegate" }) (some link)
