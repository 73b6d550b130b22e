-- ===== src/Share.antt =====
-- Share links and followed portfolios: the authenticated endpoints of backend/app/api/v1/share.py,
-- with the bodies of backend/app/schemas/share_link.py. The order in which lists are shown is left out.
pub mod Patches
pub mod Links
pub mod Ownership
pub mod Follow
pub mod Public
pub mod Liveness
pub mod Privacy
pub mod Delegates
use coin_hq.Base.{
  ℕ, Bool, true, false, not, ◌&&◌, ◌||◌, List, [], ◌∷◌, ◌++◌, Option, none, some, if◌then◌else◌,
  keep, find, change, is_some, any, ◌==◌, nat_eq,
}
use coin_hq.Base.Text.{Text, text, text_eq}
use coin_hq.Store.{
  User, Profile, ExchangeKey, ShareLink, FollowedPortfolio, Db, Action, ◌>>=◌, ◌>>◌, raise,
  raise_if, crash_if, gets, or_raise, modify, fresh_id, pure,
}
use coin_hq.Store.Queries.{get_profile, get_link, get_followed}

pub record ShareLinkCreate (F : Type 0) : Type 0 where
  pub profile_id : ℕ
  pub show_total_value : Bool
  pub show_coin_amounts : Bool
  pub show_exchange_names : Bool
  pub show_allocation_pct : Bool
  pub show_avg_buy_price : Bool
  pub expires_at : Option ℕ
  pub label : Option Text
  pub allow_follow : Bool
  pub can_trade : Bool
  pub trade_direction : Text
  pub trade_allowed_coins : Option Text
  pub trade_max_per_order_usd : Option F
  pub trade_daily_limit_usd : Option F

-- A field of a PATCH body: not there, `null`, or a value.
pub data Patch (A : Type 0) : Type 0 where
  unset null : Patch A
  put : A → Patch A

pub record ShareLinkUpdate (F : Type 0) : Type 0 where
  pub show_total_value : Patch Bool
  pub show_coin_amounts : Patch Bool
  pub show_exchange_names : Patch Bool
  pub show_allocation_pct : Patch Bool
  pub show_avg_buy_price : Patch Bool
  pub expires_at : Patch ℕ
  pub label : Patch Text
  pub allow_follow : Patch Bool
  pub can_trade : Patch Bool
  pub trade_direction : Patch Text
  pub trade_allowed_coins : Patch Text
  pub trade_max_per_order_usd : Patch F
  pub trade_daily_limit_usd : Patch F

module _ {A : Type 0} where
  -- A write to a column that is NOT NULL; a `null` there fails at the commit.
  abbrev pub patch : Patch A → A → A
  patch unset old = old
  patch null old = old
  patch (put new) old = new

  abbrev pub is_null : Patch A → Bool
  is_null null = true
  is_null other = false

  -- A write to a column that may be null.
  abbrev pub patch_option : Patch A → Option A → Option A
  patch_option unset old = old
  patch_option null old = none
  patch_option (put new) old = some new

abbrev pub asks_trade : Patch Bool → Bool
asks_trade (put b) = b
asks_trade other = false

abbrev pub matches : Option ℕ → ℕ → Bool
matches none i = true
matches (some j) i = i == j

module _ {F : Type 0} where
  -- `_profile_has_trade_key`
  unfoldable pub profile_has_trade_key : ℕ → Db F → Bool
  profile_has_trade_key profile_id d =
      any (λ k. k.profile_id == profile_id && k.key_type == text "trade") d.exchange_keys

  -- `profile = await db.get(…)`, with a 404 for another user's profile too
  unfoldable pub my_profile : ℕ → User → Action F Profile
  my_profile profile_id user = do
    p ← or_raise (← gets (get_profile profile_id)) 404
    raise_if (not (p.user_id == user.id)) 404
    pure p

  -- Trading needs a trade key on the profile.
  abbrev pub lacks_key : Bool → ℕ → Db F → Bool
  lacks_key asked profile_id d = asked && not (profile_has_trade_key profile_id d)

  abbrev pub new_link : ShareLinkCreate F → Text → ℕ → ℕ → ShareLink F
  new_link c token now i = record {
    id = i;
    profile_id = c.profile_id;
    token = token;
    show_total_value = c.show_total_value;
    show_coin_amounts = c.show_coin_amounts;
    show_exchange_names = c.show_exchange_names;
    show_allocation_pct = c.show_allocation_pct;
    show_avg_buy_price = c.show_avg_buy_price;
    expires_at = c.expires_at;
    is_active = true;
    view_count = 0;
    last_viewed_at = none;
    created_at = now;
    label = c.label;
    allow_follow = c.allow_follow;
    can_trade = c.can_trade;
    trade_direction = c.trade_direction;
    trade_allowed_coins = c.trade_allowed_coins;
    trade_max_per_order_usd = c.trade_max_per_order_usd;
    trade_daily_limit_usd = c.trade_daily_limit_usd;
  }

  -- `token` is what `ShareLink.generate_token` drew; the column is unique.
  unfoldable pub create_share_link : ShareLinkCreate F → Text → ℕ → User → Action F (ShareLink F)
  unfolding my_profile
  create_share_link c token now user = do
    my_profile c.profile_id user
    raise_if (← gets (lacks_key c.can_trade c.profile_id)) 400
    crash_if (← gets (λ d. is_some (find (λ l. l.token == token) d.share_links)))
    i ← fresh_id
    let link = new_link c token now i
    modify (λ d. record d { share_links = d.share_links ++ link ∷ [] })
    pure link

  -- `setattr` for each field of the body
  unfoldable pub apply_update : ShareLinkUpdate F → ShareLink F → ShareLink F
  apply_update u l = record l {
    show_total_value = patch u.show_total_value l.show_total_value;
    show_coin_amounts = patch u.show_coin_amounts l.show_coin_amounts;
    show_exchange_names = patch u.show_exchange_names l.show_exchange_names;
    show_allocation_pct = patch u.show_allocation_pct l.show_allocation_pct;
    show_avg_buy_price = patch u.show_avg_buy_price l.show_avg_buy_price;
    expires_at = patch_option u.expires_at l.expires_at;
    label = patch_option u.label l.label;
    allow_follow = patch u.allow_follow l.allow_follow;
    can_trade = patch u.can_trade l.can_trade;
    trade_direction = patch u.trade_direction l.trade_direction;
    trade_allowed_coins = patch_option u.trade_allowed_coins l.trade_allowed_coins;
    trade_max_per_order_usd = patch_option u.trade_max_per_order_usd l.trade_max_per_order_usd;
    trade_daily_limit_usd = patch_option u.trade_daily_limit_usd l.trade_daily_limit_usd;
  }

  unfoldable pub breaks_not_null : ShareLinkUpdate F → Bool
  breaks_not_null u =
      is_null u.show_total_value
      || is_null u.show_coin_amounts
      || is_null u.show_exchange_names
      || is_null u.show_allocation_pct
      || is_null u.show_avg_buy_price
      || is_null u.allow_follow
      || is_null u.can_trade
      || is_null u.trade_direction

  abbrev pub write_link : ℕ → (ShareLink F → ShareLink F) → Db F → Db F
  write_link i f d = record d { share_links = change (λ l. l.id == i) f d.share_links }

  unfoldable pub update_share_link : ℕ → ShareLinkUpdate F → User → Action F (ShareLink F)
  unfolding my_profile
  update_share_link link_id u user = do
    link ← or_raise (← gets (get_link link_id)) 404
    my_profile link.profile_id user
    raise_if (← gets (lacks_key (asks_trade u.can_trade) link.profile_id)) 400
    crash_if (breaks_not_null u)
    modify (write_link link.id (apply_update u))
    pure (apply_update u link)

  unfoldable pub list_share_links : Option ℕ → User → Db F → List (ShareLink F)
  list_share_links profile_id user d =
      keep
        (λ l.
          l.is_active
          && any (λ p. p.id == l.profile_id && p.user_id == user.id) d.profiles
          && matches profile_id l.profile_id)
        d.share_links

  abbrev pub deactivate : ShareLink F → ShareLink F
  deactivate l = record l { is_active = false }

  unfoldable pub revoke_share_link : ℕ → User → Action F (Unit {0})
  unfolding my_profile
  revoke_share_link link_id user = do
    link ← or_raise (← gets (get_link link_id)) 404
    my_profile link.profile_id user
    modify (write_link link.id deactivate)

  abbrev pub find_active : Text → Db F → Option (ShareLink F)
  find_active token d = find (λ l. l.token == token && l.is_active) d.share_links
