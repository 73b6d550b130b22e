-- ===== src/Store/Rows.antt =====
-- The rows of backend/app/models/*.py. A time is a number of seconds since the epoch, in UTC. All
-- tables draw their ids from one counter, which stands for their sequences.
use coin_hq.Base.{ℕ, Bool, Option, List}
use coin_hq.Base.Text.{Text}

-- models/user.py
pub record User : Type 0 where
  pub id : ℕ
  pub email : Text
  pub name : Option Text
  pub google_id : Text
  pub tier : Text

-- models/profile.py
pub record Profile : Type 0 where
  pub id : ℕ
  pub user_id : ℕ
  pub name : Text

-- models/exchange_key.py
pub record ExchangeKey : Type 0 where
  pub id : ℕ
  pub profile_id : ℕ
  pub exchange : Text
  pub key_type : Text
  pub encrypted_key : Text
  pub encrypted_secret : Text

-- models/followed_portfolio.py
pub record FollowedPortfolio : Type 0 where
  pub id : ℕ
  pub user_id : ℕ
  pub token : Text
  pub label : Option Text

-- models/waitlist.py
pub record Waitlist : Type 0 where
  pub id : ℕ
  pub email : Text
  pub plan : Option Text
  pub source : Option Text

-- models/share_link.py
pub record ShareLink (F : Type 0) : Type 0 where
  pub id : ℕ
  pub profile_id : ℕ
  pub token : Text
  pub show_total_value : Bool
  pub show_coin_amounts : Bool
  pub show_exchange_names : Bool
  pub show_allocation_pct : Bool
  pub show_avg_buy_price : Bool
  pub expires_at : Option ℕ
  pub is_active : Bool
  pub view_count : ℕ
  pub last_viewed_at : Option ℕ
  pub created_at : ℕ
  pub label : Option Text
  pub allow_follow : Bool
  pub can_trade : Bool
  pub trade_direction : Text
  pub trade_allowed_coins : Option Text
  pub trade_max_per_order_usd : Option F
  pub trade_daily_limit_usd : Option F

-- models/trade_order.py
pub record TradeOrder (F : Type 0) : Type 0 where
  pub id : ℕ
  pub profile_id : ℕ
  pub share_link_id : Option ℕ
  pub exchange : Text
  pub symbol : Text
  pub base_asset : Text
  pub side : Text
  pub usd_value : F
  pub amount : Option F
  pub actor : Text
  pub status : Text
  pub exchange_order_id : Option Text
  pub error : Option Text
  pub created_at : ℕ

-- models/portfolio_snapshot.py
pub record PortfolioSnapshot (F : Type 0) : Type 0 where
  pub id : ℕ
  pub profile_id : ℕ
  pub total_usd : F
  pub created_at : ℕ

pub record Db (F : Type 0) : Type 0 where
  pub users : List User
  pub profiles : List Profile
  pub exchange_keys : List ExchangeKey
  pub share_links : List (ShareLink F)
  pub followed : List FollowedPortfolio
  pub trade_orders : List (TradeOrder F)
  pub snapshots : List (PortfolioSnapshot F)
  pub waitlist : List Waitlist
  pub next_id : ℕ
