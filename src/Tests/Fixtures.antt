-- ===== src/Tests/Fixtures.antt =====
-- One user with two profiles, a trade key and a share link, for the tests.
use coin_hq.Base.{true, false, [], ◌∷◌, none, some}
use coin_hq.Base.Text.{text}
use coin_hq.Base.Int.{ℤ, pos}
use coin_hq.Store.{User, Profile, ExchangeKey, ShareLink, TradeOrder, Db}
use coin_hq.Trade.{Venue, TradeRequest, placed}

abbrev pub alice : User
alice = record {
  id = 1;
  email = text "a@x";
  name = none;
  google_id = text "g1";
  tier = text "free";
}

abbrev pub bob : User
bob = record {
  id = 2;
  email = text "b@x";
  name = none;
  google_id = text "g2";
  tier = text "premium";
}

abbrev pub main_profile : Profile
main_profile = record { id = 10; user_id = 1; name = text "main" }

abbrev pub bob_profile : Profile
bob_profile = record { id = 11; user_id = 2; name = text "main" }

abbrev pub trade_key : ExchangeKey
trade_key = record {
  id = 20;
  profile_id = 10;
  exchange = text "okx";
  key_type = text "trade";
  encrypted_key = text "k";
  encrypted_secret = text "s";
}

abbrev pub read_key : ExchangeKey
read_key = record trade_key { id = 21; key_type = text "read_only" }

-- At most 50 an order and 100 a day, buying BTC or ETH.
abbrev pub link : ShareLink ℤ
link = record {
  id = 30;
  profile_id = 10;
  token = text "tok";
  show_total_value = false;
  show_coin_amounts = false;
  show_exchange_names = false;
  show_allocation_pct = false;
  show_avg_buy_price = false;
  expires_at = some 500;
  is_active = true;
  view_count = 0;
  last_viewed_at = none;
  created_at = 100;
  label = none;
  allow_follow = true;
  can_trade = true;
  trade_direction = text "buy";
  trade_allowed_coins = some (text "btc, eth");
  trade_max_per_order_usd = some (pos 50);
  trade_daily_limit_usd = some (pos 100);
}

abbrev pub bob_link : ShareLink ℤ
bob_link = record link { id = 31; profile_id = 11; token = text "bob" }

abbrev pub db : Db ℤ
db = record {
  users = alice ∷ bob ∷ [];
  profiles = main_profile ∷ bob_profile ∷ [];
  exchange_keys = trade_key ∷ read_key ∷ [];
  share_links = link ∷ bob_link ∷ [];
  followed = [];
  trade_orders = [];
  snapshots = [];
  waitlist = [];
  next_id = 40;
}

abbrev pub venue : Venue ℤ
venue = record {
  connects = λ key. true;
  price_of = λ asset. some (pos 10);
  place_order = λ key asset side usd price.
      placed (record { order_id = some (text "x1"); ord_id = none; executed_qty = some (pos 5) });
}

abbrev pub buy_btc : TradeRequest ℤ
buy_btc = record {
  exchange = text "OKX";
  side = text "Buy";
  base_asset = text "btc";
  usd_amount = pos 50;
  actor = text "delegate";
}

-- The order that a delegate's `buy_btc` comes to.
abbrev pub filled_order : TradeOrder ℤ
filled_order = record {
  id = 40;
  profile_id = 10;
  share_link_id = some 30;
  exchange = text "okx";
  symbol = text "BTCUSDT";
  base_asset = text "BTC";
  side = text "buy";
  usd_value = pos 50;
  amount = some (pos 5);
  actor = text "delegate";
  status = text "filled";
  exchange_order_id = some (text "x1");
  error = none;
  created_at = 202;
}
