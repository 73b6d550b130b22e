-- ===== src/Tests/Sharing.antt =====
-- Share links at concrete inputs.
use coin_hq.Base.{true, false, ◌≡◌, refl, [], ◌∷◌, none, some, arith}
use coin_hq.Base.Text.{Text, text}
use coin_hq.Base.Int.{ℤ, pos}
use coin_hq.Number.Cents.{int_number}
use coin_hq.Portfolio.{Balance, PortfolioResponse}
use coin_hq.Share.{ShareLinkUpdate, Patch, unset, put}
use coin_hq.Share.Public.{PublicFeeds, share_view, public_share_view}
use coin_hq.Share.Privacy.{share_view_discreet}
use coin_hq.Share.Liveness.{Views, public_share_view-Views}
use coin_hq.Share.Ownership.{update, handle, links_of, handle-links_of}
use coin_hq.Tests.Fixtures.{bob, link, db}

abbrev coins : Balance ℤ
coins = record {
  asset = text "BTC";
  free = pos 2;
  locked = pos 0;
  total = pos 2;
  usd_value = some (pos 90);
}

abbrev more_coins : Balance ℤ
more_coins = record coins { total = pos 7; usd_value = some (pos 315) }

abbrev holding : Balance ℤ → ℤ → PortfolioResponse ℤ
holding b total = record {
  profile_id = 10;
  profile_name = text "main";
  exchanges = record { exchange = text "okx"; balances = b ∷ []; total_usd = total } ∷ [];
  total_usd = total;
  cached = false;
}

abbrev digest : Text → Text
digest name = text "0badcafe"

abbrev outside : PublicFeeds ℤ
outside = record {
  feeds = record {
    get_balances = λ key. some (coins ∷ []);
    get_prices = λ key assets. none;
    get_usd_prices = λ assets. (text "BTC", pos 45) ∷ [];
  };
  digest = digest;
  avg_buy_prices = λ profile keys. [];
}

share_view_discreet_example :
    share_view digest 200 link (holding coins (pos 90)) [] db
    ≡ share_view digest 200 link (holding more_coins (pos 315)) [] db
share_view_discreet_example =
    share_view_discreet link (record { no_amounts = refl; no_values = refl; no_allocation = refl })
      [] digest 200 (holding coins (pos 90)) (holding more_coins (pos 315)) db
      (refl, (record { asset = refl; held = refl }, tt), tt)

public_share_view-Views_example :
    Views outside (text "tok") 200 db (public_share_view outside (text "tok") 200 db)
public_share_view-Views_example = public_share_view-Views outside (text "tok") 200 db

abbrev relabel : ShareLinkUpdate ℤ
relabel = record {
  show_total_value = put true;
  show_coin_amounts = unset;
  show_exchange_names = unset;
  show_allocation_pct = unset;
  show_avg_buy_price = unset;
  expires_at = Patch.null;
  label = put (text "mine");
  allow_follow = unset;
  can_trade = put true;
  trade_direction = unset;
  trade_allowed_coins = unset;
  trade_max_per_order_usd = unset;
  trade_daily_limit_usd = unset;
}

-- Bob asks for a change of Alice's link.
handle-links_of_example : links_of 1 (handle (update 30 relabel) bob db) ≡ links_of 1 db
handle-links_of_example =
    handle-links_of (update 30 relabel) bob 1 db (refl, (refl, tt)) (ground arith)
