-- ===== src/Tests/Trading.antt =====
-- Trades at concrete inputs.
use coin_hq.Base.{true, ◌≡◌, refl, List, [], ◌∷◌, none, some, arith, ◌↔◌}
use coin_hq.Base.Text.{text, text_beq, upper, lower, strip, split}
use coin_hq.Base.Int.{ℤ, pos, ◌+ℤ◌, ltb_ℤ}
use coin_hq.Number.{sum_from, ◌≼◌}
use coin_hq.Number.Cents.{int_number, int-IsOrdered}
use coin_hq.Store.{ok, ShareLink, TradeOrder}
use coin_hq.TradeLimits.{allowed_coins, coin_set, direction_of, check_delegate_trade}
use coin_hq.TradeLimits.Laws.{IsPermitted, check_delegate_trade_iff}
use coin_hq.Trade.{spent_today_usd, authorize, execute_trade, find_trade_key, is_denied, Response}
use coin_hq.Trade.Outcomes.{Trades, execute_trade-Trades, IsFill, stored}
use coin_hq.Trade.Checks.{IsAuthorized, authorize-IsAuthorized}
use coin_hq.Trade.Budget.{Call, call_all, call_all-within}
use coin_hq.Trade.Race.{interleave, interleave_overspends}
use coin_hq.Trade.Completeness.{execute_trade_fills}
use coin_hq.Share.Public.{delegate_trade}
use coin_hq.Share.Liveness.{IsLive}
use coin_hq.Share.Delegates.{delegate_trade-IsPermitted}
use coin_hq.Tests.Fixtures.{main_profile, trade_key, link, db, venue, buy_btc, filled_order}

abbrev first_call : Call ℤ
first_call = record {
  venue = venue;
  now = 201;
  created = 202;
  profile = main_profile;
  request = buy_btc;
  share_link = some link;
}

abbrev calls : List (Call ℤ)
calls = first_call ∷ record first_call { now = 203; created = 204 } ∷ []

call_all-within_example : spent_today_usd 300 30 (call_all calls db) ≼ pos 100
unfolding spent_today_usd sum_from
call_all-within_example =
    call_all-within int-IsOrdered 30 (pos 100) calls 200 300 db (λ e. refl, (λ e. refl, tt))
      (omega arith, omega arith, (omega arith, omega arith, tt))
      (record { nonneg = tt; within = refl }) (omega arith)

delegate_trade-IsPermitted_example :
    (l : ShareLink ℤ) × IsLive (text "tok") 201 db l
    × IsPermitted l (lower (text "Buy")) (upper (text "btc")) (pos 50) (spent_today_usd 201 l.id db)
    × (some 30 ≡ some l.id)
    × (10 ≡ l.profile_id)
    × (pos 50 ≡ pos 50)
unfolding delegate_trade execute_trade find_trade_key is_denied spent_today_usd sum_from
    check_delegate_trade allowed_coins coin_set direction_of split strip text_beq upper lower ◌+ℤ◌
delegate_trade-IsPermitted_example =
    delegate_trade-IsPermitted int-IsOrdered venue (text "tok") 201 202 buy_btc db filled_order refl

check_delegate_trade_iff_example :
    (check_delegate_trade link (text "buy") (text "doge") (pos 5) (pos 0) ≡ none)
    ↔ IsPermitted link (text "buy") (text "doge") (pos 5) (pos 0)
check_delegate_trade_iff_example =
    check_delegate_trade_iff int-IsOrdered link (text "buy") (text "doge") (pos 5) (pos 0)

execute_trade-Trades_example :
    Trades venue 201 202 main_profile buy_btc
      (some link)
      db
      (execute_trade venue 201 202 main_profile buy_btc (some link) db)
execute_trade-Trades_example =
    execute_trade-Trades venue 201 202 main_profile buy_btc (some link) db

abbrev answer : Response ℤ
answer = record { order_id = some (text "x1"); ord_id = none; executed_qty = some (pos 5) }

buy_btc-IsAuthorized : IsAuthorized 201 main_profile buy_btc (some link) trade_key db
unfolding authorize find_trade_key is_denied spent_today_usd sum_from check_delegate_trade
    allowed_coins coin_set direction_of split strip text_beq upper lower ◌+ℤ◌
buy_btc-IsAuthorized =
    authorize-IsAuthorized venue 201 main_profile buy_btc (some link) db trade_key refl

execute_trade_fills_example :
    (o : TradeOrder ℤ) × (execute_trade venue 201 202 main_profile buy_btc (some link) db
      ≡ (ok o, stored o db))
    × IsFill main_profile buy_btc (some link) 202 o
execute_trade_fills_example =
    execute_trade_fills venue 201 202 main_profile buy_btc (some link) trade_key answer db
      buy_btc-IsAuthorized refl refl

abbrev narrow_link : ShareLink ℤ
narrow_link = record link { trade_daily_limit_usd = some (pos 80) }

interleave_overspends_example :
    ltb_ℤ (pos 80) (
      spent_today_usd 201 30
        (interleave venue 201 main_profile narrow_link buy_btc buy_btc trade_key trade_key db))
    ≡ true
unfolding authorize find_trade_key is_denied spent_today_usd sum_from check_delegate_trade
    allowed_coins coin_set direction_of split strip text_beq upper lower ◌+ℤ◌
interleave_overspends_example =
    interleave_overspends venue 201 main_profile narrow_link buy_btc buy_btc trade_key trade_key
      answer answer (pos 80) db refl refl refl refl refl refl
