-- ===== src/Trade/Race.antt =====
-- Two requests of one share link that run at the same time: `execute_trade` of
-- backend/app/services/trade_service.py waits for the exchange between its check of the daily limit
-- and its commit, so both checks can come before both orders.
use coin_hq.Base.{ℕ, true, ◌≡◌, some, arith, nat_eq, nat_beq_iff}
use coin_hq.Base.Text.{text, text_eq, text_beq_iff}
use coin_hq.Number.{Number}
use coin_hq.Store.{Profile, ExchangeKey, ShareLink, Db, ok}
use coin_hq.Trade.{Venue, TradeRequest, placed, Response, spent_today_usd, authorize, settle, place}
use coin_hq.Trade.Window.{spent_today_usd-add_order, spent_today_usd-next_id}

module _ {F : Type 0} ⦃n : Number F⦄ where
  open n use {add, lt}

  -- The first request is settled, then the second, both checked before.
  unfoldable pub interleave :
      Venue F
      → ℕ
      → Profile
      → ShareLink F
      → TradeRequest F
      → TradeRequest F
      → ExchangeKey
      → ExchangeKey
      → Db F
      → Db F
  interleave venue now profile link r s k j d =
      let e = (settle profile r (some link) now (place venue r k) d).1 in
      (settle profile s (some link) now (place venue s j) e).1

  settle-spent :
      (now : ℕ) (profile : Profile) (link : ShareLink F) (r : TradeRequest F) (resp : Response F)
      (d : Db F)
      → spent_today_usd now link.id (settle profile r (some link) now (placed resp) d).1
        ≡ add (spent_today_usd now link.id d) r.usd_amount
  unfolding settle
  settle-spent now profile link r resp d =
      rw (spent_today_usd-add_order, spent_today_usd-next_id)
        (ground (arith, nat_beq_iff link.id link.id, text_beq_iff (text "filled") (text "filled")))

  -- The limit can be exceeded. If two requests of a link pass their checks before either order
  -- is committed, both are filled and their amounts go over the daily limit together with what
  -- was spent, then so do the filled orders of the link of the last 24 hours.
  pub interleave_overspends :
      (venue : Venue F) (now : ℕ) (profile : Profile) (link : ShareLink F) (r s : TradeRequest F)
      (k j : ExchangeKey) (p q : Response F) (limit : F) (d : Db F)
      → link.trade_daily_limit_usd ≡ some limit
      → (authorize venue now profile r (some link) d).0 ≡ ok k
      → (authorize venue now profile s (some link) d).0 ≡ ok j
      → place venue r k ≡ placed p
      → place venue s j ≡ placed q
      → lt limit (add (add (spent_today_usd now link.id d) r.usd_amount) s.usd_amount) ≡ true
      → lt limit (spent_today_usd now link.id (interleave venue now profile link r s k j d)) ≡ true
  unfolding interleave
  interleave_overspends venue now profile link r s k j p q limit d capped a b e f over =
      rw (interleave, e, f, settle-spent, settle-spent) over
