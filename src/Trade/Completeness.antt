-- ===== src/Trade/Completeness.antt =====
-- A permitted trade is carried out (backend/app/services/trade_service.py).
use coin_hq.Base.{true, false, ℕ, ◌≡◌, refl, ap, ◌∙◌, Option, none, some, arith}
use coin_hq.Base.Text.{text, text_eq, text_beq_iff, upper, lower}
use coin_hq.Number.{Number}
use coin_hq.Store.{Profile, ExchangeKey, ShareLink, TradeOrder, Db, Reply, ok, http, crash}
use coin_hq.Trade.{
  new_order, first_truthy, Venue, TradeRequest, Response, placed, is_denied, authorize, settle,
  execute_trade, place,
}
use coin_hq.Trade.Checks.{IsAuthorized}
use coin_hq.Trade.Outcomes.{IsFill, stored}

module _ {F : Type 0} ⦃n : Number F⦄ where
  permitted-is_denied :
      (now : ℕ) (profile : Profile) (r : TradeRequest F) (share_link : Option (ShareLink F))
      (key : ExchangeKey) (d : Db F)
      → IsAuthorized now profile r share_link key d
      → is_denied now share_link (lower r.side) (upper r.base_asset) r.usd_amount d ≡ false
  unfolding is_denied
  permitted-is_denied now profile r none key d a = refl
  permitted-is_denied now profile r (some link) key d a = rw (a.permitted link refl)

  authorize_passes :
      (venue : Venue F) (now : ℕ) (profile : Profile) (r : TradeRequest F)
      (share_link : Option (ShareLink F)) (key : ExchangeKey) (d : Db F)
      → IsAuthorized now profile r share_link key d
      → venue.connects key ≡ true
      → authorize venue now profile r share_link d ≡ (ok key, d)
  unfolding authorize
  authorize_passes venue now profile r share_link key d a connected = ground (
    arith,
    a.positive,
    a.side_known,
    a.key_found,
    permitted-is_denied now profile r share_link key d a,
    text_beq_iff (lower r.side) (text "buy"),
    text_beq_iff (lower r.side) (text "sell"),
  )

  settle_fills :
      (profile : Profile) (r : TradeRequest F) (share_link : Option (ShareLink F)) (created : ℕ)
      (resp : Response F) (d : Db F)
      → (o : TradeOrder F) × (settle profile r share_link created (placed resp) d
          ≡ (ok o, stored o d))
        × IsFill profile r share_link created o
  unfolding settle
  settle_fills profile r share_link created resp d = (
    record (new_order profile r share_link d.next_id created) {
      status = text "filled";
      exchange_order_id = first_truthy resp.order_id resp.ord_id;
      amount = resp.executed_qty;
    },
    refl,
    record {
      filled = refl;
      value = refl;
      owner = refl;
      link = refl;
      asset = refl;
      side = refl;
      stamp = refl;
      exchange = refl;
      symbol = refl;
      actor = refl;
    },
  )

  settle_after :
      (venue : Venue F) (created : ℕ) (profile : Profile) (r : TradeRequest F)
      (share_link : Option (ShareLink F)) (key : ExchangeKey) (resp : Response F) (d : Db F)
      (out : Reply ExchangeKey × Db F)
      → out.0 ≡ ok key
      → out.1 ≡ d
      → place venue r key ≡ placed resp
      → (elim out.0 [
        | ok k ↦
            settle profile r share_link created
              (venue.place_order k
                (upper r.base_asset)
                (lower r.side)
                r.usd_amount
                (venue.price_of (upper r.base_asset)))
              out.1
        | http c ↦ (http c, out.1)
        | crash ↦ (crash, out.1)
      ])
        ≡ settle profile r share_link created (placed resp) d
  settle_after venue created profile r share_link key resp d out passed same done =
      rw (passed, same) (ap (λ p. settle profile r share_link created p d) done)

  -- A request that passes the checks, whose key connects and whose order the exchange places,
  -- is filled: the call returns an order that says what was asked, and stores it.
  pub execute_trade_fills :
      (venue : Venue F) (now created : ℕ) (profile : Profile) (r : TradeRequest F)
      (share_link : Option (ShareLink F)) (key : ExchangeKey) (resp : Response F) (d : Db F)
      → IsAuthorized now profile r share_link key d
      → venue.connects key ≡ true
      → place venue r key ≡ placed resp
      → (o : TradeOrder F) × (execute_trade venue now created profile r share_link d
          ≡ (ok o, stored o d))
        × IsFill profile r share_link created o
  unfolding execute_trade
  execute_trade_fills venue now created profile r share_link key resp d a connected done =
      let (o, e, fill) = settle_fills profile r share_link created resp d in
      let passed = authorize_passes venue now profile r share_link key d a connected in
      (
        o,
        settle_after venue created profile r share_link key resp d
              (unfold authorize in authorize venue now profile r share_link d)
              (ap (λ o. o.0) passed) (ap (λ o. o.1) passed) done
            ∙ e,
        fill,
      )
