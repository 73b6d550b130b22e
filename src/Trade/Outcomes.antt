-- ===== src/Trade/Outcomes.antt =====
-- What `execute_trade` of backend/app/services/trade_service.py does on each of its ways out.
use coin_hq.Base.{◌++◌, ℕ, suc, false, ◌≡◌, refl, ◌⊎◌, inl, inr, Option, true}
use coin_hq.Base.Text.{text, text_eq, upper, lower}
use coin_hq.Number.{Number}
use coin_hq.Store.{Profile, ExchangeKey, ShareLink, TradeOrder, Db, Reply, ok, http, crash}
use coin_hq.Trade.{
  Venue, TradeRequest, Placement, placed, unsupported, bad_request, unreachable, broken, Response,
  first_truthy, place, link_id_of, authorize, settle, execute_trade, add_order,
}
use coin_hq.Trade.Checks.{IsAuthorized, Refuses, Admits, authorize-Admits, authorize-keeps}

module _ {F : Type 0} ⦃n : Number F⦄ where
  -- A filled order, as it is stored.
  pub record IsFill (profile : Profile) (r : TradeRequest F) (share_link : Option (ShareLink F))
      (created : ℕ) (o : TradeOrder F) : Type 0 where
    pub filled : o.status ≡ text "filled"
    pub value : o.usd_value ≡ r.usd_amount
    pub owner : o.profile_id ≡ profile.id
    pub link : o.share_link_id ≡ link_id_of share_link
    pub asset : o.base_asset ≡ upper r.base_asset
    pub side : o.side ≡ lower r.side
    pub stamp : o.created_at ≡ created
    pub exchange : o.exchange ≡ lower r.exchange
    pub symbol : o.symbol ≡ upper r.base_asset ++ text "USDT"
    pub actor : o.actor ≡ r.actor

  -- An order that the exchange could not take, as it is stored.
  pub record IsFailure (profile : Profile) (r : TradeRequest F) (share_link : Option (ShareLink F))
      (created : ℕ) (o : TradeOrder F) : Type 0 where
    pub failed : o.status ≡ text "failed"
    pub value : o.usd_value ≡ r.usd_amount
    pub owner : o.profile_id ≡ profile.id
    pub link : o.share_link_id ≡ link_id_of share_link
    pub asset : o.base_asset ≡ upper r.base_asset
    pub side : o.side ≡ lower r.side
    pub stamp : o.created_at ≡ created
    pub exchange : o.exchange ≡ lower r.exchange
    pub symbol : o.symbol ≡ upper r.base_asset ++ text "USDT"
    pub actor : o.actor ≡ r.actor

  -- What the exchange's answer adds to a filled order.
  abbrev pub Reports : Response F → TradeOrder F → Type 0
  Reports resp o =
      (o.amount ≡ resp.executed_qty)
      × (o.exchange_order_id ≡ first_truthy resp.order_id resp.ord_id)

  abbrev pub stored : TradeOrder F → Db F → Db F
  stored o d = add_order o (record d { next_id = suc d.next_id })

  -- A trade request has one of these ends. A filled order: the request had passed every check, the
  -- exchange took it, the order says what was asked and answered, and it is the only change besides
  -- the counter. An error code: a check or the adapter refused the request and nothing changes, or
  -- the exchange failed (502) and one failed order is added. Another exception: the key does not
  -- connect, or the call for the order broke off, and nothing changes.
  abbrev pub Trades :
      Venue F
      → ℕ
      → ℕ
      → Profile
      → TradeRequest F
      → Option (ShareLink F)
      → Db F
      → Reply (TradeOrder F) × Db F
      → Type 0
  Trades venue now created profile r share_link d (ok o, e) =
      IsFill profile r share_link created o
      × (e ≡ stored o d)
      × ((key : ExchangeKey) × IsAuthorized now profile r share_link key d
          × (venue.connects key ≡ true)
          × ((resp : Response F) × (place venue r key ≡ placed resp) × Reports resp o))
  Trades venue now created profile r share_link d (http code, e) =
      ((Refuses now profile r share_link d code
          ⊎ ((code ≡ 400)
              × ((key : ExchangeKey) × IsAuthorized now profile r share_link key d
                  × ((place venue r key ≡ unsupported) ⊎ (place venue r key ≡ bad_request)))))
        × (e ≡ d))
      ⊎ ((code ≡ 502)
          × ((o : TradeOrder F) × IsFailure profile r share_link created o × (e ≡ stored o d))
          × ((key : ExchangeKey) × IsAuthorized now profile r share_link key d
              × (place venue r key ≡ unreachable)))
  Trades venue now created profile r share_link d (crash, e) =
      ((key : ExchangeKey) × IsAuthorized now profile r share_link key d
        × ((venue.connects key ≡ false) ⊎ (place venue r key ≡ broken)))
      × (e ≡ d)

  settle-Trades :
      (venue : Venue F) (now created : ℕ) (profile : Profile) (r : TradeRequest F)
      (share_link : Option (ShareLink F)) (key : ExchangeKey) (d : Db F) (p : Placement F)
      → IsAuthorized now profile r share_link key d
      → venue.connects key ≡ true
      → place venue r key ≡ p
      → Trades venue now created profile r share_link d (settle profile r share_link created p d)
  unfolding settle
  settle-Trades venue now created profile r share_link key d unsupported a connects h =
      inl (inr (refl, (key, a, inl h)), refl)
  settle-Trades venue now created profile r share_link key d bad_request a connects h =
      inl (inr (refl, (key, a, inr h)), refl)
  settle-Trades venue now created profile r share_link key d broken a connects h =
      ((key, a, inr h), refl)
  settle-Trades venue now created profile r share_link key d unreachable a connects h = inr (
    refl,
    (
      _,
      record {
        failed = refl;
        value = refl;
        owner = refl;
        link = refl;
        asset = refl;
        side = refl;
        stamp = refl;
        exchange = refl;
        symbol = refl;
        actor = refl;
      },
      refl,
    ),
    (key, a, h),
  )
  settle-Trades venue now created profile r share_link key d (placed resp) a connects h = (
    record {
      filled = refl;
      value = refl;
      owner = refl;
      link = refl;
      asset = refl;
      side = refl;
      stamp = refl;
      exchange = refl;
      symbol = refl;
      actor = refl;
    },
    refl,
    (key, a, connects, (resp, h, (refl, refl))),
  )

  after_authorize :
      (venue : Venue F) (now created : ℕ) (profile : Profile) (r : TradeRequest F)
      (share_link : Option (ShareLink F)) (d : Db F) (out : Reply ExchangeKey × Db F)
      → Admits venue now profile r share_link d out.0
      → out.1 ≡ d
      → Trades venue now created profile r share_link d (elim out.0 [
        | ok key ↦ settle profile r share_link created (place venue r key) out.1
        | http c ↦ (http c, out.1)
        | crash ↦ (crash, out.1)
      ])
  unfolding Admits
  after_authorize venue now created profile r share_link d (ok key, e) (a, connects) same =
      rw same (settle-Trades venue now created profile r share_link key d _ a connects refl)
  after_authorize venue now created profile r share_link d (http c, e) refused same =
      inl (inl refused, same)
  after_authorize venue now created profile r share_link d (crash, e) (key, a, fails) same =
      ((key, a, inl fails), same)

  -- How a call of `execute_trade` ends. It returns a filled order that says what was asked and
  -- what the exchange answered, and stored it: then the request had passed every check, the key
  -- connected and the exchange took the order. Or it fails with 400 or 403 for a check that
  -- refused, or with 400 after the checks because the adapter refused the order, and changes
  -- nothing. Or it fails with 502 after the checks because the exchange could not be reached,
  -- and stores one failed order that says what was asked. Or another exception ends it after
  -- the checks, as the key does not connect or the call for the order broke off, and nothing
  -- changes.
  pub execute_trade-Trades :
      (venue : Venue F) (now created : ℕ) (profile : Profile) (r : TradeRequest F)
      (share_link : Option (ShareLink F)) (d : Db F)
      → Trades venue now created profile r share_link d
          (execute_trade venue now created profile r share_link d)
  unfolding execute_trade
  execute_trade-Trades venue now created profile r share_link d =
      after_authorize venue now created profile r share_link d
        (unfold authorize in authorize venue now profile r share_link d)
        (authorize-Admits venue now profile r share_link d)
        (authorize-keeps venue now profile r share_link d)
