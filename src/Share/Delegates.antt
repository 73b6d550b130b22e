-- ===== src/Share/Delegates.antt =====
-- What a delegate can do (`delegate_trade` of backend/app/api/v1/share.py).
use coin_hq.Base.{
  ℕ, true, ◌≡◌, refl, inl, inr, some, arith, Option-cases, nat_beq_iff, find_passes, ◌==◌, nat_eq,
  ◌∙◌,
}
use coin_hq.Base.Text.{Text, text, upper, lower}
use coin_hq.Number.{Number}
use coin_hq.Number.Laws.{IsOrdered}
use coin_hq.Store.{Profile, ShareLink, TradeOrder, Db, Reply, ok, http, crash}
use coin_hq.Store.Queries.{get_profile}
use coin_hq.TradeLimits.Laws.{IsPermitted, check_delegate_trade_iff}
use coin_hq.Trade.{Venue, TradeRequest, spent_today_usd, execute_trade}
use coin_hq.Trade.Outcomes.{Trades, execute_trade-Trades}
use coin_hq.Share.{find_active}
use coin_hq.Share.Public.{delegate_trade}
use coin_hq.Share.Liveness.{IsLive}

module _ {F : Type 0} ⦃n : Number F⦄ where
  abbrev as_delegate : TradeRequest F → TradeRequest F
  as_delegate r = record r { actor = text "delegate" }

  -- The call, once the link is found live and able to trade and its profile is there.
  delegate_trade_live :
      (venue : Venue F) (token : Text) (now created : ℕ) (r : TradeRequest F) (d : Db F)
      (link : ShareLink F) (p : Profile)
      → IsLive token now d link
      → link.can_trade ≡ true
      → get_profile link.profile_id d ≡ some p
      → delegate_trade venue token now created r d
        ≡ execute_trade venue now created p (as_delegate r) (some link) d
  unfolding delegate_trade
  delegate_trade_live venue token now created r d link p live can there =
      ground (arith, live, can, there)

  -- Every other call fails.
  delegate_trade_dead :
      (venue : Venue F) (token : Text) (now created : ℕ) (r : TradeRequest F) (d : Db F)
      (o : TradeOrder F)
      → (delegate_trade venue token now created r d).0 ≡ ok o
      → (link : ShareLink F) × IsLive token now d link
        × (link.can_trade ≡ true)
        × ((p : Profile) × (get_profile link.profile_id d ≡ some p))
  unfolding delegate_trade
  delegate_trade_dead venue token now created r d o h = elim (Option-cases (find_active token d)) [
    | inl missing ↦ absurd (ground (arith, missing, h))
    | inr (l, found) ↦ elim (Option-cases (get_profile l.profile_id d)) [
      | inl gone ↦ absurd (ground (arith, found, gone, h))
      | inr (p, there) ↦
          (l, record { found = found; in_time = ground arith }, ground arith, (p, there))
    ]
  ]

  module _ (laws : IsOrdered F) where
    Trades-IsPermitted :
        (venue : Venue F) (now created : ℕ) (p : Profile) (r : TradeRequest F) (link : ShareLink F)
        (d : Db F) (o : TradeOrder F) (out : Reply (TradeOrder F) × Db F)
        → out.0 ≡ ok o
        → Trades venue now created p r (some link) d out
        → IsPermitted link
            (lower r.side)
            (upper r.base_asset)
            r.usd_amount
            (spent_today_usd now link.id d)
          × (o.share_link_id ≡ some link.id)
          × (o.profile_id ≡ p.id)
          × (o.usd_value ≡ r.usd_amount)
    Trades-IsPermitted venue now created p r link d o (ok x, e) h (fill, _, (key, a, _, _)) =
        let same : x ≡ o = cc in
        (
          (check_delegate_trade_iff laws link _ _ _ _).0 (a.permitted link refl),
          rw (← same) fill.link,
          rw (← same) fill.owner,
          rw (← same) fill.value,
        )
    Trades-IsPermitted venue now created p r link d o (http c, e) h t = cc
    Trades-IsPermitted venue now created p r link d o (crash, e) h t = cc

    -- If a delegated trade returns an order, then the token is that of an active, unexpired
    -- link; the link permits the side, the coin and the amount, with what it spent in the
    -- last 24 hours; and the order stands under that link and its profile with the amount
    -- asked. Amounts are ordered as IEEE numbers are.
    pub delegate_trade-IsPermitted :
        (venue : Venue F) (token : Text) (now created : ℕ) (r : TradeRequest F) (d : Db F)
        (o : TradeOrder F)
        → (delegate_trade venue token now created r d).0 ≡ ok o
        → (link : ShareLink F) × IsLive token now d link
          × IsPermitted link
              (lower r.side)
              (upper r.base_asset)
              r.usd_amount
              (spent_today_usd now link.id d)
          × (o.share_link_id ≡ some link.id)
          × (o.profile_id ≡ link.profile_id)
          × (o.usd_value ≡ r.usd_amount)
    delegate_trade-IsPermitted venue token now created r d o h =
        let (l, live, can, (p, there)) = delegate_trade_dead venue token now created r d o h in
        let same = delegate_trade_live venue token now created r d l p live can there in
        let (permitted, mine, owner, value) =
          Trades-IsPermitted venue now created p (as_delegate r) l d o
            (execute_trade venue now created p (as_delegate r) (some l) d) (rw (← same) h)
            (execute_trade-Trades venue now created p (as_delegate r) (some l) d) in
        let at : p.id ≡ l.profile_id =
          (nat_beq_iff p.id l.profile_id).0
            (find_passes (λ x. x.id == l.profile_id) d.profiles {a = p} there) in
        (l, live, permitted, mine, owner ∙ at, value)
