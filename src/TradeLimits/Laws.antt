-- ===== src/TradeLimits/Laws.antt =====
-- When backend/app/core/trade_limits.py lets a delegated trade through.
use coin_hq.Base.{
  true, false, ◌≡◌, ◌⊎◌, ◌↔◌, List, [], ◌∷◌, Option, none, some, contains, arith, refl,
}
use coin_hq.Base.Text.{Text, text, text_eq, text_beq_iff, upper, lower}
use coin_hq.Number.{Number, ◌≼◌}
use coin_hq.Number.Laws.{IsOrdered}
use coin_hq.Store.{ShareLink}
use coin_hq.TradeLimits.{check_delegate_trade, allowed_coins, direction_of, is_listed, exceeds}

is_listed_iff :
    (cs : List Text) (c : Text) → (is_listed cs c ≡ true) ↔ ((cs ≡ []) ⊎ (contains cs c ≡ true))
is_listed_iff [] c = ground arith
is_listed_iff (d ∷ cs) c = ground arith

module _ {F : Type 0} ⦃n : Number F⦄ where
  open n use {nought, add, lt, le}

  -- An amount is within a cap, if there is one.
  abbrev pub IsWithin : Option F → F → Type 0
  IsWithin cap x = (c : F) → cap ≡ some c → x ≼ c

  -- What the owner has permitted on the link.
  pub record IsPermitted (link : ShareLink F) (side base_asset : Text) (usd spent : F)
      : Type 0 where
    pub tradable : link.can_trade ≡ true
    pub side_known : (lower side ≡ text "buy") ⊎ (lower side ≡ text "sell")
    buys_only : direction_of link.trade_direction ≡ text "buy" → lower side ≡ text "buy"
    sells_only : direction_of link.trade_direction ≡ text "sell" → lower side ≡ text "sell"
    coin_allowed :
        (allowed_coins link.trade_allowed_coins ≡ [])
        ⊎ (contains (allowed_coins link.trade_allowed_coins) (upper base_asset) ≡ true)
    pub positive : lt nought usd ≡ true
    order_within : IsWithin link.trade_max_per_order_usd usd
    pub day_within : IsWithin link.trade_daily_limit_usd (add spent usd)

  module _ (laws : IsOrdered F) where
    exceeds_iff : (cap : Option F) (x : F) → (exceeds cap x ≡ false) ↔ IsWithin cap x
    exceeds_iff none x = (λ h c e. cc, λ h. refl)
    exceeds_iff (some cap) x = (
      λ h c e. ground (arith, laws.lt-eq-not-le cap x),
      λ h. ground (arith, laws.lt-eq-not-le cap x, h cap refl),
    )

    -- `check_delegate_trade` passes exactly when the link permits the trade: it may trade,
    -- the side is buy or sell and fits the direction, the coin is on the whitelist if there
    -- is one, the amount is positive, and neither the order nor the 24 hour total exceeds its
    -- cap. Amounts are ordered as IEEE numbers are.
    pub check_delegate_trade_iff :
        (link : ShareLink F) (side base_asset : Text) (usd spent : F)
        → (check_delegate_trade link side base_asset usd spent ≡ none)
          ↔ IsPermitted link side base_asset usd spent
    unfolding check_delegate_trade
    check_delegate_trade_iff link side base_asset usd spent =
        let s = lower side in
        let dir = direction_of link.trade_direction in
        let coins = allowed_coins link.trade_allowed_coins in
        let listed = is_listed_iff coins (upper base_asset) in
        let order = exceeds_iff link.trade_max_per_order_usd usd in
        let day = exceeds_iff link.trade_daily_limit_usd (add spent usd) in
        let sb = text_beq_iff s (text "buy") in
        let ss = text_beq_iff s (text "sell") in
        let db = text_beq_iff dir (text "buy") in
        let ds = text_beq_iff dir (text "sell") in
        let pos = laws.lt-eq-not-le nought usd in
        (
          λ h. record {
            tradable = ground arith;
            side_known = ground arith;
            buys_only = ground arith;
            sells_only = ground arith;
            coin_allowed = ground arith;
            positive = ground arith;
            order_within = order.0 (ground arith);
            day_within = day.0 (ground arith);
          },
          λ p. let o = order.1 p.order_within in let d = day.1 p.day_within in ground arith,
        )
