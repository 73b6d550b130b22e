-- ===== src/Trade/Checks.antt =====
-- The checks of `execute_trade` (backend/app/services/trade_service.py), and how they end.
use coin_hq.Base.{
  ℕ, false, ◌≡◌, refl, ◌⊎◌, inl, inr, Option, none, some, arith, is_some, subst, sym, Bool-cases,
  true, ◌≢◌, Option-cases,
}
use mathlib.Core.Option.{some-injective}
use coin_hq.Base.Text.{Text, text, text_eq, text_beq_iff, upper, lower}
use coin_hq.Number.{Number}
use coin_hq.Store.{Profile, ExchangeKey, ShareLink, Db, Reply, ok, http, crash}
use coin_hq.TradeLimits.{check_delegate_trade, is_side}
use coin_hq.Trade.{Venue, TradeRequest, find_trade_key, spent_today_usd, is_denied, authorize}

none_of_not-is_some {ℓ} : {A : Type ℓ} (o : Option A) → is_some o ≡ false → o ≡ none
none_of_not-is_some none h = refl
none_of_not-is_some (some a) h = cc

not_side : (side : Text) → is_side side ≡ false → (side ≢ text "buy") × (side ≢ text "sell")
not_side side h = (
  λ e. ground (arith, e, h, text_beq_iff side (text "buy")),
  λ e. ground (arith, e, h, text_beq_iff side (text "sell")),
)

module _ {F : Type 0} ⦃n : Number F⦄ where
  open n use {nought, add, lt, le}

  -- A request that passed the checks.
  pub record IsAuthorized (now : ℕ) (profile : Profile) (r : TradeRequest F)
      (share_link : Option (ShareLink F)) (key : ExchangeKey) (d : Db F) : Type 0 where
    pub positive : le r.usd_amount nought ≡ false
    pub side_known : (lower r.side ≡ text "buy") ⊎ (lower r.side ≡ text "sell")
    pub key_found : find_trade_key profile.id (lower r.exchange) d ≡ some key
    pub permitted :
        (link : ShareLink F)
        → share_link ≡ some link
        → check_delegate_trade link
            (lower r.side)
            (upper r.base_asset)
            r.usd_amount
            (spent_today_usd now link.id d)
          ≡ none

  denied_permits :
      (now : ℕ) (share_link : Option (ShareLink F)) (side base : Text) (usd : F) (d : Db F)
      → is_denied now share_link side base usd d ≡ false
      → (link : ShareLink F) → share_link ≡ some link
      → check_delegate_trade link side base usd (spent_today_usd now link.id d) ≡ none
  unfolding is_denied
  denied_permits now none side base usd d h link e = cc
  denied_permits now (some l) side base usd d h link e =
      subst (λ m. check_delegate_trade m side base usd (spent_today_usd now m.id d) ≡ none)
        (some-injective _ _ e) (none_of_not-is_some _ h)

  -- The checks write nothing.
  pub authorize-keeps :
      (venue : Venue F) (now : ℕ) (profile : Profile) (r : TradeRequest F)
      (share_link : Option (ShareLink F)) (d : Db F)
      → (authorize venue now profile r share_link d).1 ≡ d
  unfolding authorize
  authorize-keeps venue now profile r share_link d = ground arith

  pub authorize-IsAuthorized :
      (venue : Venue F) (now : ℕ) (profile : Profile) (r : TradeRequest F)
      (share_link : Option (ShareLink F)) (d : Db F) (key : ExchangeKey)
      → (authorize venue now profile r share_link d).0 ≡ ok key
      → IsAuthorized now profile r share_link key d
  unfolding authorize
  authorize-IsAuthorized venue now profile r share_link d key h = record {
    positive = ground arith;
    side_known = ground (
      arith,
      text_beq_iff (lower r.side) (text "buy"),
      text_beq_iff (lower r.side) (text "sell"),
    );
    key_found = ground arith;
    permitted =
        denied_permits now share_link (lower r.side) (upper r.base_asset) r.usd_amount d
          (ground arith);
  }

  -- Why a check answers with an error code.
  abbrev pub Refuses : ℕ → Profile → TradeRequest F → Option (ShareLink F) → Db F → ℕ → Type 0
  Refuses now profile r share_link d code =
      ((code ≡ 400) × (le r.usd_amount nought ≡ true))
      ⊎ ((code ≡ 400) × (lower r.side ≢ text "buy") × (lower r.side ≢ text "sell"))
      ⊎ ((code ≡ 400) × (find_trade_key profile.id (lower r.exchange) d ≡ none))
      ⊎ ((code ≡ 403)
          × ((link : ShareLink F) × (share_link ≡ some link)
              × (check_delegate_trade link (lower r.side) (upper r.base_asset) r.usd_amount
                    (spent_today_usd now link.id d)
                  ≢ none)))

  is_denied-Refuses :
      (now : ℕ) (share_link : Option (ShareLink F)) (side base : Text) (usd : F) (d : Db F)
      → is_denied now share_link side base usd d ≡ true
      → (link : ShareLink F) × (share_link ≡ some link)
        × (check_delegate_trade link side base usd (spent_today_usd now link.id d) ≢ none)
  unfolding is_denied
  is_denied-Refuses now none side base usd d h = absurd cc
  is_denied-Refuses now (some l) side base usd d h = (l, refl, λ e. absurd (ground (arith, e, h)))

  -- How the checks end: the request passed them with a key that connects, a check refused it, or
  -- it passed them and the key does not connect.
  unfoldable pub Admits :
      Venue F
      → ℕ
      → Profile
      → TradeRequest F
      → Option (ShareLink F)
      → Db F
      → Reply ExchangeKey
      → Type 0
  Admits venue now profile r share_link d (ok key) =
      IsAuthorized now profile r share_link key d × (venue.connects key ≡ true)
  Admits venue now profile r share_link d (http code) = Refuses now profile r share_link d code
  Admits venue now profile r share_link d crash =
      (key : ExchangeKey) × IsAuthorized now profile r share_link key d
      × (venue.connects key ≡ false)

  -- The checks, once the key is found.
  found_key-Admits :
      (venue : Venue F) (now : ℕ) (profile : Profile) (r : TradeRequest F)
      (share_link : Option (ShareLink F)) (d : Db F) (key : ExchangeKey)
      → le r.usd_amount nought ≡ false
      → is_side (lower r.side) ≡ true
      → find_trade_key profile.id (lower r.exchange) d ≡ some key
      → Admits venue now profile r share_link d (authorize venue now profile r share_link d).0
  unfolding authorize
  found_key-Admits venue now profile r share_link d key positive side found =
      let denied = is_denied now share_link (lower r.side) (upper r.base_asset) r.usd_amount d in
      elim (Bool-cases denied) [
        | inl no_limit ↦
            let out : (authorize venue now profile r share_link d).0 ≡ http 403 = ground arith in
            subst (Admits venue now profile r share_link d) (sym out) (
              unfold Admits in
              inr (
                inr (
                  inr (
                    refl,
                    is_denied-Refuses now share_link (lower r.side) (upper r.base_asset)
                        r.usd_amount d no_limit,
                  ))))
        | inr allowed ↦
            let passed : IsAuthorized now profile r share_link key d = record {
              positive = positive;
              side_known = ground (
                arith,
                text_beq_iff (lower r.side) (text "buy"),
                text_beq_iff (lower r.side) (text "sell"),
              );
              key_found = found;
              permitted =
                  denied_permits now share_link (lower r.side) (upper r.base_asset) r.usd_amount d
                    allowed;
            } in
            elim (Bool-cases (venue.connects key)) [
              | inl connects ↦
                  let out : (authorize venue now profile r share_link d).0 ≡ ok key =
                    ground arith in
                  subst (Admits venue now profile r share_link d) (sym out)
                    (unfold Admits in (passed, connects))
              | inr broken_key ↦
                  let out : (authorize venue now profile r share_link d).0 ≡ crash = ground arith in
                  subst (Admits venue now profile r share_link d) (sym out)
                    (unfold Admits in (key, passed, broken_key))
            ]
      ]

  pub authorize-Admits :
      (venue : Venue F) (now : ℕ) (profile : Profile) (r : TradeRequest F)
      (share_link : Option (ShareLink F)) (d : Db F)
      → Admits venue now profile r share_link d (authorize venue now profile r share_link d).0
  unfolding authorize
  authorize-Admits venue now profile r share_link d = elim (Bool-cases (le r.usd_amount nought)) [
    | inl bad ↦
        let out : (authorize venue now profile r share_link d).0 ≡ http 400 = ground arith in
        subst (Admits venue now profile r share_link d) (sym out) (unfold Admits in inl (refl, bad))
    | inr positive ↦ elim (Bool-cases (is_side (lower r.side))) [
      | inr other ↦
          let out : (authorize venue now profile r share_link d).0 ≡ http 400 = ground arith in
          let (buys_not, sells_not) = not_side (lower r.side) other in
          subst (Admits venue now profile r share_link d) (sym out)
            (unfold Admits in inr (inl (refl, buys_not, sells_not)))
      | inl side ↦ elim (Option-cases (find_trade_key profile.id (lower r.exchange) d)) [
        | inl missing ↦
            let out : (authorize venue now profile r share_link d).0 ≡ http 400 = ground arith in
            subst (Admits venue now profile r share_link d) (sym out)
              (unfold Admits in inr (inr (inl (refl, missing))))
        | inr (key, found) ↦
            found_key-Admits venue now profile r share_link d key positive side found
      ]
    ]
  ]
