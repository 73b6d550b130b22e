-- ===== src/Share/Privacy.antt =====
-- What a share link's public view reveals (`public_share_view` of backend/app/api/v1/share.py).
use coin_hq.Base.{ℕ, false, ◌≡◌, refl, List, [], ◌∷◌, map, none, arith, All, Bool-cases, inl, inr}
use coin_hq.Base.Text.{Text}
use coin_hq.Base.Dict.{Dict, lookup}
use coin_hq.Number.{Number}
use coin_hq.Store.{ShareLink, Db}
use coin_hq.Portfolio.{Balance, ExchangeBalance, PortfolioResponse}
use coin_hq.Share.Public.{
  SharedAsset, SharedExchange, SharedPortfolioView, share_asset, share_assets, share_exchange,
  share_view, mask_exchange, avg_price,
}

module _ {F : Type 0} ⦃n : Number F⦄ where
  open n use {nought, eq}

  -- An asset shows only what the link's flags let it show.
  pub record IsPrivateAsset (link : ShareLink F) (a : SharedAsset F) : Type 0 where
    pub amount : link.show_coin_amounts ≡ false → a.amount ≡ none
    pub value : link.show_total_value ≡ false → a.usd_value ≡ none
    pub allocation : link.show_allocation_pct ≡ false → a.allocation_pct ≡ none
    pub price : link.show_avg_buy_price ≡ false → a.avg_buy_price ≡ none

  pub record IsPrivateExchange (link : ShareLink F) (ex : SharedExchange F) : Type 0 where
    pub total : link.show_total_value ≡ false → ex.total_usd ≡ none
    pub assets : All (IsPrivateAsset link) ex.assets

  -- A view shows of a portfolio only what the flags of the link allow; a hidden name is hashed, and
  -- the names of the venues with a trade key are there only if the link may trade.
  pub record IsPrivateView (digest : Text → Text) (link : ShareLink F)
      (portfolio : PortfolioResponse F) (view : SharedPortfolioView F) : Type 0 where
    pub total : link.show_total_value ≡ false → view.total_usd ≡ none
    pub exchanges : All (IsPrivateExchange link) view.exchanges
    names :
        link.show_exchange_names ≡ false
        → map (λ ex. ex.exchange_name) view.exchanges
          ≡ map (λ ex. mask_exchange digest ex.exchange) portfolio.exchanges
    pub tradable : link.can_trade ≡ false → view.tradable_exchanges ≡ []

  -- Average prices were fetched only for a link that shows them.
  abbrev pub IsOptedIn : ShareLink F → Dict Text (Dict Text F) → Type 0
  IsOptedIn link avg = link.show_avg_buy_price ≡ false → avg ≡ []

  no_avg_price : (exchange asset : Text) → avg_price {F = F} [] exchange asset ≡ none
  unfolding lookup
  no_avg_price exchange asset = refl

  module _ (link : ShareLink F) (avg : Dict Text (Dict Text F)) (opted : IsOptedIn link avg) where
    share_assets-IsPrivateAsset :
        (grand : F) (exchange : Text) (bs : List (Balance F))
        → All (IsPrivateAsset link) (share_assets link grand avg exchange bs)
    unfolding share_assets
    share_assets-IsPrivateAsset grand exchange [] = tt
    share_assets-IsPrivateAsset grand exchange (b ∷ bs) = elim (Bool-cases (eq b.total nought)) [
      | inl empty ↦ rw empty (share_assets-IsPrivateAsset grand exchange bs)
      | inr held ↦ rw held (
        record {
          amount = ground arith;
          value = ground arith;
          allocation = ground arith;
          price = λ off. rw (opted off) (no_avg_price exchange b.asset);
        },
        share_assets-IsPrivateAsset grand exchange bs,
      )
    ]

    share_exchanges-IsPrivateExchange :
        (digest : Text → Text) (grand : F) (exs : List (ExchangeBalance F))
        → All (IsPrivateExchange link) (map (share_exchange digest link grand avg) exs)
    unfolding share_exchange
    share_exchanges-IsPrivateExchange digest grand [] = tt
    share_exchanges-IsPrivateExchange digest grand (ex ∷ exs) = (
      record {
        total = ground arith;
        assets = share_assets-IsPrivateAsset grand ex.exchange ex.balances;
      },
      share_exchanges-IsPrivateExchange digest grand exs,
    )

    share_exchanges-names :
        (digest : Text → Text) (grand : F) (exs : List (ExchangeBalance F))
        → link.show_exchange_names ≡ false
        → map (λ ex. ex.exchange_name) (map (share_exchange digest link grand avg) exs)
          ≡ map (λ ex. mask_exchange digest ex.exchange) exs
    unfolding share_exchange
    share_exchanges-names digest grand [] hidden = refl
    share_exchanges-names digest grand (ex ∷ exs) hidden =
        rw (hidden, share_exchanges-names digest grand exs hidden)

    pub share_view-IsPrivateView :
        (digest : Text → Text) (now : ℕ) (portfolio : PortfolioResponse F) (d : Db F)
        → IsPrivateView digest link portfolio (share_view digest now link portfolio avg d)
    unfolding share_view
    share_view-IsPrivateView digest now portfolio d = record {
      total = ground arith;
      exchanges = share_exchanges-IsPrivateExchange digest portfolio.total_usd portfolio.exchanges;
      names = share_exchanges-names digest portfolio.total_usd portfolio.exchanges;
      tradable = ground arith;
    }

  -- Two balances that differ at most in how much is held.
  pub record IsAlike (b c : Balance F) : Type 0 where
    pub asset : b.asset ≡ c.asset
    pub held : eq b.total nought ≡ eq c.total nought

  abbrev pub AreAlike : List (Balance F) → List (Balance F) → Type 0
  AreAlike [] [] = Unit
  AreAlike [] (c ∷ cs) = ⊥
  AreAlike (b ∷ bs) [] = ⊥
  AreAlike (b ∷ bs) (c ∷ cs) = IsAlike b c × AreAlike bs cs

  -- Two portfolios with the same venues and the same assets at each.
  abbrev pub SameAssets : List (ExchangeBalance F) → List (ExchangeBalance F) → Type 0
  SameAssets [] [] = Unit
  SameAssets [] (y ∷ ys) = ⊥
  SameAssets (x ∷ xs) [] = ⊥
  SameAssets (x ∷ xs) (y ∷ ys) =
      (x.exchange ≡ y.exchange) × AreAlike x.balances y.balances × SameAssets xs ys

  -- A link that shows neither amounts, nor values, nor allocations.
  pub record IsDiscreet (link : ShareLink F) : Type 0 where
    pub no_amounts : link.show_coin_amounts ≡ false
    pub no_values : link.show_total_value ≡ false
    pub no_allocation : link.show_allocation_pct ≡ false

  module _ (link : ShareLink F) (quiet : IsDiscreet link) (avg : Dict Text (Dict Text F)) where
    share_asset_alike :
        (g h : F) (x : Text) (b c : Balance F)
        → IsAlike b c
        → share_asset link g avg x b ≡ share_asset link h avg x c
    share_asset_alike g h x b c alike = ground (arith, quiet, alike)

    share_assets_alike :
        (g h : F) (x : Text) (bs cs : List (Balance F))
        → AreAlike bs cs
        → share_assets link g avg x bs ≡ share_assets link h avg x cs
    unfolding share_assets
    share_assets_alike g h x [] [] alike = refl
    share_assets_alike g h x [] (c ∷ cs) alike = absurd alike
    share_assets_alike g h x (b ∷ bs) [] alike = absurd alike
    share_assets_alike g h x (b ∷ bs) (c ∷ cs) (alike, rest) =
        ground (arith, share_asset_alike g h x b c alike, share_assets_alike g h x bs cs rest)

    share_exchanges_alike :
        (digest : Text → Text) (g h : F) (xs ys : List (ExchangeBalance F))
        → SameAssets xs ys
        → map (share_exchange digest link g avg) xs ≡ map (share_exchange digest link h avg) ys
    unfolding share_exchange
    share_exchanges_alike digest g h [] [] same = refl
    share_exchanges_alike digest g h [] (y ∷ ys) same = absurd same
    share_exchanges_alike digest g h (x ∷ xs) [] same = absurd same
    share_exchanges_alike digest g h (x ∷ xs) (y ∷ ys) (name, alike, rest) = ground (
      arith,
      quiet,
      share_assets_alike g h x.exchange x.balances y.balances alike,
      share_exchanges_alike digest g h xs ys rest,
    )

    -- Noninterference: a link that shows neither amounts, nor values, nor allocations gives
    -- one and the same view of any two portfolios that hold the same assets at the same
    -- venues and agree on which of them are zero, however much they hold and whatever it is
    -- worth, given the same average prices and database.
    pub share_view_discreet :
        (digest : Text → Text) (now : ℕ) (p q : PortfolioResponse F) (d : Db F)
        → SameAssets p.exchanges q.exchanges
        → share_view digest now link p avg d ≡ share_view digest now link q avg d
    unfolding share_view
    share_view_discreet digest now p q d same = ground (
      arith,
      quiet,
      share_exchanges_alike digest p.total_usd q.total_usd p.exchanges q.exchanges same,
    )
