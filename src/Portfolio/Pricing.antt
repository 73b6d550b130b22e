-- ===== src/Portfolio/Pricing.antt =====
-- How a venue's balances are priced (backend/app/services/portfolio_service.py).
use coin_hq.Base.{◌≡◌, refl, ap, Option-cases, inl, inr, List, [], ◌∷◌, map, some, or_else}
use coin_hq.Base.Text.{Text, text_eq}
use coin_hq.Base.Dict.{Dict, lookup, get_or, HasUniqueKeys, lookup-update-none, lookup-update-some}
use coin_hq.Number.{Number, sum, sum_from}
use coin_hq.Portfolio.{
  Balance, value_of, price_from, build_exchange_balance, venue_prices, stablecoins,
}

module _ {F : Type 0} ⦃n : Number F⦄ where
  open n use {nought, add, mul}

  abbrev pub priced : Dict Text F → Balance F → Balance F
  priced prices b = record b { usd_value = some (value_of prices b) }

  price_from_lem :
      (prices : Dict Text F) (total : F) (bs : List (Balance F))
      → ((price_from prices total bs).0 ≡ sum_from total (map (value_of prices) bs))
        × ((price_from prices total bs).1 ≡ map (priced prices) bs)
  unfolding price_from sum_from
  price_from_lem prices total [] = (refl, refl)
  price_from_lem prices total (b ∷ bs) =
      let (t, rest) = price_from_lem prices (add total (value_of prices b)) bs in
      (t, ap (◌∷◌ (priced prices b)) rest)

  -- Every balance of a venue is priced by itself, in order, and changes in nothing but its
  -- value; the total of the venue is the sum of the values shown.
  build_exchange_balance_lem :
      (exchange : Text) (bs : List (Balance F)) (prices : Dict Text F)
      → let ex = build_exchange_balance exchange bs prices in
        (ex.balances ≡ map (priced prices) bs) × (ex.total_usd ≡ sum (map (value_of prices) bs))
  unfolding build_exchange_balance
  build_exchange_balance_lem exchange bs prices =
      let (t, rest) = price_from_lem prices nought bs in (rest, t)

  -- A venue that quotes anything is authoritative, where its quotes name each asset once: a
  -- balance is worth its amount at the venue's own quote, or at a dollar if it is a stablecoin
  -- that the venue does not quote, or at nothing. The global prices are not looked at.
  value_of-venue :
      (p : Text × F) (ps global_prices : Dict Text F) (b : Balance F)
      → HasUniqueKeys (p ∷ ps)
      → value_of (venue_prices (p ∷ ps) global_prices) b
        ≡ mul (or_else (lookup b.asset (p ∷ ps)) (get_or b.asset nought stablecoins)) b.total
  unfolding value_of venue_prices
  value_of-venue p ps global_prices b unique = elim (Option-cases (lookup b.asset (p ∷ ps))) [
    | inl missing ↦ rw missing (
        ap (λ o. mul (or_else o nought) b.total)
          (lookup-update-none b.asset stablecoins (p ∷ ps) missing))
    | inr (price, found) ↦ rw found (
        ap (λ o. mul (or_else o nought) b.total)
          (lookup-update-some b.asset price stablecoins (p ∷ ps) unique found))
  ]
