-- ===== src/Pnl/PerAsset.antt =====
-- Assets are accounted for one by one (backend/app/services/pnl_service.py).
use coin_hq.Base.{
  ◌≡◌, refl, List, [], ◌∷◌, Option, none, some, if◌then◌else◌, keep, or_else, arith, ◌==◌,
  Bool-cases, inl, inr, sym,
}
use coin_hq.Base.Text.{Text, text_eq, text_beq_iff, upper}
use coin_hq.Base.Dict.{Dict, lookup, get_or, lookup-insert}
use coin_hq.Number.{Number}
use coin_hq.Pnl.{AssetState, Trade, no_trades, apply_trade, add_trade, states_from}

module _ {F : Type 0} ⦃n : Number F⦄ where
  -- The orders of one asset, whatever the case of its letters.
  abbrev pub trades_in : Text → List (Trade F) → List (Trade F)
  trades_in a = keep (λ t. upper t.base_asset == a)

  -- The loop on one state.
  unfoldable pub run_trades : AssetState F → List (Trade F) → AssetState F
  run_trades s [] = s
  run_trades s (t ∷ ts) = run_trades (apply_trade t s) ts

  -- The state of an asset that is known, or was just read.
  abbrev pub entry : Option (AssetState F) → List (Trade F) → Option (AssetState F)
  entry (some s) ts = some (run_trades s ts)
  entry none [] = none
  entry none (t ∷ ts) = some (run_trades no_trades (t ∷ ts))

  lookup-add_trade :
      (a : Text) (states : Dict Text (AssetState F)) (t : Trade F)
      → lookup a (add_trade states t) ≡ (
          if upper t.base_asset == a
          then some (apply_trade t (get_or a no_trades states))
          else lookup a states)
  unfolding add_trade
  lookup-add_trade a states t = elim (Bool-cases (upper t.base_asset == a)) [
    | inl same ↦
        rw (lookup-insert, (text_beq_iff (upper t.base_asset) a).0 same, (text_beq_iff a a).1 refl)
    | inr other ↦ ground (
      arith,
      lookup-insert a (upper t.base_asset)
          (apply_trade t (get_or (upper t.base_asset) no_trades states)) states,
      text_beq_iff (upper t.base_asset) a,
      text_beq_iff a (upper t.base_asset),
    )
  ]

  entry-apply_trade :
      (known : Option (AssetState F)) (t : Trade F) (ts : List (Trade F))
      → entry (some (apply_trade t (or_else known no_trades))) ts ≡ entry known (t ∷ ts)
  unfolding run_trades
  entry-apply_trade none t ts = refl
  entry-apply_trade (some s) t ts = refl

  entry_nil : (known : Option (AssetState F)) → entry known [] ≡ known
  unfolding run_trades
  entry_nil none = refl
  entry_nil (some s) = refl

  states_from-entry :
      (a : Text) (states : Dict Text (AssetState F)) (ts : List (Trade F))
      → lookup a (states_from states ts) ≡ entry (lookup a states) (trades_in a ts)
  unfolding states_from
  states_from-entry a states [] = sym (entry_nil (lookup a states))
  states_from-entry a states (t ∷ ts) = elim (Bool-cases (upper t.base_asset == a)) [
    | inl same ↦ rw (
      states_from-entry a (add_trade states t) ts,
      lookup-add_trade a states t,
      same,
      entry-apply_trade (lookup a states) t (trades_in a ts),
    )
    | inr other ↦
        rw (states_from-entry a (add_trade states t) ts, lookup-add_trade a states t, other)
  ]

  -- The loop over all orders leaves for each asset what it leaves when it runs over the orders
  -- of that asset alone, in any case of its letters, from an empty position; an asset without
  -- an order has no entry.
  pub states_from-PerAsset :
      (a : Text) (ts : List (Trade F)) → lookup a (states_from [] ts) ≡ entry none (trades_in a ts)
  unfolding lookup
  states_from-PerAsset a ts = states_from-entry a [] ts
