-- ===== src/Pnl/Figures.antt =====
-- What a position counts and how it stays covered (backend/app/services/pnl_service.py).
use coin_hq.Base.{
  ◌+◌, Bool, true, false, ◌≡◌, refl, List, [], ◌∷◌, map, All, keep, length, arith, ◌==◌, Bool-cases,
  subst, sym, none, some, ◌∙◌, inl, inr, ◌&&◌,
}
use coin_hq.Base.Text.{Text, upper, text, text_eq, text_beq, text_beq_iff}
use coin_hq.Number.{Number, ◌≼◌, minimum, sum_from}
use coin_hq.Number.Laws.{IsOrdered, add_nonneg, minimum-le_right}
use coin_hq.Pnl.{
  AssetState, Trade, no_trades, apply_trade, apply_buy, apply_sell, release, states_from,
}
use coin_hq.Base.Dict.{lookup}
use coin_hq.Pnl.PerAsset.{run_trades, trades_in, entry, states_from-PerAsset}

module _ {F : Type 0} ⦃n : Number F⦄ where
  abbrev pub is_buy : Trade F → Bool
  is_buy t = t.side == text "buy"

  abbrev pub is_sell : Trade F → Bool
  is_sell t = t.side == text "sell"

  -- The totals of a position from some figures on.
  abbrev pub HasTotalsFrom : AssetState F → List (Trade F) → AssetState F → Type 0
  HasTotalsFrom s ts r =
      (r.buy_count ≡ s.buy_count + length (keep is_buy ts))
      × (r.sell_count ≡ s.sell_count + length (keep is_sell ts))
      × (r.total_bought_usd ≡ sum_from s.total_bought_usd (map (λ t. t.usd_value) (keep is_buy ts)))
      × (r.total_sold_usd ≡ sum_from s.total_sold_usd (map (λ t. t.usd_value) (keep is_sell ts)))

  release_totals :
      (amount usd : F) (s : AssetState F)
      → ((release amount usd s).buy_count ≡ s.buy_count)
        × ((release amount usd s).sell_count ≡ s.sell_count)
        × ((release amount usd s).total_bought_usd ≡ s.total_bought_usd)
        × ((release amount usd s).total_sold_usd ≡ s.total_sold_usd)
  unfolding release
  release_totals amount usd s =
      elim (Bool-cases (n.lt n.nought (minimum amount s.qty) && n.lt n.nought s.qty)) [
        | inl e ↦ rw e (refl, refl, refl, refl)
        | inr e ↦ rw e (refl, refl, refl, refl)
      ]

  HasTotalsFrom-start : (s : AssetState F) → HasTotalsFrom s [] s
  unfolding sum_from
  HasTotalsFrom-start s = (omega arith, omega arith, refl, refl)

  sell_not_buy : (t : Trade F) → is_buy t ≡ true → is_sell t ≡ false
  unfolding text_beq
  sell_not_buy t h = rw ((text_beq_iff t.side (text "buy")).0 h)

  pub apply_trade-buy :
      (t : Trade F) (s : AssetState F)
      → is_buy t ≡ true
      → apply_trade t s ≡ apply_buy t.amount t.usd_value s
  unfolding apply_trade
  apply_trade-buy t s h = rw h

  pub apply_trade-sell :
      (t : Trade F) (s : AssetState F)
      → is_buy t ≡ false
      → is_sell t ≡ true
      → apply_trade t s ≡ apply_sell t.amount t.usd_value s
  unfolding apply_trade
  apply_trade-sell t s h k = rw (h, k)

  pub apply_trade-other :
      (t : Trade F) (s : AssetState F) → is_buy t ≡ false → is_sell t ≡ false → apply_trade t s ≡ s
  unfolding apply_trade
  apply_trade-other t s h k = rw (h, k)

  run_trades-HasTotals :
      (s : AssetState F) (ts : List (Trade F)) → HasTotalsFrom s ts (run_trades s ts)
  unfolding run_trades apply_buy apply_sell sum_from
  run_trades-HasTotals s [] = HasTotalsFrom-start s
  run_trades-HasTotals s (t ∷ ts) = elim (Bool-cases (is_buy t)) [
    | inl buy ↦
        let ih = run_trades-HasTotals (apply_buy t.amount t.usd_value s) ts in
        subst (λ r. HasTotalsFrom s (t ∷ ts) (run_trades r ts)) (sym (apply_trade-buy t s buy))
          (rw (buy, sell_not_buy t buy) (omega (arith, ih.0), omega (arith, ih.1), ih.2, ih.3))
    | inr not_buy ↦ elim (Bool-cases (is_sell t)) [
      | inl sell ↦
          let ih = run_trades-HasTotals (apply_sell t.amount t.usd_value s) ts in
          let kept = release_totals t.amount t.usd_value s in
          subst (λ r. HasTotalsFrom s (t ∷ ts) (run_trades r ts))
            (sym (apply_trade-sell t s not_buy sell))
            (rw (not_buy, sell)
              (
                omega (arith, ih.0, kept.0),
                omega (arith, ih.1, kept.1),
                rw (ih.2, kept.2),
                rw (ih.3, kept.3),
              ))
      | inr neither ↦
          subst (λ r. HasTotalsFrom s (t ∷ ts) (run_trades r ts))
            (sym (apply_trade-other t s not_buy neither))
            (rw (not_buy, neither) (run_trades-HasTotals s ts))
    ]
  ]

  pub entry_runs :
      (ts : List (Trade F)) (s : AssetState F)
      → entry none ts ≡ some s
      → run_trades no_trades ts ≡ s
  entry_runs [] s h = cc
  entry_runs (t ∷ ts) s h = cc

  -- The counts of an asset that has an entry are the numbers of its buys and of its sells, in
  -- any case of its letters, and its totals are the sums of their dollar values, in order,
  -- over-sells included.
  states_from-HasTotals :
      (a : Text) (ts : List (Trade F)) (s : AssetState F)
      → lookup a (states_from [] ts) ≡ some s
      → HasTotalsFrom no_trades (trades_in a ts) s
  states_from-HasTotals a ts s h =
      let e = entry_runs (trades_in a ts) s (sym (states_from-PerAsset a ts) ∙ h) in
      subst (HasTotalsFrom no_trades (trades_in a ts)) e
        (run_trades-HasTotals no_trades (trades_in a ts))

module _ {F : Type 0} ⦃n : Number F⦄ (laws : IsOrdered F) where
  release_nonneg :
      (amount usd : F) (s : AssetState F) → n.nought ≼ s.qty → n.nought ≼ (release amount usd s).qty
  unfolding release
  release_nonneg amount usd s h =
      elim (Bool-cases (n.lt n.nought (minimum amount s.qty) && n.lt n.nought s.qty)) [
        | inl e ↦
            rw e (laws.sub_nonneg (minimum amount s.qty) s.qty (minimum-le_right laws amount s.qty))
        | inr e ↦ rw e h
      ]

  apply_trade_nonneg :
      (t : Trade F) (s : AssetState F)
      → n.nought ≼ t.amount
      → n.nought ≼ s.qty
      → n.nought ≼ (apply_trade t s).qty
  unfolding apply_trade apply_buy apply_sell
  apply_trade_nonneg t s h k = elim (Bool-cases (is_buy t)) [
    | inl buy ↦ rw buy (add_nonneg laws s.qty t.amount k h)
    | inr not_buy ↦ elim (Bool-cases (is_sell t)) [
      | inl sell ↦ rw (not_buy, sell) (release_nonneg t.amount t.usd_value s k)
      | inr neither ↦ rw (not_buy, neither) k
    ]
  ]

  run_trades_nonneg :
      (s : AssetState F) (ts : List (Trade F))
      → All (λ t. n.nought ≼ t.amount) ts
      → n.nought ≼ s.qty
      → n.nought ≼ (run_trades s ts).qty
  unfolding run_trades
  run_trades_nonneg s [] h k = k
  run_trades_nonneg s (t ∷ ts) (h, hs) k =
      run_trades_nonneg (apply_trade t s) ts hs (apply_trade_nonneg t s h k)

  All-keep :
      (P : Trade F → Type 0) (p : Trade F → Bool) (ts : List (Trade F))
      → All P ts
      → All P (keep p ts)
  All-keep P p [] h = tt
  All-keep P p (t ∷ ts) (h, hs) = elim (Bool-cases (p t)) [
    | inl kept ↦ rw kept (h, All-keep P p ts hs)
    | inr dropped ↦ rw dropped (All-keep P p ts hs)
  ]

  -- Where no order has a negative amount, no position falls below zero, whatever is sold.
  -- Amounts are ordered as IEEE numbers are.
  states_from-IsCovered :
      (a : Text) (ts : List (Trade F)) (s : AssetState F)
      → All (λ t. n.nought ≼ t.amount) ts
      → lookup a (states_from [] ts) ≡ some s
      → n.nought ≼ s.qty
  states_from-IsCovered a ts s amounts h =
      let e = entry_runs (trades_in a ts) s (sym (states_from-PerAsset a ts) ∙ h) in
      subst (λ r. n.nought ≼ r.qty) e
        (run_trades_nonneg no_trades (trades_in a ts)
          (All-keep (λ t. n.nought ≼ t.amount) (λ t. upper t.base_asset == a) ts amounts)
          (laws.le_refl n.nought))
