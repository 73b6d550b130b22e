-- ===== src/CostBasis/Figures.antt =====
-- What the fills of an asset add up to (backend/app/services/cost_basis_service.py).
use coin_hq.Base.{
  Bool, false, not, ◌&&◌, ◌||◌, ◌≡◌, refl, List, [], ◌∷◌, map, Option, none, some, if◌then◌else◌,
  keep, any, arith, ◌==◌, Bool-cases, inl, inr, subst, sym, ◌∙◌,
}
use mathlib.Core.Option.{some-injective}
use coin_hq.Base.Text.{Text, text, text_eq}
use coin_hq.Base.Dict.{Dict, lookup}
use coin_hq.Number.{Number, ◌≼◌, minimum, sum_from}
use coin_hq.Number.Laws.{IsOrdered, add_nonneg, minimum-le_right}
use coin_hq.CostBasis.{
  Fill, Position, no_position, received, is_stable, apply_fill, fill_buy, fill_sell, close_dust,
  add_fills, start_positions, dust,
}
use coin_hq.CostBasis.PerAsset.{run_fills, fills_in, outcome_of, start_of, add_fills-PerAsset}

or_assoc : (a b c : Bool) → ((a || b) || c) ≡ (a || (b || c))
or_assoc a b c = ground arith

module _ {F : Type 0} ⦃n : Number F⦄ where
  open n use {nought, add, sub, le, lt}

  abbrev pub is_foreign : Fill F → Bool
  is_foreign f = not (is_stable f.quote_asset)

  -- A buy against a stablecoin that credits something.
  abbrev pub qualifies : Fill F → Bool
  qualifies f =
      is_stable f.quote_asset
      && not (le f.qty nought)
      && f.side == text "buy"
      && not (le (received f) nought)

  pub record HasFigures (fs : List (Fill F)) (pos : Position F) : Type 0 where
    pub buys : pos.has_buys ≡ any qualifies fs
    pub skipped : pos.skipped_non_stable ≡ any is_foreign fs
    pub bought : pos.bought_qty ≡ sum_from nought (map received (keep qualifies fs))

  fill_sell_figures :
      (f : Fill F) (pos : Position F)
      → ((fill_sell f pos).has_buys ≡ pos.has_buys)
        × ((fill_sell f pos).skipped_non_stable ≡ pos.skipped_non_stable)
        × ((fill_sell f pos).bought_qty ≡ pos.bought_qty)
  unfolding fill_sell
  fill_sell_figures f pos = ground arith

  apply_fill_figures :
      (f : Fill F) (pos : Position F)
      → ((apply_fill f pos).has_buys ≡ (pos.has_buys || qualifies f))
        × ((apply_fill f pos).skipped_non_stable ≡ (pos.skipped_non_stable || is_foreign f))
        × ((apply_fill f pos).bought_qty
            ≡ (if qualifies f then add pos.bought_qty (received f) else pos.bought_qty))
  unfolding apply_fill fill_buy
  apply_fill_figures f pos = ground (arith, fill_sell_figures f pos)

  run_fills-has_buys :
      (fs : List (Fill F)) (pos : Position F)
      → (run_fills pos fs).has_buys ≡ (pos.has_buys || any qualifies fs)
  unfolding run_fills
  run_fills-has_buys [] pos = ground arith
  run_fills-has_buys (f ∷ fs) pos = rw (
    run_fills-has_buys fs (apply_fill f pos),
    (apply_fill_figures f pos).0,
    or_assoc pos.has_buys (qualifies f) (any qualifies fs),
  )

  run_fills-skipped :
      (fs : List (Fill F)) (pos : Position F)
      → (run_fills pos fs).skipped_non_stable ≡ (pos.skipped_non_stable || any is_foreign fs)
  unfolding run_fills
  run_fills-skipped [] pos = ground arith
  run_fills-skipped (f ∷ fs) pos = rw (
    run_fills-skipped fs (apply_fill f pos),
    (apply_fill_figures f pos).1,
    or_assoc pos.skipped_non_stable (is_foreign f) (any is_foreign fs),
  )

  run_fills-bought_qty :
      (fs : List (Fill F)) (pos : Position F)
      → (run_fills pos fs).bought_qty ≡ sum_from pos.bought_qty (map received (keep qualifies fs))
  unfolding run_fills sum_from
  run_fills-bought_qty [] pos = refl
  run_fills-bought_qty (f ∷ fs) pos = elim (Bool-cases (qualifies f)) [
    | inl buy ↦ rw (run_fills-bought_qty fs (apply_fill f pos), (apply_fill_figures f pos).2, buy)
    | inr other ↦
        rw (run_fills-bought_qty fs (apply_fill f pos), (apply_fill_figures f pos).2, other)
  ]

  outcome_of-HasFigures :
      (known : Option F) (fs : List (Fill F)) (pos : Position F)
      → outcome_of (start_of known) fs ≡ some pos
      → HasFigures fs pos
  outcome_of-HasFigures none fs pos h = cc
  outcome_of-HasFigures (some held) fs pos h =
      subst (HasFigures fs) (some-injective _ _ h) (record {
        buys = run_fills-has_buys fs no_position;
        skipped = run_fills-skipped fs no_position;
        bought = run_fills-bought_qty fs no_position;
      })

  -- The figures that `compute_avco` reads of a held asset's position are those of its own
  -- fills: it has buys exactly if one of the fills is a buy against a stablecoin that credits
  -- something, it has skipped some exactly if one is not against a stablecoin, and the quantity
  -- bought is the sum of what the qualifying buys credit, in order.
  pub add_fills-HasFigures :
      (a : Text) (held : Dict Text F) (fs : List (Fill F)) (pos : Position F)
      → lookup a (add_fills (start_positions held) fs) ≡ some pos
      → HasFigures (fills_in a fs) pos
  add_fills-HasFigures a held fs pos h =
      outcome_of-HasFigures (lookup a held) (fills_in a fs) pos
        (sym (add_fills-PerAsset a held fs) ∙ h)

module _ {F : Type 0} ⦃n : Number F⦄ (laws : IsOrdered F) where
  open n use {nought, add, sub, le, lt}

  close_dust_nonneg : (pos : Position F) → nought ≼ pos.qty → nought ≼ (close_dust pos).qty
  close_dust_nonneg pos h = elim (Bool-cases (le pos.qty dust)) [
    | inl e ↦ rw e (laws.le_refl nought)
    | inr e ↦ rw e h
  ]

  fill_sell_nonneg :
      (f : Fill F) (pos : Position F) → nought ≼ pos.qty → nought ≼ (fill_sell f pos).qty
  unfolding fill_sell
  fill_sell_nonneg f pos h =
      elim (Bool-cases (lt nought (minimum f.qty pos.qty) && lt dust pos.qty)) [
        | inl e ↦ rw e (
            close_dust_nonneg _ (
              laws.sub_nonneg (minimum f.qty pos.qty) pos.qty
                (minimum-le_right laws f.qty pos.qty)))
        | inr e ↦ rw e h
      ]

  positive_nonneg : (x : F) → le x nought ≡ false → nought ≼ x
  positive_nonneg x h = ground (arith, laws.le_total x nought)

  apply_fill_nonneg :
      (f : Fill F) (pos : Position F) → nought ≼ pos.qty → nought ≼ (apply_fill f pos).qty
  unfolding apply_fill fill_buy
  apply_fill_nonneg f pos h = ground (
    arith,
    fill_sell_nonneg f pos h,
    positive_nonneg (received f),
    add_nonneg laws pos.qty (received f) h,
  )

  run_fills_nonneg :
      (fs : List (Fill F)) (pos : Position F) → nought ≼ pos.qty → nought ≼ (run_fills pos fs).qty
  unfolding run_fills
  run_fills_nonneg [] pos h = h
  run_fills_nonneg (f ∷ fs) pos h =
      run_fills_nonneg fs (apply_fill f pos) (apply_fill_nonneg f pos h)

  outcome_of_nonneg :
      (known : Option F) (fs : List (Fill F)) (pos : Position F)
      → outcome_of (start_of known) fs ≡ some pos
      → nought ≼ pos.qty
  outcome_of_nonneg none fs pos h = cc
  outcome_of_nonneg (some held) fs pos h =
      subst (λ p. nought ≼ p.qty) (some-injective _ _ h)
        (run_fills_nonneg fs no_position (laws.le_refl nought))

  -- Whatever the fills are, also with negative quantities or fees, no position of
  -- `compute_avco` falls below zero. Amounts are ordered as IEEE numbers are.
  pub add_fills-IsCovered :
      (a : Text) (held : Dict Text F) (fs : List (Fill F)) (pos : Position F)
      → lookup a (add_fills (start_positions held) fs) ≡ some pos
      → nought ≼ pos.qty
  add_fills-IsCovered a held fs pos h =
      outcome_of_nonneg (lookup a held) (fills_in a fs) pos (sym (add_fills-PerAsset a held fs) ∙ h)
