-- ===== src/Trade/Window.antt =====
-- The 24 hour sum of backend/app/services/trade_service.py, as the clock moves and orders are added.
use coin_hq.Base.{
  ℕ, ◌≤◌, Bool, true, ◌≡◌, refl, List, [], ◌∷◌, ◌++◌, map, arith, if◌then◌else◌, All, keep,
  Bool-cases, keep-append, inl, inr, append-nil,
}
use coin_hq.Base.Text.{text_eq}
use coin_hq.Number.{Number, ◌≼◌, sum_from}
use coin_hq.Number.Laws.{IsOrdered, le-add_right, sum_from-append}
use coin_hq.Store.{TradeOrder, Db}
use coin_hq.Trade.{counts, spent_today_usd, add_order}

module _ {F : Type 0} ⦃n : Number F⦄ where
  open n use {nought, add}

  -- No order has a negative value.
  abbrev pub IsNonneg : List (TradeOrder F) → Type 0
  IsNonneg = All (λ o. nought ≼ o.usd_value)

  total_from : F → (TradeOrder F → Bool) → List (TradeOrder F) → F
  total_from a p os = sum_from a (map (λ o. o.usd_value) (keep p os))

  module _ (laws : IsOrdered F) where
    -- A narrower test sums to no more.
    total_from_mono :
        (p q : TradeOrder F → Bool)
        → ((o : TradeOrder F) → q o ≡ true → p o ≡ true)
        → (a b : F) (os : List (TradeOrder F)) → IsNonneg os
        → a ≼ b
        → total_from a q os ≼ total_from b p os
    unfolding total_from sum_from
    total_from_mono p q sub a b [] h le = le
    total_from_mono p q sub a b (o ∷ os) (h, hs) le = elim (Bool-cases (q o)) [
      | inl inner ↦
          rw (inner, sub o inner)
            (total_from_mono p q sub (add a o.usd_value) (add b o.usd_value) os hs
              (laws.add_mono a b o.usd_value le))
      | inr outer ↦ elim (Bool-cases (p o)) [
        | inl kept ↦
            rw (outer, kept)
              (total_from_mono p q sub a (add b o.usd_value) os hs
                (laws.le_trans a b _ le (le-add_right laws b o.usd_value h)))
        | inr dropped ↦ rw (outer, dropped) (total_from_mono p q sub a b os hs le)
      ]
    ]

    -- As the clock moves on, the sum over unchanged orders does not grow.
    pub spent_today_usd_anti :
        (now later link_id : ℕ) (d : Db F)
        → IsNonneg d.trade_orders
        → now ≤ later
        → spent_today_usd later link_id d ≼ spent_today_usd now link_id d
    unfolding spent_today_usd total_from
    spent_today_usd_anti now later link_id d h le =
        total_from_mono (counts now link_id) (counts later link_id) (λ o c. ground arith) nought
          nought d.trade_orders h (laws.le_refl nought)

  map-append_one :
      (os : List (TradeOrder F)) (o : TradeOrder F)
      → map (λ x. x.usd_value) (os ++ o ∷ []) ≡ map (λ x. x.usd_value) os ++ o.usd_value ∷ []
  map-append_one [] o = refl
  map-append_one (x ∷ os) o = rw (map-append_one os o)

  -- A new order adds its value to the sum, if it counts.
  pub spent_today_usd-add_order :
      (now link_id : ℕ) (o : TradeOrder F) (d : Db F)
      → spent_today_usd now link_id (add_order o d) ≡ (
          if counts now link_id o
          then add (spent_today_usd now link_id d) o.usd_value
          else spent_today_usd now link_id d)
  unfolding spent_today_usd
  spent_today_usd-add_order now link_id o d = elim (Bool-cases (counts now link_id o)) [
    | inl c ↦ rw (keep-append, c, map-append_one) (sum_from-append nought _ o.usd_value)
    | inr c ↦ rw (keep-append, c, append-nil)
  ]

  -- The counter of ids is no part of the sum.
  pub spent_today_usd-next_id :
      (now link_id k : ℕ) (d : Db F)
      → spent_today_usd now link_id (record d { next_id = k }) ≡ spent_today_usd now link_id d
  unfolding spent_today_usd
  spent_today_usd-next_id now link_id k d = refl
