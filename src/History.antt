-- ===== src/History.antt =====
-- The history of a portfolio's value: backend/app/api/v1/history.py. The schema bounds `days` by 1
-- and 365; the model takes any number.
pub mod Order
use coin_hq.Base.{
  ℕ, ◌+◌, ◌*◌, Bool, true, false, ◌&&◌, List, [], ◌∷◌, map, if◌then◌else◌, keep, ltb, leb, ◌==◌,
  nat_eq,
}
use coin_hq.Store.{User, PortfolioSnapshot, Db, Action, ◌>>=◌, ◌>>◌, gets}
use coin_hq.Profiles.{owned_profile}

-- backend/app/schemas/portfolio.py
pub record PortfolioHistoryPoint (F : Type 0) : Type 0 where
  pub created_at : ℕ
  pub total_usd : F

module _ {F : Type 0} where
  -- The rows of the query: those of the profile from the last `days` days.
  abbrev pub in_window : ℕ → ℕ → ℕ → PortfolioSnapshot F → Bool
  in_window now days profile_id s =
      s.profile_id == profile_id && leb now (s.created_at + days * 86_400)

  -- `order_by(created_at.asc())`; rows of one time keep their order
  unfoldable pub by_created :
      PortfolioSnapshot F → List (PortfolioSnapshot F) → List (PortfolioSnapshot F)
  by_created s [] = s ∷ []
  by_created s (t ∷ ts) = if ltb t.created_at s.created_at then t ∷ by_created s ts else s ∷ t ∷ ts

  unfoldable pub sort_by_created : List (PortfolioSnapshot F) → List (PortfolioSnapshot F)
  unfolding by_created
  sort_by_created [] = []
  sort_by_created (s ∷ ss) = by_created s (sort_by_created ss)

  abbrev pub point : PortfolioSnapshot F → PortfolioHistoryPoint F
  point s = record { created_at = s.created_at; total_usd = s.total_usd }

  unfoldable pub portfolio_history : ℕ → ℕ → ℕ → User → Action F (List (PortfolioHistoryPoint F))
  unfolding sort_by_created owned_profile
  portfolio_history now days profile_id user = do
    owned_profile profile_id user
    gets (λ d. map point (sort_by_created (keep (in_window now days profile_id) d.snapshots)))
