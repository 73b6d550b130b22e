-- ===== src/History/Order.antt =====
-- What a history shows, and in which order (backend/app/api/v1/history.py).
use coin_hq.Base.{
  ℕ, ◌≤◌, Bool, ◌≡◌, ◌≢◌, ◌⊎◌, refl, List, [], ◌∷◌, map, none, some, keep, length, All, arith, ltb,
  Bool-cases, Option-cases, inl, inr, nat_beq_iff, nat_eq, ◌==◌, subst, sym,
}
use coin_hq.Store.{User, Profile, PortfolioSnapshot, Db, Reply, ok, http, crash}
use coin_hq.Store.Queries.{get_profile}
use coin_hq.History.{
  PortfolioHistoryPoint, in_window, by_created, sort_by_created, point, portfolio_history,
}

-- How often a test passes.
abbrev pub count : {A : Type 0} → (A → Bool) → List A → ℕ
count q ps = length (keep q ps)

module _ {F : Type 0} where
  -- From the oldest to the newest.
  abbrev pub IsAscending : List (PortfolioHistoryPoint F) → Type 0
  IsAscending [] = Unit
  IsAscending (p ∷ ps) = All (λ q. p.created_at ≤ q.created_at) ps × IsAscending ps

  by_created-All :
      (t : ℕ) (s : PortfolioSnapshot F) (ss : List (PortfolioSnapshot F))
      → t ≤ s.created_at
      → All (λ q. t ≤ q.created_at) (map point ss)
      → All (λ q. t ≤ q.created_at) (map point (by_created s ss))
  unfolding by_created
  by_created-All t s [] h _ = (h, tt)
  by_created-All t s (r ∷ rs) h (k, ks) = elim (Bool-cases (ltb r.created_at s.created_at)) [
    | inl later ↦ rw later (k, by_created-All t s rs h ks)
    | inr sooner ↦ rw sooner (h, (k, ks))
  ]

  All-weaken :
      (t u : ℕ) (ps : List (PortfolioHistoryPoint F))
      → t ≤ u
      → All (λ q. u ≤ q.created_at) ps
      → All (λ q. t ≤ q.created_at) ps
  All-weaken t u [] h _ = tt
  All-weaken t u (p ∷ ps) h (k, ks) = (omega (arith, h, k), All-weaken t u ps h ks)

  by_created-IsAscending :
      (s : PortfolioSnapshot F) (ss : List (PortfolioSnapshot F))
      → IsAscending (map point ss)
      → IsAscending (map point (by_created s ss))
  unfolding by_created
  by_created-IsAscending s [] _ = (tt, tt)
  by_created-IsAscending s (r ∷ rs) (k, ks) = elim (Bool-cases (ltb r.created_at s.created_at)) [
    | inl later ↦
        rw later (by_created-All r.created_at s rs (ground arith) k, by_created-IsAscending s rs ks)
    | inr sooner ↦
        let le : s.created_at ≤ r.created_at = ground arith in
        rw sooner ((le, All-weaken s.created_at r.created_at (map point rs) le k), (k, ks))
  ]

  sort_by_created-IsAscending :
      (ss : List (PortfolioSnapshot F)) → IsAscending (map point (sort_by_created ss))
  unfolding sort_by_created
  sort_by_created-IsAscending [] = tt
  sort_by_created-IsAscending (s ∷ ss) =
      by_created-IsAscending s (sort_by_created ss) (sort_by_created-IsAscending ss)

  by_created-count :
      (q : PortfolioHistoryPoint F → Bool) (s : PortfolioSnapshot F)
      (ss : List (PortfolioSnapshot F))
      → count q (map point (by_created s ss)) ≡ count q (map point (s ∷ ss))
  unfolding by_created
  by_created-count q s [] = refl
  by_created-count q s (r ∷ rs) = ground (arith, by_created-count q s rs)

  sort_by_created-count :
      (q : PortfolioHistoryPoint F → Bool) (ss : List (PortfolioSnapshot F))
      → count q (map point (sort_by_created ss)) ≡ count q (map point ss)
  unfolding sort_by_created
  sort_by_created-count q [] = refl
  sort_by_created-count q (s ∷ ss) =
      ground (arith, by_created-count q s (sort_by_created ss), sort_by_created-count q ss)

  -- How a request for the history ends. Points: the profile is the user's, and the points ascend
  -- and are those of its snapshots in the window, each as often as it is there.
  abbrev pub Shows :
      ℕ → ℕ → ℕ → User → Db F → Reply (List (PortfolioHistoryPoint F)) × Db F → Type 0
  Shows now days profile_id user d (ok ps, e) =
      ((p : Profile) × (get_profile profile_id d ≡ some p) × (p.user_id ≡ user.id))
      × IsAscending ps
      × ((q : PortfolioHistoryPoint F → Bool)
          → count q ps ≡ count q (map point (keep (in_window now days profile_id) d.snapshots)))
      × (e ≡ d)
  Shows now days profile_id user d (http code, e) =
      (((code ≡ 404) × (get_profile profile_id d ≡ none))
        ⊎ ((code ≡ 403)
            × ((p : Profile) × (get_profile profile_id d ≡ some p) × (p.user_id ≢ user.id))))
      × (e ≡ d)
  Shows now days profile_id user d (crash, e) = ⊥

  -- How `portfolio_history` ends. Points are returned: the profile is the user's, the points
  -- ascend in time, and they are those of the profile's snapshots in the window, each as often
  -- as it is there; or the profile is not there (404) or another user's (403). Nothing changes.
  pub portfolio_history-Shows :
      (now days profile_id : ℕ) (user : User) (d : Db F)
      → Shows now days profile_id user d (portfolio_history now days profile_id user d)
  unfolding portfolio_history
  portfolio_history-Shows now days profile_id user d =
      elim (Option-cases (get_profile profile_id d)) [
        | inl missing ↦
            let same : portfolio_history now days profile_id user d ≡ (http 404, d) =
              ground arith in
            subst (Shows now days profile_id user d) (sym same) (inl (refl, missing), refl)
        | inr (p, found) ↦
            let rows = keep (in_window now days profile_id) d.snapshots in
            elim (Bool-cases (p.user_id == user.id)) [
              | inl mine ↦
                  let same : portfolio_history now days profile_id user d
                      ≡ (ok (map point (sort_by_created rows)), d) =
                    ground arith in
                  subst (Shows now days profile_id user d) (sym same) (
                    (p, found, (nat_beq_iff p.user_id user.id).0 mine),
                    sort_by_created-IsAscending rows,
                    λ q. sort_by_created-count q rows,
                    refl,
                  )
              | inr other ↦
                  let same : portfolio_history now days profile_id user d ≡ (http 403, d) =
                    ground arith in
                  subst (Shows now days profile_id user d) (sym same)
                    (inr (refl, (p, found, ground arith)), refl)
            ]
      ]
