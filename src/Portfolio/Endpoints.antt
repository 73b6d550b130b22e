-- ===== src/Portfolio/Endpoints.antt =====
-- The endpoints of backend/app/api/v1/portfolio.py. Rate limits are left out.
use coin_hq.Base.{
  ℕ, true, false, ◌≡◌, ◌≢◌, ◌⊎◌, inl, inr, refl, List, [], ◌∷◌, map, Option, none, some,
  if◌then◌else◌, keep, Option-cases, Bool-cases, find_passes, arith, ◌==◌, nat_eq, nat_beq_iff, sym,
  subst,
}
use coin_hq.Base.Order.{text_ltb}
use coin_hq.Number.{Number}
use coin_hq.Store.{User, Profile, ExchangeKey, Db, Action, Reply, ok, http, crash, ◌>>=◌, gets}
use coin_hq.Store.Queries.{get_profile}
use coin_hq.Profiles.{owned_profile}
use coin_hq.Portfolio.{
  Feeds, CacheRead, hit, off, failed, miss, PortfolioResponse, get_portfolio, maybe_save_snapshot,
}
use coin_hq.Portfolio.Aggregate.{ProfileResult, AggregateResponse, get_aggregate_portfolio}

-- `order_by(Profile.name)`
unfoldable pub by_name : Profile → List Profile → List Profile
by_name p [] = p ∷ []
by_name p (q ∷ qs) = if text_ltb q.name p.name then q ∷ by_name p qs else p ∷ q ∷ qs

unfoldable pub sort_by_name : List Profile → List Profile
unfolding by_name
sort_by_name [] = []
sort_by_name (p ∷ ps) = by_name p (sort_by_name ps)

module _ {F : Type 0} where
  abbrev pub keys_of : ℕ → Db F → List ExchangeKey
  keys_of profile_id d = keep (λ k. k.profile_id == profile_id) d.exchange_keys

module _ {F : Type 0} ⦃n : Number F⦄ where
  -- The response, and what is written to the cache.
  abbrev pub fetch :
      Feeds F
      → CacheRead F
      → ℕ
      → ℕ
      → Profile
      → List ExchangeKey
      → Action F (PortfolioResponse F × Option (PortfolioResponse F))
  fetch feeds cache now created p keys d =
      let (r, e, w) = get_portfolio feeds cache true now created p.id p.name keys d in
      (ok (r, w), e)

  unfoldable pub portfolio_for_profile :
      Feeds F
      → CacheRead F
      → ℕ
      → ℕ
      → ℕ
      → User
      → Action F (PortfolioResponse F × Option (PortfolioResponse F))
  unfolding owned_profile
  portfolio_for_profile feeds cache now created profile_id user = do
    p ← owned_profile profile_id user
    keys ← gets (keys_of profile_id)
    fetch feeds cache now created p keys

  -- The profiles of a user, each with its own look into the cache; no session is passed on.
  abbrev pub fetch_result : Feeds F → (ℕ → CacheRead F) → ℕ → Db F → Profile → ProfileResult F
  fetch_result feeds cache now d p = record {
    id = p.id;
    name = p.name;
    portfolio =
        some (get_portfolio feeds (cache p.id) false now now p.id p.name (keys_of p.id d) d).0;
  }

  unfoldable pub aggregate_portfolio :
      Feeds F → (ℕ → CacheRead F) → ℕ → User → Db F → AggregateResponse F
  unfolding sort_by_name
  aggregate_portfolio feeds cache now user d = get_aggregate_portfolio (
      map (fetch_result feeds cache now d)
        (sort_by_name (keep (λ p. p.user_id == user.id) d.profiles)))

  -- How a request for a portfolio ends. A response: the profile is the user's, and either the
  -- response is the cached one, and nothing is written, or it is new, and its total is offered as
  -- a snapshot of the profile. Otherwise the profile is not there, or another user's.
  abbrev pub Answers :
      ℕ
      → ℕ
      → ℕ
      → User
      → Db F
      → Reply (PortfolioResponse F × Option (PortfolioResponse F)) × Db F
      → Type 0
  Answers now created profile_id user d (ok (r, w), e) =
      ((p : Profile) × (get_profile profile_id d ≡ some p) × (p.user_id ≡ user.id))
      × (((r.cached ≡ true) × (w ≡ none) × (e ≡ d))
          ⊎ ((r.cached ≡ false) × (e ≡ maybe_save_snapshot now created profile_id r.total_usd d)))
  Answers now created profile_id user d (http code, e) =
      (((code ≡ 404) × (get_profile profile_id d ≡ none))
        ⊎ ((code ≡ 403)
            × ((p : Profile) × (get_profile profile_id d ≡ some p) × (p.user_id ≢ user.id))))
      × (e ≡ d)
  Answers now created profile_id user d (crash, e) = ⊥

  fetch-Answers :
      (feeds : Feeds F) (cache : CacheRead F) (now created : ℕ) (p : Profile)
      (keys : List ExchangeKey) (user : User) (d : Db F)
      → get_profile p.id d ≡ some p
      → p.user_id ≡ user.id
      → Answers now created p.id user d (fetch feeds cache now created p keys d)
  unfolding get_portfolio
  fetch-Answers feeds (hit r) now created p keys user d found mine =
      ((p, found, mine), inl (refl, refl, refl))
  fetch-Answers feeds off now created p keys user d found mine =
      ((p, found, mine), inr (refl, refl))
  fetch-Answers feeds failed now created p keys user d found mine =
      ((p, found, mine), inr (refl, refl))
  fetch-Answers feeds miss now created p keys user d found mine =
      ((p, found, mine), inr (refl, refl))

  -- How `portfolio_for_profile` ends. A response is returned: the profile is the user's, and
  -- either the response is the cached one, and nothing is written, or it is a new one, and its
  -- total is handed to the snapshots of the profile; or the profile is not there (404) or
  -- another user's (403), and nothing changes.
  portfolio_for_profile-Answers :
      (feeds : Feeds F) (cache : CacheRead F) (now created profile_id : ℕ) (user : User) (d : Db F)
      → Answers now created profile_id user d
          (portfolio_for_profile feeds cache now created profile_id user d)
  unfolding portfolio_for_profile
  portfolio_for_profile-Answers feeds cache now created profile_id user d =
      elim (Option-cases (get_profile profile_id d)) [
        | inl missing ↦
            let same : portfolio_for_profile feeds cache now created profile_id user d
                ≡ (http 404, d) =
              ground arith in
            subst (Answers now created profile_id user d) (sym same) (inl (refl, missing), refl)
        | inr (p, found) ↦
            let at : p.id ≡ profile_id =
              (nat_beq_iff p.id profile_id).0
                (find_passes (λ r. r.id == profile_id) d.profiles {a = p} found) in
            elim (Bool-cases (p.user_id == user.id)) [
              | inl mine ↦
                  let same : portfolio_for_profile feeds cache now created profile_id user d
                      ≡ fetch feeds cache now created p (keys_of profile_id d) d =
                    ground arith in
                  subst (Answers now created profile_id user d) (sym same) (
                    subst
                      (λ i.
                        Answers now created i user d
                          (fetch feeds cache now created p (keys_of profile_id d) d))
                      at
                      (fetch-Answers feeds cache now created p (keys_of profile_id d) user d
                        (subst (λ i. get_profile i d ≡ some p) (sym at) found)
                        ((nat_beq_iff p.user_id user.id).0 mine)))
              | inr other ↦
                  let same : portfolio_for_profile feeds cache now created profile_id user d
                      ≡ (http 403, d) =
                    ground arith in
                  subst (Answers now created profile_id user d) (sym same)
                    (inr (refl, (p, found, ground arith)), refl)
            ]
      ]
