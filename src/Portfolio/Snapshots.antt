-- ===== src/Portfolio/Snapshots.antt =====
-- How far apart the snapshots of a profile are (backend/app/services/portfolio_service.py). The
-- database stamps a snapshot with the time when its transaction began, which may be before the clock
-- reading that the code compares with.
use coin_hq.Base.{
  ℕ, ◌+◌, ◌<◌, ◌≤◌, Bool, Bool-cases, ◌&&◌, ◌≡◌, ◌≢◌, ◌⊎◌, inl, inr, List, [], ◌∷◌, ◌++◌, none,
  arith, All, All-append, find, leb, ◌==◌, nat_eq, Option-cases,
}
use coin_hq.Store.{PortfolioSnapshot, Db}
use coin_hq.Portfolio.{maybe_save_snapshot, hour}

module _ {F : Type 0} where
  -- A later snapshot of the same profile is more than an hour younger, less `lag` seconds.
  abbrev IsApart : ℕ → PortfolioSnapshot F → PortfolioSnapshot F → Type 0
  IsApart lag s t = (s.profile_id ≢ t.profile_id) ⊎ (s.created_at + hour < t.created_at + lag)

  abbrev pub IsSpaced : ℕ → List (PortfolioSnapshot F) → Type 0
  IsSpaced lag [] = Unit
  IsSpaced lag (s ∷ ss) = All (IsApart lag s) ss × IsSpaced lag ss

  abbrev is_recent : ℕ → ℕ → PortfolioSnapshot F → Bool
  is_recent now profile_id s = s.profile_id == profile_id && leb now (s.created_at + hour)

  no_recent :
      (lag now : ℕ) (t : PortfolioSnapshot F) (ss : List (PortfolioSnapshot F))
      → now ≤ t.created_at + lag
      → find (is_recent now t.profile_id) ss ≡ none
      → All (λ s. IsApart lag s t) ss
  no_recent lag now t [] le h = tt
  no_recent lag now t (s ∷ ss) le h = elim (Bool-cases (s.profile_id == t.profile_id)) [
    | inl same ↦ elim (Bool-cases (leb now (s.created_at + hour))) [
      | inl recent ↦ absurd (ground (arith, same, recent, h))
      | inr old ↦
          (inr (ground (arith, old, le)), no_recent lag now t ss le (ground (arith, same, old, h)))
    ]
    | inr other ↦
        (inl (ground (arith, other)), no_recent lag now t ss le (ground (arith, other, h)))
  ]

  append-IsSpaced :
      (lag : ℕ) (t : PortfolioSnapshot F) (ss : List (PortfolioSnapshot F))
      → All (λ s. IsApart lag s t) ss
      → IsSpaced lag ss
      → IsSpaced lag (ss ++ t ∷ [])
  append-IsSpaced lag t [] apart h = (tt, tt)
  append-IsSpaced lag t (s ∷ ss) (a, as') (h, hs) =
      (All-append (IsApart lag s) ss (t ∷ []) h (a, tt), append-IsSpaced lag t ss as' hs)

  -- If any two snapshots of one profile are more than an hour less `lag` apart, in the order in
  -- which they were saved, they still are after `maybe_save_snapshot` for any profile at any
  -- time, where the time that the database stamps is at most `lag` seconds before the clock
  -- reading that the call compares with.
  pub maybe_save_snapshot-IsSpaced :
      (lag now created profile_id : ℕ) (total : F) (d : Db F)
      → now ≤ created + lag
      → IsSpaced lag d.snapshots
      → IsSpaced lag (maybe_save_snapshot now created profile_id total d).snapshots
  unfolding maybe_save_snapshot
  maybe_save_snapshot-IsSpaced lag now created profile_id total d le h =
      elim (Option-cases (find (is_recent now profile_id) d.snapshots)) [
        | inl old ↦
            let t : PortfolioSnapshot F = record {
              id = d.next_id;
              profile_id = profile_id;
              total_usd = total;
              created_at = created;
            } in
            rw old (append-IsSpaced lag t d.snapshots (no_recent lag now t d.snapshots le old) h)
        | inr (s, recent) ↦ rw recent h
      ]
