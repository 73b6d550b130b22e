-- ===== src/Profiles/Deletion.antt =====
-- Deleting a profile (backend/app/api/v1/profiles.py): who may, what goes with it, and what stays.
use coin_hq.Base.{
  ℕ, true, not, ◌≡◌, ◌≢◌, ◌⊎◌, inl, inr, List, arith, keep, keep-keep, keep-All, All, find_passes,
  refl, change-All, subst, sym, Bool, map, change, ◌∷◌, [], if◌then◌else◌, Bool-cases, Option-cases,
  none, some, ◌==◌, nat_eq, nat_beq_iff,
}
use coin_hq.Store.{
  User, Profile, ExchangeKey, ShareLink, TradeOrder, PortfolioSnapshot, Db, Reply, ok, http, crash,
}
use coin_hq.Store.Queries.{get_profile}
use coin_hq.Profiles.{drop_profile, delete_profile, has_link_of}

not_same : (m i : ℕ) → not (m == i) ≡ true → m ≢ i
not_same m i h = ground arith

other_kept : (i j m : ℕ) → j ≢ i → (m == j) ≡ true → not (m == i) ≡ true
other_kept i j m ne h = ground arith

module _ {F : Type 0} where
  -- The rows of one profile.
  abbrev pub keys_of : ℕ → Db F → List ExchangeKey
  keys_of j d = keep (λ k. k.profile_id == j) d.exchange_keys

  abbrev pub links_of : ℕ → Db F → List (ShareLink F)
  links_of j d = keep (λ l. l.profile_id == j) d.share_links

  abbrev pub snapshots_of : ℕ → Db F → List (PortfolioSnapshot F)
  snapshots_of j d = keep (λ s. s.profile_id == j) d.snapshots

  -- The orders of one profile.
  abbrev pub orders_of : ℕ → Db F → List (TradeOrder F)
  orders_of j d = keep (λ o. o.profile_id == j) d.trade_orders

  -- An order, without its link if that is one of profile `i`.
  abbrev pub unlinked : ℕ → Db F → TradeOrder F → TradeOrder F
  unlinked i d o =
      if has_link_of i d.share_links o.share_link_id then record o { share_link_id = none } else o

  -- The orders of one profile, after those of another are gone.
  orders_left :
      (i j : ℕ) (gone : TradeOrder F → Bool) (os : List (TradeOrder F))
      → j ≢ i
      → keep
          (λ o. o.profile_id == j)
          (change gone
            (λ o. record o { share_link_id = none })
            (keep (λ o. not (o.profile_id == i)) os))
        ≡ map
            (λ o. if gone o then record o { share_link_id = none } else o)
            (keep (λ o. o.profile_id == j) os)
  orders_left i j gone [] ne = refl
  orders_left i j gone (o ∷ os) ne = ground (arith, orders_left i j gone os ne)

  orders_gone :
      (i : ℕ) (gone : TradeOrder F → Bool) (os : List (TradeOrder F))
      → All
          (λ o. o.profile_id ≢ i)
          (change gone
            (λ o. record o { share_link_id = none })
            (keep (λ o. not (o.profile_id == i)) os))
  orders_gone i gone os =
      change-All {P = λ o. o.profile_id ≢ i} gone (λ o. record o { share_link_id = none })
        (λ o h. h) (keep (λ o. not (o.profile_id == i)) os)
        (keep-All (λ o. o.profile_id ≢ i) _ (λ o. not_same o.profile_id i) os)

  -- Profile `i` and its rows are gone.
  pub record IsGone (i : ℕ) (e : Db F) : Type 0 where
    pub profiles : All (λ p. p.id ≢ i) e.profiles
    pub keys : All (λ k. k.profile_id ≢ i) e.exchange_keys
    pub links : All (λ l. l.profile_id ≢ i) e.share_links
    pub orders : All (λ o. o.profile_id ≢ i) e.trade_orders
    pub snapshots : All (λ s. s.profile_id ≢ i) e.snapshots

  -- What another profile `j` has after the deletion of `i`, and what no profile has.
  pub record Spares (i j : ℕ) (d e : Db F) : Type 0 where
    pub profiles : keep (λ p. p.id == j) e.profiles ≡ keep (λ p. p.id == j) d.profiles
    pub keys : keys_of j e ≡ keys_of j d
    pub links : links_of j e ≡ links_of j d
    pub orders : orders_of j e ≡ map (unlinked i d) (orders_of j d)
    pub snapshots : snapshots_of j e ≡ snapshots_of j d
    pub users : e.users ≡ d.users
    pub followed : e.followed ≡ d.followed
    pub waitlist : e.waitlist ≡ d.waitlist
    pub next_id : e.next_id ≡ d.next_id

  drop_profile-IsGone : (i : ℕ) (d : Db F) → IsGone i (drop_profile i d)
  unfolding drop_profile
  drop_profile-IsGone i d = record {
    profiles = keep-All (λ p. p.id ≢ i) _ (λ p. not_same p.id i) d.profiles;
    keys = keep-All (λ k. k.profile_id ≢ i) _ (λ k. not_same k.profile_id i) d.exchange_keys;
    links = keep-All (λ l. l.profile_id ≢ i) _ (λ l. not_same l.profile_id i) d.share_links;
    orders = orders_gone i (λ o. has_link_of i d.share_links o.share_link_id) d.trade_orders;
    snapshots = keep-All (λ s. s.profile_id ≢ i) _ (λ s. not_same s.profile_id i) d.snapshots;
  }

  drop_profile-Spares : (i j : ℕ) (d : Db F) → j ≢ i → Spares i j d (drop_profile i d)
  unfolding drop_profile
  drop_profile-Spares i j d ne = record {
    profiles = keep-keep _ _ (λ p. other_kept i j p.id ne) d.profiles;
    keys = keep-keep _ _ (λ k. other_kept i j k.profile_id ne) d.exchange_keys;
    links = keep-keep _ _ (λ l. other_kept i j l.profile_id ne) d.share_links;
    orders = orders_left i j (λ o. has_link_of i d.share_links o.share_link_id) d.trade_orders ne;
    snapshots = keep-keep _ _ (λ s. other_kept i j s.profile_id ne) d.snapshots;
    users = refl;
    followed = refl;
    waitlist = refl;
    next_id = refl;
  }

  -- How a deletion ends: the profile was the user's, it is gone with its rows, and any other profile
  -- `j` has what it had; or it is not there (404) or another user's (403), and nothing changes.
  abbrev pub Deletes : ℕ → ℕ → User → Db F → Reply (Unit {0}) × Db F → Type 0
  Deletes i j user d (ok u, e) =
      ((p : Profile) × (get_profile i d ≡ some p) × (p.user_id ≡ user.id))
      × IsGone i e
      × Spares i j d e
  Deletes i j user d (http code, e) =
      ((code ≡ 404) × (get_profile i d ≡ none) × (e ≡ d))
      ⊎ ((code ≡ 403)
          × ((p : Profile) × (get_profile i d ≡ some p) × (p.user_id ≢ user.id))
          × (e ≡ d))
  Deletes i j user d (crash, e) = ⊥

  -- How `delete_profile` ends. The profile is the user's, and then it is gone with its keys,
  -- share links, orders and snapshots, while any other profile has the same row, keys, share
  -- links and snapshots as before, and the same orders, but that a link of the deleted profile
  -- is taken off them; users, follows and the waitlist stay. Or the profile is not there (404)
  -- or another user's (403), and nothing changes.
  pub delete_profile-Deletes :
      (i j : ℕ) (user : User) (d : Db F) → j ≢ i → Deletes i j user d (delete_profile i user d)
  unfolding delete_profile
  delete_profile-Deletes i j user d ne = elim (Option-cases (get_profile i d)) [
    | inl missing ↦ ground arith
    | inr (p, found) ↦
        let same : p.id ≡ i =
          (nat_beq_iff p.id i).0 (find_passes (λ r. r.id == i) d.profiles {a = p} found) in
        elim (Bool-cases (p.user_id == user.id)) [
          | inl mine ↦
              let out : delete_profile i user d ≡ (ok tt, drop_profile i d) =
                ground (arith, same) in
              subst (Deletes i j user d) (sym out) (
                (p, found, (nat_beq_iff p.user_id user.id).0 mine),
                drop_profile-IsGone i d,
                drop_profile-Spares i j d ne,
              )
          | inr other ↦
              let out : delete_profile i user d ≡ (http 403, d) = ground arith in
              subst (Deletes i j user d) (sym out) (inr (refl, (p, found, ground arith), refl))
        ]
  ]
