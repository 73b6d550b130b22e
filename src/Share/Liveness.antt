-- ===== src/Share/Liveness.antt =====
-- Only a live link answers, and a view is counted once (backend/app/api/v1/share.py).
use coin_hq.Base.{
  ℕ, true, false, ◌≡◌, refl, ◌⊎◌, inl, inr, none, some, [], arith, if◌then◌else◌, Option-cases,
  Bool-cases,
}
use coin_hq.Base.Text.{Text}
use coin_hq.Base.Dict.{Dict}
use coin_hq.Number.{Number}
use coin_hq.Store.{Profile, ShareLink, Db, Reply, ok, http, crash}
use coin_hq.Store.Queries.{get_profile}
use coin_hq.Portfolio.{value_portfolio}
use coin_hq.Share.{find_active, write_link}
use coin_hq.Share.Public.{
  PublicFeeds, SharedPortfolioView, is_expired, live_link, viewed, keys_of, share_view,
  public_share_view,
}
use coin_hq.Share.Privacy.{IsPrivateView, IsOptedIn, share_view-IsPrivateView}

module _ {F : Type 0} where
  -- An active link with the token, not expired.
  pub record IsLive (token : Text) (now : ℕ) (d : Db F) (link : ShareLink F) : Type 0 where
    pub found : find_active token d ≡ some link
    pub in_time : is_expired link.expires_at now ≡ false

  -- Why no link is live: none is active under the token (404), or it has expired (410).
  abbrev pub IsDead : Text → ℕ → Db F → ℕ → Type 0
  IsDead token now d code =
      ((code ≡ 404) × (find_active token d ≡ none))
      ⊎ ((code ≡ 410)
          × ((l : ShareLink F) × (find_active token d ≡ some l)
              × (is_expired l.expires_at now ≡ true)))

  -- The lookup writes nothing.
  abbrev pub Finds : Text → ℕ → Db F → Reply (ShareLink F) × Db F → Type 0
  Finds token now d (ok l, e) = IsLive token now d l × (e ≡ d)
  Finds token now d (http code, e) = IsDead token now d code × (e ≡ d)
  Finds token now d (crash, e) = ⊥

  live_link-Finds : (token : Text) (now : ℕ) (d : Db F) → Finds token now d (live_link token now d)
  unfolding live_link
  live_link-Finds token now d = elim (Option-cases (find_active token d)) [
    | inl missing ↦ ground arith
    | inr (l, found) ↦ ground arith
  ]

module _ {F : Type 0} ⦃n : Number F⦄ where
  -- How a public view ends. A view: the link is live, it is counted as viewed and nothing else
  -- changes, and the view keeps to the flags of the link. No view: no link is live, and nothing
  -- changes, also not the count; or the profile is gone, after the count.
  abbrev pub Views : PublicFeeds F → Text → ℕ → Db F → Reply (SharedPortfolioView F) × Db F → Type 0
  Views outside token now d (ok view, e) =
      (l : ShareLink F) × IsLive token now d l
      × (e ≡ write_link l.id (viewed now) d)
      × ((p : Profile) × (get_profile l.profile_id d ≡ some p)
          × IsPrivateView outside.digest l
              (value_portfolio outside.feeds l.profile_id p.name (keys_of l.profile_id d)) view)
  Views outside token now d (http code, e) =
      (IsDead token now d code × (e ≡ d))
      ⊎ ((code ≡ 404)
          × ((l : ShareLink F) × IsLive token now d l
              × (get_profile l.profile_id d ≡ none)
              × (e ≡ write_link l.id (viewed now) d)))
  Views outside token now d (crash, e) = ⊥

  avg_for : PublicFeeds F → ShareLink F → Profile → Db F → Dict Text (Dict Text F)
  avg_for outside l p d =
      if l.show_avg_buy_price then outside.avg_buy_prices p (keys_of l.profile_id d) else []

  avg_for-IsOptedIn :
      (outside : PublicFeeds F) (l : ShareLink F) (p : Profile) (d : Db F)
      → IsOptedIn l (avg_for outside l p d)
  unfolding avg_for
  avg_for-IsOptedIn outside l p d off = rw off refl

  view_of_live :
      (outside : PublicFeeds F) (token : Text) (now : ℕ) (d : Db F) (l : ShareLink F)
      → IsLive token now d l
      → Views outside token now d (public_share_view outside token now d)
  unfolding public_share_view avg_for
  view_of_live outside token now d l live = elim (Option-cases (get_profile l.profile_id d)) [
    | inl gone ↦ ground (arith, live)
    | inr (p, there) ↦
        let after = write_link l.id (viewed now) d in
        let portfolio =
          value_portfolio outside.feeds l.profile_id p.name (keys_of l.profile_id d) in
        let view = share_view outside.digest now l portfolio (avg_for outside l p d) after in
        let same : public_share_view outside token now d ≡ (ok view, after) =
          ground (arith, live, there) in
        rw same (
          l,
          live,
          refl,
          (
            p,
            there,
            share_view-IsPrivateView l (avg_for outside l p d) (avg_for-IsOptedIn outside l p d)
                outside.digest now portfolio after,
          ),
        )
  ]

  -- How a public view ends. Either the link is live, its view count and time are all that
  -- changes, the profile exists, and the view keeps to the flags of the link; or no active link
  -- has the token (404) or it has expired (410), and nothing changes; or the link is live and
  -- the profile is gone (404), after the count.
  pub public_share_view-Views :
      (outside : PublicFeeds F) (token : Text) (now : ℕ) (d : Db F)
      → Views outside token now d (public_share_view outside token now d)
  public_share_view-Views outside token now d = elim (Option-cases (find_active token d)) [
    | inl missing ↦ unfold public_share_view in ground arith
    | inr (l, found) ↦ elim (Bool-cases (is_expired l.expires_at now)) [
      | inl late ↦ unfold public_share_view in ground arith
      | inr early ↦ view_of_live outside token now d l (record { found = found; in_time = early })
    ]
  ]
