-- ===== src/Share/Links.antt =====
-- What creating, changing and revoking a share link do, on each of their ways out
-- (backend/app/api/v1/share.py).
use coin_hq.Base.{
  ℕ, List, not, keep, true, false, ◌≡◌, ◌≢◌, ◌⊎◌, inl, inr, [], ◌∷◌, ◌++◌, none, some, arith, find,
  find_passes, Option-cases, ◌==◌, nat_eq, nat_beq_iff,
}
use coin_hq.Base.Text.{Text, text_eq}
use coin_hq.Store.{User, Profile, ShareLink, Db, Reply, ok, http, crash}
use coin_hq.Store.Queries.{get_profile, get_link}
use coin_hq.Share.{
  ShareLinkCreate, ShareLinkUpdate, profile_has_trade_key, new_link, create_share_link,
  apply_update, asks_trade, breaks_not_null, write_link, update_share_link, deactivate,
  revoke_share_link,
}
use coin_hq.Share.Patches.{IsUpdated, GivesNull}

module _ {F : Type 0} where
  -- The profile is there and belongs to the user.
  abbrev pub Owns : User → ℕ → Db F → Type 0
  Owns user profile_id d =
      (p : Profile) × (get_profile profile_id d ≡ some p) × (p.user_id ≡ user.id)

  -- The profile is not there, or another user's.
  abbrev pub Lacks : User → ℕ → Db F → Type 0
  Lacks user i d =
      (get_profile i d ≡ none)
      ⊎ ((p : Profile) × (get_profile i d ≡ some p) × (p.user_id ≢ user.id))

  -- The link is not there, or its profile is not the user's.
  abbrev pub LacksLink : User → ℕ → Db F → Type 0
  LacksLink user i d =
      (get_link i d ≡ none)
      ⊎ ((l : ShareLink F) × (get_link i d ≡ some l) × Lacks user l.profile_id d)

  -- A link is created on a profile of the user, as the body says, under a token that was free; it
  -- may trade only if the profile has a trade key. A call that fails changes nothing.
  abbrev pub Creates :
      ShareLinkCreate F → Text → ℕ → User → Db F → Reply (ShareLink F) × Db F → Type 0
  Creates c token now user d (ok l, e) =
      Owns user c.profile_id d
      × (l ≡ new_link c token now d.next_id)
      × (e.share_links ≡ d.share_links ++ l ∷ [])
      × (e.profiles ≡ d.profiles)
      × (find (λ k. k.token == token) d.share_links ≡ none)
      × (l.can_trade ≡ true → profile_has_trade_key l.profile_id d ≡ true)
  Creates c token now user d (http code, e) =
      (((code ≡ 404) × Lacks user c.profile_id d)
        ⊎ ((code ≡ 400) × (c.can_trade ≡ true) × (profile_has_trade_key c.profile_id d ≡ false)))
      × (e ≡ d)
  Creates c token now user d (crash, e) =
      (find (λ k. k.token == token) d.share_links ≢ none) × (e ≡ d)

  -- How `create_share_link` ends. A link is added on a profile of the user, as the body says,
  -- under a token that was free, and it may trade only if the profile has a trade key; or the
  -- profile is not the user's (404), or trading is asked without a trade key (400), or the call
  -- crashes because the token is taken, and nothing changes.
  pub create_share_link-Creates :
      (c : ShareLinkCreate F) (token : Text) (now : ℕ) (user : User) (d : Db F)
      → Creates c token now user d (create_share_link c token now user d)
  unfolding create_share_link
  create_share_link-Creates c token now user d = elim (Option-cases (get_profile c.profile_id d)) [
    | inl missing ↦ ground arith
    | inr (p, found) ↦ ground (arith, nat_beq_iff p.user_id user.id)
  ]

  -- The other links.
  abbrev pub links_but : ℕ → Db F → List (ShareLink F)
  links_but i d = keep (λ l. not (l.id == i)) d.share_links

  -- How a call ends, in the functions of the code.
  abbrev pub Writes : ℕ → ShareLinkUpdate F → User → Db F → Reply (ShareLink F) × Db F → Type 0
  Writes i u user d (ok l, e) =
      ((old : ShareLink F) × (get_link i d ≡ some old)
        × Owns user old.profile_id d
        × ((asks_trade u.can_trade ≡ false) ⊎ (profile_has_trade_key old.profile_id d ≡ true))
        × (breaks_not_null u ≡ false)
        × (l ≡ apply_update u old))
      × (e ≡ write_link i (apply_update u) d)
  Writes i u user d (http code, e) =
      (((code ≡ 404) × LacksLink user i d)
        ⊎ ((code ≡ 400)
            × (asks_trade u.can_trade ≡ true)
            × ((old : ShareLink F) × (get_link i d ≡ some old)
                × (profile_has_trade_key old.profile_id d ≡ false))))
      × (e ≡ d)
  Writes i u user d (crash, e) = (breaks_not_null u ≡ true) × (e ≡ d)

  pub update_share_link-Writes :
      (i : ℕ) (u : ShareLinkUpdate F) (user : User) (d : Db F)
      → Writes i u user d (update_share_link i u user d)
  unfolding update_share_link
  update_share_link-Writes i u user d = elim (Option-cases (get_link i d)) [
    | inl missing ↦ ground arith
    | inr (l, found) ↦
        let same : l.id ≡ i =
          (nat_beq_iff l.id i).0 (find_passes (λ r. r.id == i) d.share_links {a = l} found) in
        elim (Option-cases (get_profile l.profile_id d)) [
          | inl gone ↦ ground arith
          | inr (p, there) ↦ ground (arith, same, nat_beq_iff p.user_id user.id)
        ]
  ]

  -- A link is changed by the owner of its profile, in the fields that the body gives; turning
  -- trading on takes a trade key. A call that fails changes nothing.
  abbrev pub Updates : ℕ → ShareLinkUpdate F → User → Db F → Reply (ShareLink F) × Db F → Type 0
  Updates i u user d (ok l, e) =
      ((old : ShareLink F) × (get_link i d ≡ some old)
        × Owns user old.profile_id d
        × ((asks_trade u.can_trade ≡ false) ⊎ (profile_has_trade_key old.profile_id d ≡ true))
        × IsUpdated u old l)
      × (get_link i e ≡ some l)
      × (links_but i e ≡ links_but i d)
      × (e ≡ record d { share_links = e.share_links })
  Updates i u user d (http code, e) =
      (((code ≡ 404) × LacksLink user i d)
        ⊎ ((code ≡ 400)
            × (asks_trade u.can_trade ≡ true)
            × ((old : ShareLink F) × (get_link i d ≡ some old)
                × (profile_has_trade_key old.profile_id d ≡ false))))
      × (e ≡ d)
  Updates i u user d (crash, e) = GivesNull u × (e ≡ d)

  -- A link is revoked by the owner of its profile; a call that fails changes nothing.
  abbrev pub Revokes : ℕ → User → Db F → Reply (Unit {0}) × Db F → Type 0
  Revokes i user d (ok u, e) =
      ((old : ShareLink F) × (get_link i d ≡ some old) × Owns user old.profile_id d)
      × (e ≡ write_link i deactivate d)
  Revokes i user d (http code, e) = ((code ≡ 404) × LacksLink user i d) × (e ≡ d)
  Revokes i user d (crash, e) = ⊥

  -- How `revoke_share_link` ends: a link on a profile of the user is made inactive and nothing
  -- else changes; or the user has no such link (404), and nothing changes.
  pub revoke_share_link-Revokes :
      (i : ℕ) (user : User) (d : Db F) → Revokes i user d (revoke_share_link i user d)
  unfolding revoke_share_link
  revoke_share_link-Revokes i user d = elim (Option-cases (get_link i d)) [
    | inl missing ↦ ground arith
    | inr (l, found) ↦
        let same : l.id ≡ i =
          (nat_beq_iff l.id i).0 (find_passes (λ r. r.id == i) d.share_links {a = l} found) in
        elim (Option-cases (get_profile l.profile_id d)) [
          | inl gone ↦ ground arith
          | inr (p, there) ↦ ground (arith, same, nat_beq_iff p.user_id user.id)
        ]
  ]
