-- ===== src/Share/Ownership.antt =====
-- No user changes another user's share links, and following is idempotent
-- (backend/app/api/v1/share.py).
use coin_hq.Base.{
  ℕ, Bool, true, false, ◌&&◌, ◌≡◌, ◌≢◌, refl, ap, ◌∙◌, inl, inr, List, [], ◌∷◌, Option, none, some,
  arith, find, find-none-All, keep, keep-append, keep-change, append-nil, All, All-map,
  Option-cases, Bool-cases, ◌==◌, nat_eq, nat_beq_iff, find-append_none,
}
use coin_hq.Base.Text.{Text, text_eq, text_beq_iff}
use coin_hq.Store.{User, Profile, ShareLink, FollowedPortfolio, Db, Reply, ok, http, crash}
use coin_hq.Store.Queries.{get_profile, get_link}
use coin_hq.Share.{
  ShareLinkCreate, ShareLinkUpdate, create_share_link, update_share_link, revoke_share_link,
  apply_update, deactivate, write_link, find_active,
}
use coin_hq.Share.Follow.{find_followed, follow_portfolio}
use coin_hq.Share.Links.{
  Owns, Creates, Writes, Revokes, create_share_link-Creates, update_share_link-Writes,
  revoke_share_link-Revokes,
}

-- The requests that write share links.
pub data Request (F : Type 0) : Type 0 where
  create : ShareLinkCreate F → Text → ℕ → Request F
  update : ℕ → ShareLinkUpdate F → Request F
  revoke : ℕ → Request F

abbrev pub is_owner : ℕ → Option Profile → Bool
is_owner v none = false
is_owner v (some p) = p.user_id == v

module _ {F : Type 0} where
  unfoldable pub handle : Request F → User → Db F → Db F
  handle (create c token now) user d = (create_share_link c token now user d).1
  handle (update i u) user d = (update_share_link i u user d).1
  handle (revoke i) user d = (revoke_share_link i user d).1

  abbrev pub owned_by : ℕ → List Profile → ShareLink F → Bool
  owned_by v ps l = is_owner v (find (λ r. r.id == l.profile_id) ps)

  -- The links on the profiles of user `v`.
  abbrev pub links_of : ℕ → Db F → List (ShareLink F)
  links_of v d = keep (owned_by v d.profiles) d.share_links

  -- The primary key.
  abbrev pub HasUniqueIds : List (ShareLink F) → Type 0
  HasUniqueIds [] = Unit
  HasUniqueIds (l ∷ ls) = (find (λ r. r.id == l.id) ls ≡ none) × HasUniqueIds ls

  only_one :
      (i : ℕ) (ls : List (ShareLink F)) (old : ShareLink F)
      → HasUniqueIds ls
      → find (λ r. r.id == i) ls ≡ some old
      → All (λ l. (l.id == i) ≡ true → l ≡ old) ls
  only_one i [] old u found = tt
  only_one i (l ∷ ls) old (fresh, u) found = elim (Bool-cases (l.id == i)) [
    | inl same ↦ (
      λ e. ground arith,
      All-map ls (λ x h e. absurd (ground (arith, nat_beq_iff l.id i)))
          (find-none-All (λ r. r.id == l.id) ls fresh),
    )
    | inr other ↦ (λ e. cc, only_one i ls old u (ground arith))
  ]

  -- A write to a link that is not `v`'s, by a function that keeps its profile.
  write_link-links_of :
      (v i : ℕ) (f : ShareLink F → ShareLink F) (old : ShareLink F) (user : User) (d : Db F)
      → ((l : ShareLink F) → (f l).profile_id ≡ l.profile_id)
      → HasUniqueIds d.share_links
      → get_link i d ≡ some old
      → Owns user old.profile_id d
      → v ≢ user.id
      → links_of v (write_link i f d) ≡ links_of v d
  write_link-links_of v i f old user d keeps u found (p, there, mine) ne =
      keep-change (owned_by v d.profiles) (λ l. l.id == i) f d.share_links
        (All-map d.share_links
          (λ l only e.
            let at : l.profile_id ≡ old.profile_id = ap (λ x. x.profile_id) (only e) in
            (foreign l.profile_id at, foreign (f l).profile_id (keeps l ∙ at)))
          (only_one i d.share_links old u found))
    where
      foreign : (j : ℕ) → j ≡ old.profile_id → is_owner v (get_profile j d) ≡ false
      foreign j e = rw (e, there) (ground (arith, mine, ne, nat_beq_iff p.user_id v))

  create-links_of :
      (v : ℕ) (c : ShareLinkCreate F) (token : Text) (now : ℕ) (user : User) (d : Db F)
      (out : Reply (ShareLink F) × Db F)
      → v ≢ user.id
      → Creates c token now user d out
      → links_of v out.1 ≡ links_of v d
  create-links_of v c token now user d (ok l, e) ne ((p, there, mine), made, grown, same, _, _) =
      rw (grown, same, keep-append)
        (ground (arith, made, mine, ne, there, append-nil (links_of v d), nat_beq_iff p.user_id v))
  create-links_of v c token now user d (http code, e) ne (_, same) = rw same refl
  create-links_of v c token now user d (crash, e) ne (_, same) = rw same refl

  update-links_of :
      (v i : ℕ) (u : ShareLinkUpdate F) (user : User) (d : Db F) (out : Reply (ShareLink F) × Db F)
      → HasUniqueIds d.share_links
      → v ≢ user.id
      → Writes i u user d out
      → links_of v out.1 ≡ links_of v d
  update-links_of v i u user d (ok l, e) h ne ((old, found, owns, _, _, _), same) = rw same (
      write_link-links_of v i (apply_update u) old user d (λ l. unfold apply_update in refl) h found
        owns ne)
  update-links_of v i u user d (http code, e) h ne (_, same) = rw same refl
  update-links_of v i u user d (crash, e) h ne (_, same) = rw same refl

  revoke-links_of :
      (v i : ℕ) (user : User) (d : Db F) (out : Reply (Unit {0}) × Db F)
      → HasUniqueIds d.share_links
      → v ≢ user.id
      → Revokes i user d out
      → links_of v out.1 ≡ links_of v d
  revoke-links_of v i user d (ok l, e) h ne ((old, found, owns), same) =
      rw same (write_link-links_of v i deactivate old user d (λ l. refl) h found owns ne)
  revoke-links_of v i user d (http code, e) h ne (_, same) = rw same refl
  revoke-links_of v i user d (crash, e) h ne c = absurd c

  -- Isolation: whatever a user asks of the share links, creating, changing or revoking any by
  -- its id, the links on every other user's profiles are as before, where the ids of the links
  -- are distinct.
  pub handle-links_of :
      (r : Request F) (user : User) (v : ℕ) (d : Db F)
      → HasUniqueIds d.share_links
      → v ≢ user.id
      → links_of v (handle r user d) ≡ links_of v d
  unfolding handle
  handle-links_of (create c token now) user v d h ne =
      create-links_of v c token now user d _ ne (create_share_link-Creates c token now user d)
  handle-links_of (update i u) user v d h ne =
      update-links_of v i u user d _ h ne (update_share_link-Writes i u user d)
  handle-links_of (revoke i) user v d h ne =
      revoke-links_of v i user d _ h ne (revoke_share_link-Revokes i user d)

  -- Following is idempotent: where a first call succeeds, a second one right after it returns
  -- the same row and changes nothing.
  follow_portfolio_twice :
      (token : Text) (user : User) (d : Db F) (f : FollowedPortfolio)
      → (follow_portfolio token user d).0 ≡ ok f
      → let e = (follow_portfolio token user d).1 in follow_portfolio token user e ≡ (ok f, e)
  unfolding follow_portfolio
  follow_portfolio_twice token user d f h = elim (Option-cases (find_active token d)) [
    | inl missing ↦ ground arith
    | inr (l, found) ↦ elim (Option-cases (find_followed user.id token d)) [
      | inr (g, old) ↦ ground arith
      | inl new ↦ ground (
        arith,
        find-append_none (λ r. r.user_id == user.id && r.token == token) d.followed
            (record { id = d.next_id; user_id = user.id; token = token; label = l.label }),
        nat_beq_iff user.id user.id,
        text_beq_iff token token,
      )
    ]
  ]
