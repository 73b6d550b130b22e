-- ===== src/Profiles/Laws.antt =====
-- The tier limit, the names and the isolation of profiles (backend/app/api/v1/profiles.py).
use coin_hq.Base.{
  ℕ, suc, ◌≤◌, ◌≡◌, ◌≢◌, ◌⊎◌, refl, List, [], ◌∷◌, ◌++◌, arith, find, if◌then◌else◌,
  find-append_none, none, ◌==◌, nat_eq, nat_beq_iff,
}
use coin_hq.Base.Text.{Text, text, text_eq, text_beq_iff}
use coin_hq.Store.{User, Profile, Db, Reply, ok, http, crash}
use coin_hq.Limits.Laws.{check_profile_limit_iff}
use coin_hq.Profiles.{profile_count, is_named, create_profile}

profile_count-append :
    (u : ℕ) (ps : List Profile) (p : Profile)
    → profile_count u (ps ++ p ∷ [])
      ≡ (if p.user_id == u then suc (profile_count u ps) else profile_count u ps)
unfolding profile_count
profile_count-append u [] p = ground arith
profile_count-append u (q ∷ ps) p = ground (arith, profile_count-append u ps p)

-- No user has two profiles of one name.
abbrev pub HasUniqueNames : List Profile → Type 0
HasUniqueNames [] = Unit
HasUniqueNames (p ∷ ps) = (find (is_named p.user_id p.name) ps ≡ none) × HasUniqueNames ps

append-HasUniqueNames :
    (ps : List Profile) (p : Profile)
    → find (is_named p.user_id p.name) ps ≡ none
    → HasUniqueNames ps
    → HasUniqueNames (ps ++ p ∷ [])
append-HasUniqueNames [] p fresh h = (refl, tt)
append-HasUniqueNames (q ∷ ps) p fresh (h, hs) = ground (
  arith,
  find-append_none (is_named q.user_id q.name) ps p h,
  append-HasUniqueNames ps p,
  nat_beq_iff p.user_id q.user_id,
  nat_beq_iff q.user_id p.user_id,
  text_beq_iff p.name q.name,
  text_beq_iff q.name p.name,
)

module _ {F : Type 0} where
  -- What a call of `create_profile` has done: the new profile is the user's, is the only change to
  -- the profiles, bears a name that the user had not given yet, and a user outside the premium tier
  -- now has exactly one; or the call fails with 403 or 400 and changes nothing.
  abbrev pub Creates : User → Text → Db F → Reply Profile × Db F → Type 0
  Creates user name d (ok p, e) =
      (p.user_id ≡ user.id)
      × (p.name ≡ name)
      × (e.profiles ≡ d.profiles ++ p ∷ [])
      × (find (is_named user.id name) d.profiles ≡ none)
      × (user.tier ≢ text "premium" → profile_count user.id e.profiles ≡ 1)
  Creates user name d (http code, e) =
      (((code ≡ 403) × (user.tier ≢ text "premium") × (1 ≤ profile_count user.id d.profiles))
        ⊎ ((code ≡ 400) × (find (is_named user.id name) d.profiles ≢ none)))
      × (e ≡ d)
  Creates user name d (crash, e) = ⊥

  Creates-HasUniqueNames :
      (user : User) (name : Text) (d : Db F) (out : Reply Profile × Db F)
      → HasUniqueNames d.profiles
      → Creates user name d out
      → HasUniqueNames out.1.profiles
  Creates-HasUniqueNames user name d (ok p, e) h (mine, named, same, fresh, _) =
      rw same (append-HasUniqueNames d.profiles p (rw (mine, named) fresh) h)
  Creates-HasUniqueNames user name d (http code, e) h (_, same) = rw same h
  Creates-HasUniqueNames user name d (crash, e) h c = absurd c

  pub create_profile-Creates :
      (user : User) (name : Text) (d : Db F) → Creates user name d (create_profile user name d)
  unfolding create_profile
  create_profile-Creates user name d = ground (
    arith,
    check_profile_limit_iff user (profile_count user.id d.profiles),
    profile_count-append user.id d.profiles
        (record { id = d.next_id; user_id = user.id; name = name }),
    nat_beq_iff user.id user.id,
  )

  -- No call of `create_profile` gives a user two profiles of one name, where no user had two
  -- before.
  create_profile-HasUniqueNames :
      (user : User) (name : Text) (d : Db F)
      → HasUniqueNames d.profiles
      → HasUniqueNames (create_profile user name d).1.profiles
  create_profile-HasUniqueNames user name d h =
      Creates-HasUniqueNames user name d (create_profile user name d) h
        (create_profile-Creates user name d)
