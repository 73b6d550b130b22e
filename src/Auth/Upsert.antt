-- ===== src/Auth/Upsert.antt =====
-- What a sign-in does to the users (backend/app/api/v1/auth.py): who is added or changed, and that
-- no two users share an id, a Google account or an email.
use coin_hq.Base.{
  ℕ, suc, ◌<◌, Bool, true, false, not, List, [], ◌∷◌, ◌++◌, Option, none, some, ◌≡◌, ◌≢◌, refl, sym,
  ap, subst, ◌∙◌, arith, find, find-append_none, change, keep, keep-change, any, All, All-append,
  All-map, Option-cases, Bool-cases, inl, inr, ◌==◌, nat_eq, nat_beq_iff,
}
use coin_hq.Base.Text.{Text, text, text_eq, text_beq_iff}
use coin_hq.Store.{User, Db, Reply, ok, http, crash}
use coin_hq.Auth.Google.{by_google_id, takes_email, add_user, refresh_user, upsert, upsert_user}

new_user : ℕ → Text → Text → Option Text → User
new_user i g email name = record {
  id = i;
  email = email;
  name = name;
  google_id = g;
  tier = text "free";
}

set_user : Text → Option Text → User → User
set_user email name u = record u { email = email; name = name }

find-change :
    (p : User → Bool) (i : ℕ) (email : Text) (name : Option Text) (us : List User) (u : User)
    → ((v : User) → p (set_user email name v) ≡ p v)
    → u.id ≡ i
    → find p us ≡ some u
    → find p (change (λ v. v.id == i) (set_user email name) us) ≡ some (set_user email name u)
find-change p i email name [] u same this h = absurd cc
find-change p i email name (v ∷ us) u same this h =
    ground (arith, same v, nat_beq_iff v.id i, find-change p i email name us u same this)

set_user-id :
    (i : ℕ) (email : Text) (name : Option Text) (us : List User)
    → All
        (λ v.
          (v.id == i) ≡ true
          → (not (v.id == i) ≡ false) × (not ((set_user email name v).id == i) ≡ false))
        us
unfolding set_user
set_user-id i email name [] = tt
set_user-id i email name (v ∷ us) = (λ h. ground arith, set_user-id i email name us)

keep_but-append :
    (us : List User) (u : User)
    → keep (λ v. not (v.id == u.id)) (us ++ u ∷ []) ≡ keep (λ v. not (v.id == u.id)) us
keep_but-append [] u = ground (arith, nat_beq_iff u.id u.id)
keep_but-append (v ∷ us) u = ground (arith, keep_but-append us u)

any-takes :
    (i : ℕ) (email : Text) (us : List User)
    → any (takes_email i email) us ≡ true
    → any (λ u. u.email == email) us ≡ true
any-takes i email [] h = h
any-takes i email (u ∷ us) h = ground (arith, any-takes i email us)

module _ {F : Type 0} where
  -- What an upsert has done: the Google account's user bears the email and the name, and all other
  -- users are as before; or the email is another user's, and nothing has changed.
  abbrev pub Upserts : Text → Text → Option Text → Db F → Reply User × Db F → Type 0
  Upserts g email name d (ok u, e) =
      (find (by_google_id g) e.users ≡ some u)
      × (u.email ≡ email)
      × (u.name ≡ name)
      × (keep (λ v. not (v.id == u.id)) e.users ≡ keep (λ v. not (v.id == u.id)) d.users)
  Upserts g email name d (http code, e) = ⊥
  Upserts g email name d (crash, e) = (any (λ u. u.email == email) d.users ≡ true) × (e ≡ d)

  add_user-Upserts :
      (g email : Text) (name : Option Text) (d : Db F)
      → find (by_google_id g) d.users ≡ none
      → Upserts g email name d (add_user g email name d)
  unfolding add_user new_user
  add_user-Upserts g email name d none_yet = ground (
    arith,
    find-append_none (by_google_id g) d.users (new_user d.next_id g email name) none_yet,
    text_beq_iff g g,
    keep_but-append d.users (new_user d.next_id g email name),
    nat_beq_iff d.next_id d.next_id,
  )

  refresh_user-Upserts :
      (g email : Text) (name : Option Text) (u : User) (d : Db F)
      → find (by_google_id g) d.users ≡ some u
      → Upserts g email name d (refresh_user u email name d)
  unfolding refresh_user set_user
  refresh_user-Upserts g email name u d found = ground (
    arith,
    find-change (by_google_id g) u.id email name d.users u (λ v. refl) refl found,
    any-takes u.id email d.users,
    keep-change (λ v. not (v.id == u.id)) (λ v. v.id == u.id) (set_user email name) d.users
        (set_user-id u.id email name d.users),
  )

  -- Who is added or changed by a sign-in.
  pub upsert_user-Upserts :
      (g email : Text) (name : Option Text) (d : Db F)
      → Upserts g email name d (upsert_user g email name d)
  unfolding upsert_user
  upsert_user-Upserts g email name d = elim (Option-cases (find (by_google_id g) d.users)) [
    | inl new ↦
        subst (Upserts g email name d) (sym (ap (λ found. upsert g email name found d) new))
          (add_user-Upserts g email name d new)
    | inr (u, found) ↦
        subst (Upserts g email name d) (sym (ap (λ found. upsert g email name found d) found))
          (refresh_user-Upserts g email name u d found)
  ]

-- Two rows that break no unique column.
abbrev pub AreApart : User → User → Type 0
AreApart u v = (v.id ≢ u.id) × (v.google_id ≢ u.google_id) × (v.email ≢ u.email)

abbrev pub HasUniqueUsers : List User → Type 0
HasUniqueUsers [] = Unit
HasUniqueUsers (u ∷ us) = All (AreApart u) us × HasUniqueUsers us

-- The ids that were given out lie below the counter.
abbrev pub AreNumbered : {F : Type 0} → Db F → Type 0
AreNumbered d = All (λ u. u.id < d.next_id) d.users

append-HasUniqueUsers :
    (us : List User) (u : User)
    → HasUniqueUsers us
    → All (λ v. AreApart v u) us
    → HasUniqueUsers (us ++ u ∷ [])
append-HasUniqueUsers [] u h a = (tt, tt)
append-HasUniqueUsers (v ∷ us) u (h, hs) (a, as') =
    (All-append (AreApart v) us (u ∷ []) h (a, tt), append-HasUniqueUsers us u hs as')

new_user-AreApart :
    (i : ℕ) (g email : Text) (name : Option Text) (us : List User)
    → All (λ u. u.id < i) us
    → find (by_google_id g) us ≡ none
    → any (λ u. u.email == email) us ≡ false
    → All (λ v. AreApart v (new_user i g email name)) us
unfolding new_user
new_user-AreApart i g email name [] below h h' = tt
new_user-AreApart i g email name (u ∷ us) (b, bs) h h' = ground (
  arith,
  new_user-AreApart i g email name us bs,
  text_beq_iff u.google_id g,
  text_beq_iff u.email email,
)

change-AreApart :
    (w : User) (i : ℕ) (email : Text) (name : Option Text) (us : List User)
    → w.email ≢ email
    → All (AreApart w) us
    → All (AreApart w) (change (λ v. v.id == i) (set_user email name) us)
unfolding set_user
change-AreApart w i email name [] h a = tt
change-AreApart w i email name (v ∷ us) h (a, as') =
    ground (arith, change-AreApart w i email name us h as')

change_apart :
    (i : ℕ) (email : Text) (name : Option Text) (us : List User)
    → All (λ v. v.id ≢ i) us
    → change (λ v. v.id == i) (set_user email name) us ≡ us
change_apart i email name [] h = refl
change_apart i email name (v ∷ us) (h, hs) =
    ground (arith, change_apart i email name us hs, nat_beq_iff v.id i)

-- The changed row stays apart from rows that do not have its new email.
set_user-AreApart :
    (w : User) (email : Text) (name : Option Text) (us : List User)
    → any (takes_email w.id email) us ≡ false
    → All (AreApart w) us
    → All (AreApart (set_user email name w)) us
unfolding set_user
set_user-AreApart w email name [] free a = tt
set_user-AreApart w email name (v ∷ us) free (a, as') =
    ground
      (arith, set_user-AreApart w email name us, text_beq_iff v.email email, nat_beq_iff v.id w.id)

change-HasUniqueUsers :
    (i : ℕ) (email : Text) (name : Option Text) (us : List User)
    → any (takes_email i email) us ≡ false
    → HasUniqueUsers us
    → HasUniqueUsers (change (λ v. v.id == i) (set_user email name) us)
change-HasUniqueUsers i email name [] free h = tt
change-HasUniqueUsers i email name (v ∷ us) free (h, hs) = elim (Bool-cases (v.id == i)) [
  | inl is ↦
      let at : v.id ≡ i = (nat_beq_iff v.id i).0 is in
      let others = change_apart i email name us (All-map us (λ w a e. a.0 (e ∙ sym at)) h) in
      let free' : any (takes_email v.id email) us ≡ false = ground arith in
      rw is (rw others (set_user-AreApart v email name us free' h, hs))
  | inr isnt ↦
      let apart : v.email ≢ email = ground (arith, text_beq_iff v.email email) in
      let rest : any (takes_email i email) us ≡ false = ground arith in
      rw isnt
        (change-AreApart v i email name us apart h, change-HasUniqueUsers i email name us rest hs)
]

change-numbered :
    (n i : ℕ) (email : Text) (name : Option Text) (us : List User)
    → All (λ u. u.id < n) us
    → All (λ u. u.id < n) (change (λ v. v.id == i) (set_user email name) us)
unfolding set_user
change-numbered n i email name [] h = tt
change-numbered n i email name (u ∷ us) (h, hs) =
    ground (arith, change-numbered n i email name us hs)

module _ {F : Type 0} where
  Stays : Reply User × Db F → Type 0
  Stays out = HasUniqueUsers out.1.users × AreNumbered out.1

  add_user-Stays :
      (g email : Text) (name : Option Text) (d : Db F)
      → find (by_google_id g) d.users ≡ none
      → HasUniqueUsers d.users
      → AreNumbered d
      → Stays (add_user g email name d)
  unfolding add_user Stays new_user
  add_user-Stays g email name d new h below =
      elim (Bool-cases (any (λ u. u.email == email) d.users)) [
        | inl taken ↦ rw taken (h, below)
        | inr free ↦ rw free (
          append-HasUniqueUsers d.users (new_user d.next_id g email name) h
              (new_user-AreApart d.next_id g email name d.users below new free),
          All-append (λ u. u.id < suc d.next_id) d.users (new_user d.next_id g email name ∷ [])
              (All-map d.users (λ u b. omega arith) below) (omega arith, tt),
        )
      ]

  refresh_user-Stays :
      (user : User) (email : Text) (name : Option Text) (d : Db F)
      → HasUniqueUsers d.users
      → AreNumbered d
      → Stays (refresh_user user email name d)
  unfolding refresh_user Stays set_user
  refresh_user-Stays user email name d h below =
      elim (Bool-cases (any (takes_email user.id email) d.users)) [
        | inl taken ↦ rw taken (h, below)
        | inr free ↦ rw free (
          change-HasUniqueUsers user.id email name d.users free h,
          change-numbered d.next_id user.id email name d.users below,
        )
      ]

  upsert-Stays :
      (g email : Text) (name : Option Text) (d : Db F) (found : Option User)
      → find (by_google_id g) d.users ≡ found
      → HasUniqueUsers d.users
      → AreNumbered d
      → Stays (upsert g email name found d)
  upsert-Stays g email name d none new h below = add_user-Stays g email name d new h below
  upsert-Stays g email name d (some u) new h below = refresh_user-Stays u email name d h below

  -- The sign-in of any account with any email and name leaves the users with ids, Google
  -- accounts and emails of their own, and with ids below the counter, where they were so
  -- before.
  pub upsert_user-HasUniqueUsers :
      (g email : Text) (name : Option Text) (d : Db F)
      → HasUniqueUsers d.users
      → AreNumbered d
      → let e = (upsert_user g email name d).1 in HasUniqueUsers e.users × AreNumbered e
  unfolding upsert_user Stays
  upsert_user-HasUniqueUsers g email name d h below =
      upsert-Stays g email name d (find (by_google_id g) d.users) refl h below
