-- ===== src/Auth/Callback.antt =====
-- All ends of a Google callback (backend/app/api/v1/auth.py).
use coin_hq.Base.{ℕ, ◌/◌, true, false, [], Option, some, or_else, ◌≡◌, ◌⊎◌}
use coin_hq.Base.Text.{Text, text_eq}
use coin_hq.Store.{User, Db, Reply, ok, http, crash, or_crash_cases, or_crash_cases}
use coin_hq.Config.{Settings}
use coin_hq.Auth.State.{Hmac}
use coin_hq.Auth.Tokens.{Jwt}
use coin_hq.Auth.Google.{UserInfo, Google, is_given, redirect_uri, check_state, frontend_redirect}
use coin_hq.Auth.Upsert.{Upserts}

module _ (google : Google) (settings : Settings) where
  -- Google vouched for an account with an email, for the code of the query.
  abbrev pub Vouches : Text → Text → UserInfo → Type 0
  Vouches base_url code info =
      (access : Option Text) × (google.post_token code (redirect_uri settings base_url)
        ≡ some (200, access))
      × (google.get_userinfo access ≡ some (200, info))
      × (is_given info.google_id ≡ true)
      × (is_given info.email ≡ true)

module _ {F : Type 0} (google : Google) (settings : Settings) where
  Fetches : Text → Text → Db F → Reply UserInfo × Db F → Type 0
  Fetches base_url code d (ok info, e) = Vouches google settings base_url code info × (e ≡ d)
  Fetches base_url code d (http c, e) = ((c ≡ 401) ⊎ (c ≡ 400)) × (e ≡ d)
  Fetches base_url code d (crash, e) = e ≡ d

module _ {F : Type 0} (jwt : Jwt) (settings : Settings) where
  -- The account's user is added or brought up to date, and the browser is sent to the frontend with
  -- tokens of that user.
  abbrev pub SignsIn : ℕ → UserInfo → Db F → Text → Db F → Type 0
  SignsIn now info d url e =
      (user : User) × Upserts (or_else info.google_id []) (or_else info.email []) info.name d
        (ok user, e)
      × (url ≡ frontend_redirect jwt settings now user.id)

  Signs : ℕ → UserInfo → Db F → Reply Text × Db F → Type 0
  Signs now info d (ok url, e) = SignsIn now info d url e
  Signs now info d (http c, e) = ⊥
  Signs now info d (crash, e) = e ≡ d

module _ {F : Type 0} (hmac : Hmac) (jwt : Jwt) (google : Google) (settings : Settings) where
  -- How a callback ends. A sign-in: the query had a code and no error, the state was issued here,
  -- and Google vouched for the account. Or an answer with 401, 403 or 400, 403 exactly if the query
  -- has a code and no error, but no valid state; or a crash. Then nothing changes.
  abbrev pub Ends :
      Text → Option Text → Option Text → Option Text → ℕ → Db F → Reply Text × Db F → Type 0
  Ends base_url code error state now d (ok url, e) =
      (is_given error ≡ false)
      × (is_given code ≡ true)
      × (is_given state ≡ true)
      × (check_state hmac google settings (or_else state []) now ≡ some true)
      × ((info : UserInfo) × Vouches google settings base_url (or_else code []) info
          × SignsIn jwt settings (now / 1000) info d url e)
  Ends base_url code error state now d (http c, e) =
      ((c ≡ 401)
        ⊎ (c ≡ 400)
        ⊎ ((c ≡ 403)
            × ((is_given state ≡ false)
                ⊎ (check_state hmac google settings (or_else state []) now ≡ some false))))
      × (e ≡ d)
  Ends base_url code error state now d (crash, e) = e ≡ d
