-- ===== src/Auth/Google.antt =====
-- The Google sign-in of backend/app/api/v1/auth.py. Google's answers, Redis and the random tokens
-- are arguments; `none` is an exception of a call.
use coin_hq.Base.{
  ℕ, ◌/◌, or_else, Bool, false, [], ◌∷◌, ◌++◌, Option, none, some, ◌||◌, not, if◌then◌else◌, find,
  change, any, ◌==◌, nat_eq, nat_beq, ◌&&◌,
}
use coin_hq.Base.Text.{Text, text, text_eq, is_truthy, starts_with}
use coin_hq.Base.Int.{pos}
use coin_hq.Store.{
  User, Action, pure, raise_if, or_crash, crash_if, ◌>>=◌, ◌>>◌, gets, modify, fresh_id,
}
use coin_hq.Config.{Settings}
use coin_hq.Auth.State.{Hmac, make_stateless_state, verify_stateless_state, stateless_prefix}
use coin_hq.Auth.Tokens.{Jwt, create_access_token, create_refresh_token}

-- `bool(x)` of a text that may be absent
abbrev pub is_given : Option Text → Bool
is_given none = false
is_given (some s) = is_truthy s

-- `s.rstrip("/")`
unfoldable pub rstrip_slash : Text → Text
rstrip_slash [] = []
rstrip_slash (c ∷ s) = elim (rstrip_slash s) [
  | [] ↦ (if nat_beq c b'/' then [] else c ∷ [])
  | d ∷ t ↦ c ∷ d ∷ t
]

-- `_redirect_uri`, of the base URL of the request
unfoldable pub redirect_uri : Settings → Text → Text
unfolding rstrip_slash
redirect_uri settings base_url =
    rstrip_slash (if is_truthy settings.backend_url then settings.backend_url else base_url)
    ++ text "/api/v1/auth/google/callback"

-- The URL of the consent screen, which carries the state.
unfoldable pub consent_url : Settings → Text → Text → Text
unfolding redirect_uri
consent_url settings base_url state =
    text "https://accounts.google.com/o/oauth2/v2/auth"
    ++ text "?client_id="
    ++ settings.google_client_id
    ++ text "&redirect_uri="
    ++ redirect_uri settings base_url
    ++ text "&response_type=code"
    ++ text "&scope=openid%20email%20profile"
    ++ text "&access_type=offline"
    ++ text "&prompt=select_account"
    ++ text "&state="
    ++ state

unfoldable pub state_key : Text → Text
state_key state = text "oauth_state:" ++ state

-- The state that a login hands out: the random one if `redis.set` took it, or a signed one.
unfoldable pub login_state : Hmac → Settings → (Text → Bool) → Text → Text → ℕ → Text
login_state hmac settings redis_set random nonce now =
    if redis_set (state_key random)
    then random
    else make_stateless_state hmac settings.jwt_secret nonce now

unfoldable pub google_login : Hmac → Settings → (Text → Bool) → Text → Text → Text → ℕ → Text
unfolding login_state consent_url
google_login hmac settings redis_set base_url random nonce now =
    consent_url settings base_url (login_state hmac settings redis_set random nonce now)

-- What the identity endpoint tells; a field may be absent.
pub record UserInfo : Type 0 where
  pub google_id : Option Text
  pub email : Option Text
  pub name : Option Text

-- The calls of a callback: the number of deleted keys, and Google's status codes and bodies.
pub record Google : Type 0 where
  pub redis_delete : Text → Option ℕ
  pub post_token : Text → Text → Option (ℕ × Option Text)
  pub get_userinfo : Option Text → Option (ℕ × UserInfo)

abbrev pub by_google_id : Text → User → Bool
by_google_id g u = u.google_id == g

-- A row other than `i` that has the unique email already.
abbrev pub takes_email : ℕ → Text → User → Bool
takes_email i email u = u.email == email && not (u.id == i)

module _ {F : Type 0} where
  -- A new user; the unique email may be taken.
  unfoldable pub add_user : Text → Text → Option Text → Action F User
  add_user google_id email name = do
    crash_if (← gets (λ d. any (λ u. u.email == email) d.users))
    i ← fresh_id
    let user : User = record {
      id = i;
      email = email;
      name = name;
      google_id = google_id;
      tier = text "free";
    }
    modify (λ d. record d { users = d.users ++ user ∷ [] })
    pure user

  unfoldable pub refresh_user : User → Text → Option Text → Action F User
  refresh_user user email name = do
    crash_if (← gets (λ d. any (takes_email user.id email) d.users))
    modify (λ d. record d {
      users = change (λ u. u.id == user.id) (λ u. record u { email = email; name = name }) d.users;
    })
    pure (record user { email = email; name = name })

  abbrev pub upsert : Text → Text → Option Text → Option User → Action F User
  upsert google_id email name none = add_user google_id email name
  upsert google_id email name (some user) = refresh_user user email name

  unfoldable pub upsert_user : Text → Text → Option Text → Action F User
  unfolding add_user refresh_user
  upsert_user google_id email name = do
    user ← gets (λ d. find (by_google_id google_id) d.users)
    upsert google_id email name user

-- `if not deleted`, where an exception of Redis counts as no deletion
abbrev deleted_any : Option ℕ → Bool
deleted_any none = false
deleted_any (some n) = not (nat_beq n 0)

module _ {F : Type 0} where
  unfoldable pub check_identity : ℕ × UserInfo → Action F UserInfo
  check_identity (status, userinfo) = do
    raise_if (not (nat_beq status 200)) 401
    raise_if (not (is_given userinfo.google_id) || not (is_given userinfo.email)) 400
    pure userinfo

module _ {F : Type 0} (google : Google) (settings : Settings) where
  unfoldable pub fetch_userinfo : ℕ × Option Text → Action F UserInfo
  unfolding check_identity
  fetch_userinfo (status, access_token) = do
    raise_if (not (nat_beq status 200)) 401
    answer ← or_crash (google.get_userinfo access_token)
    check_identity answer

  -- The two calls to Google, with the identity that they end in.
  unfoldable pub fetch_identity : Text → Text → Action F UserInfo
  unfolding redirect_uri fetch_userinfo
  fetch_identity base_url code = do
    answer ← or_crash (google.post_token code (redirect_uri settings base_url))
    fetch_userinfo answer

module _ (hmac : Hmac) (google : Google) (settings : Settings) where
  -- Whether the state was issued here; a signed one is told by its prefix.
  unfoldable pub check_state : Text → ℕ → Option Bool
  unfolding state_key
  check_state state now =
      if starts_with state (stateless_prefix ++ text ".")
      then verify_stateless_state hmac settings.jwt_secret state now
      else some (deleted_any (google.redis_delete (state_key state)))

module _ (jwt : Jwt) (settings : Settings) where
  unfoldable pub frontend_redirect : ℕ → ℕ → Text
  frontend_redirect now user_id =
      settings.frontend_url
      ++ text "/auth/callback"
      ++ text "?token="
      ++ create_access_token jwt settings now (pos user_id)
      ++ text "&refresh_token="
      ++ create_refresh_token jwt settings now (pos user_id)

module _ {F : Type 0} (jwt : Jwt) (settings : Settings) where
  -- The end of a callback, once Google has told who it is.
  unfoldable pub sign_in : ℕ → UserInfo → Action F Text
  sign_in now userinfo = do
    user ← upsert_user (or_else userinfo.google_id []) (or_else userinfo.email []) userinfo.name
    pure (frontend_redirect jwt settings now user.id)

module _ {F : Type 0} (hmac : Hmac) (jwt : Jwt) (google : Google) (settings : Settings) where
  -- The middle: the state is checked before Google is asked.
  unfoldable pub exchange_code : Text → Text → ℕ → Bool → Action F Text
  unfolding sign_in
  exchange_code base_url code now valid = do
    raise_if (not valid) 403
    userinfo ← fetch_identity google settings base_url code
    sign_in jwt settings now userinfo

  unfoldable pub google_callback :
      Text → Option Text → Option Text → Option Text → ℕ → Action F Text
  unfolding exchange_code check_state
  google_callback base_url code error state now = do
    raise_if (is_given error || not (is_given code)) 401
    raise_if (not (is_given state)) 403
    valid ← or_crash (check_state hmac google settings (or_else state []) now)
    exchange_code base_url (or_else code []) (now / 1000) valid
