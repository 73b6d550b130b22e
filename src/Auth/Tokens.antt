-- ===== src/Auth/Tokens.antt =====
-- The session tokens of backend/app/core/security.py, for the configured secret and algorithm.
use coin_hq.Base.{ℕ, ◌+◌, ◌*◌, Bool, false, Option, none, some, not, ◌==◌, ◌≡◌, ◌<◌, ◌≤◌, nat_eq}
use coin_hq.Base.Text.{Text, text, text_eq}
use coin_hq.Base.Int.{ℤ, pos, negsuc}
use coin_hq.Base.Decimal.{show_int, int_of_text}
use coin_hq.Store.{User, Db, Action, pure, raise_if, or_raise, ◌>>=◌, ◌>>◌, gets, or_crash}
use coin_hq.Store.Queries.{get_user}
use coin_hq.Config.{Settings}

-- The payload of a token; a claim that is not a text is read as absent.
pub record Claims : Type 0 where
  pub sub : Option Text
  pub exp : ℕ
  pub token_type : Option Text

-- The JWT library: a token is decoded at a time, and `none` is a `JWTError`.
pub record Jwt : Type 0 where
  pub encode : Claims → Text
  pub decode : ℕ → Text → Option Claims

-- What the library documents: it reads what it wrote, until the expiry has passed.
pub record IsJwt (j : Jwt) : Type 0 where
  pub reads : (now : ℕ) (c : Claims) → now ≤ c.exp → j.decode now (j.encode c) ≡ some c
  pub expires : (now : ℕ) (c : Claims) → c.exp < now → j.decode now (j.encode c) ≡ none

module _ (jwt : Jwt) (settings : Settings) where
  unfoldable pub create_access_token : ℕ → ℤ → Text
  create_access_token now user_id = jwt.encode record {
    sub = some (show_int user_id);
    exp = now + settings.jwt_access_expire_minutes * 60;
    token_type = some (text "access");
  }

  unfoldable pub create_refresh_token : ℕ → ℤ → Text
  create_refresh_token now user_id = jwt.encode record {
    sub = some (show_int user_id);
    exp = now + settings.jwt_refresh_expire_minutes * 60;
    token_type = some (text "refresh");
  }

-- `x == t`, where `x` may be absent
abbrev pub is_text : Option Text → Text → Bool
is_text none t = false
is_text (some s) t = s == t

-- `int(user_id)`
abbrev pub int_or_crash : {F : Type 0} → Text → Action F ℤ
int_or_crash s = or_crash (int_of_text s)

-- `db.get(User, i)`; no row has a negative id
abbrev pub user_at : {F : Type 0} → ℤ → Db F → Option User
user_at (pos n) d = get_user n d
user_at (negsuc n) d = none

module _ {F : Type 0} (jwt : Jwt) where
  unfoldable pub decode_refresh_token : ℕ → Text → Action F ℤ
  decode_refresh_token now token = do
    payload ← or_raise (jwt.decode now token) 401
    raise_if (not (is_text payload.token_type (text "refresh"))) 401
    user_id ← or_raise payload.sub 401
    int_or_crash user_id

  unfoldable pub get_current_user : ℕ → Text → Action F User
  get_current_user now credentials = do
    payload ← or_raise (jwt.decode now credentials) 401
    user_id ← or_raise payload.sub 401
    i ← int_or_crash user_id
    or_raise (← gets (user_at i)) 401

  unfoldable pub refresh_access_token : Settings → ℕ → Text → Action F Text
  refresh_access_token settings now token = do
    user_id ← decode_refresh_token now token
    pure (create_access_token jwt settings now user_id)
