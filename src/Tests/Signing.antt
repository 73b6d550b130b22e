-- ===== src/Tests/Signing.antt =====
-- Signing in at concrete inputs, with toy cryptography.
use coin_hq.Base.{
  ℕ, zero, suc, true, ◌≡◌, ◌↔◌, refl, inr, [], ◌∷◌, Option, none, some, arith, leb, if◌then◌else◌,
}
use coin_hq.Base.Text.{
  Text, text, text_eq, text_beq, split, split_fields, strip, strip_left, strip_right, is_space,
}
use coin_hq.Base.Int.{ℤ, pos}
use coin_hq.Store.{ok}
use coin_hq.Config.{Settings}
use coin_hq.Auth.State.{Hmac, make_stateless_state, verify_stateless_state}
use coin_hq.Auth.Signed.{
  IsHex, AreIssued, verify_stateless_state-make_stateless_state, verify_stateless_state_iff,
}
use coin_hq.Auth.Tokens.{
  Claims, Jwt, IsJwt, create_access_token, create_refresh_token, refresh_access_token,
}
use coin_hq.Auth.Sessions.{SignsIn, get_current_user-SignsIn, refresh_access_token-SignsIn}
use coin_hq.Auth.KeyRing.{
  get_multi_fernet, add_keys, Cipher, MultiFernet, build_key_list, past_keys, encrypt, decrypt,
  get_fernet,
}
use coin_hq.Auth.Rotation.{IsMultiFernet, decrypt-encrypt}
use coin_hq.Auth.Google.{Google, upsert_user}
use coin_hq.Auth.Upsert.{HasUniqueUsers, AreNumbered, upsert_user-HasUniqueUsers}
use coin_hq.Tests.Fixtures.{db}

abbrev pub settings : Settings
settings = record {
  database_url = text "postgres://h/d?sslmode=require";
  database_url_override = [];
  encryption_key = text "new";
  encryption_keys = text " old, new ,,";
  jwt_secret = text "s";
  jwt_access_expire_minutes = 1440;
  jwt_refresh_expire_minutes = 10080;
  google_client_id = text "id";
  frontend_url = text "http://f";
  backend_url = text "http://b/";
  cors_origins_list = [];
}

abbrev old_settings : Settings
old_settings = record settings { encryption_key = text "old"; encryption_keys = [] }

abbrev hmac : Hmac
hmac key message = text "0f"

-- Each character behind a mark, and an end.
abbrev put_text : Text → Text → Text
put_text [] s = 0 ∷ s
put_text (c ∷ t) s = 1 ∷ c ∷ put_text t s

get_text : Text → Option (Text × Text)
get_text (suc m ∷ c ∷ s) = elim (get_text s) [ none ↦ none | some (t, r) ↦ some (c ∷ t, r) ]
get_text (zero ∷ s) = some ([], s)
get_text _ = none

get_text-put_text : (t s : Text) → get_text (put_text t s) ≡ some (t, s)
unfolding get_text
get_text-put_text [] s = refl
get_text-put_text (c ∷ t) s = rw (get_text-put_text t s) refl

abbrev put_option : Option Text → Text → Text
put_option none s = 0 ∷ s
put_option (some t) s = 1 ∷ put_text t s

abbrev given : Option (Text × Text) → Option (Option Text × Text)
given none = none
given (some (t, r)) = some (some t, r)

get_option : Text → Option (Option Text × Text)
unfolding get_text
get_option (zero ∷ s) = some (none, s)
get_option (suc m ∷ s) = given (get_text s)
get_option [] = none

get_option-put_option : (o : Option Text) (s : Text) → get_option (put_option o s) ≡ some (o, s)
unfolding get_option
get_option-put_option none s = refl
get_option-put_option (some t) s = rw (get_text-put_text t s) refl

abbrev claims_with : ℕ → Option Text → Option (Option Text × Text) → Option Claims
claims_with exp sub none = none
claims_with exp sub (some (token_type, _)) =
    some record { sub = sub; exp = exp; token_type = token_type }

abbrev claims_from : ℕ → Option (Option Text × Text) → Option Claims
claims_from exp none = none
claims_from exp (some (sub, r)) = claims_with exp sub (get_option r)

abbrev unless_late : ℕ → Option Claims → Option Claims
unless_late now none = none
unless_late now (some c) = if leb now c.exp then some c else none

abbrev read_claims : Text → Option Claims
read_claims [] = none
read_claims (exp ∷ s) = claims_from exp (get_option s)

abbrev jwt : Jwt
jwt = record {
  encode = λ c. c.exp ∷ put_option c.sub (put_option c.token_type []);
  decode = λ now t. unless_late now (read_claims t);
}

read_claims-encode : (c : Claims) → read_claims (jwt.encode c) ≡ some c
read_claims-encode c =
    rw (get_option-put_option c.sub (put_option c.token_type []))
      (rw (get_option-put_option c.token_type []) refl)

jwt-IsJwt : IsJwt jwt
jwt-IsJwt = record {
  reads = λ now c h. rw (read_claims-encode c) (ground arith);
  expires = λ now c h. rw (read_claims-encode c) (ground arith);
}

hmac-IsHex : IsHex hmac
hmac-IsHex key message = (refl, refl)

abbrev same_text : Cipher
same_text = record { encrypt_text = λ t. t; decrypt_text = λ t. some t }

abbrev multi_fernet : MultiFernet
multi_fernet [] = none
multi_fernet (k ∷ ks) = some same_text

multi_fernet-IsMultiFernet : IsMultiFernet multi_fernet
multi_fernet-IsMultiFernet k ks [] f f' h h' there t = absurd cc
multi_fernet-IsMultiFernet k ks (k' ∷ ks') f f' h h' there t =
    let e : same_text ≡ f = cc in let e' : same_text ≡ f' = cc in rw (← e, ← e') refl

abbrev google : Google
google = record {
  redis_delete = λ key. some 1;
  post_token = λ code uri. some (200, some (text "t"));
  get_userinfo = λ token.
      some (200, record { google_id = some (text "g9"); email = some (text "c@x"); name = none });
}

upsert_user-HasUniqueUsers_example :
    let e = (upsert_user {F = ℤ} (text "g9") (text "c@x") none db).1 in
    HasUniqueUsers e.users × AreNumbered e
upsert_user-HasUniqueUsers_example =
    upsert_user-HasUniqueUsers (text "g9") (text "c@x") none db ((ground arith, tt), (tt, tt))
      (omega arith, (omega arith, tt))

verify_stateless_state-make_stateless_state_example :
    verify_stateless_state hmac
      (text "s")
      (make_stateless_state hmac (text "s") (text "n") 5999)
      605000
    ≡ some true
verify_stateless_state-make_stateless_state_example =
    verify_stateless_state-make_stateless_state hmac (text "s") (text "n") 5999 605000 hmac-IsHex
      refl

verify_stateless_state_iff_example :
    (verify_stateless_state hmac (text "s") (text "sl1.n.605.0f") 605001 ≡ some true)
    ↔ AreIssued hmac (text "s") (split b'.' (text "sl1.n.605.0f")) 605001
verify_stateless_state_iff_example =
    verify_stateless_state_iff hmac (text "s") (text "sl1.n.605.0f") 605001 hmac-IsHex

get_current_user-SignsIn_example :
    SignsIn {F = ℤ} jwt jwt-IsJwt 700 1 86500 (create_access_token jwt settings 100 (pos 1)) db
    × SignsIn {F = ℤ} jwt jwt-IsJwt 700 1 604900 (create_refresh_token jwt settings 100 (pos 1)) db
get_current_user-SignsIn_example = get_current_user-SignsIn jwt jwt-IsJwt settings 100 700 1 db

refresh_access_token-SignsIn_example :
    (token : Text) × (refresh_access_token {F = ℤ} jwt settings 700
        (create_refresh_token jwt settings 100 (pos 1))
        db
      ≡ (ok token, db))
    × SignsIn {F = ℤ} jwt jwt-IsJwt 800 1 87100 token db
refresh_access_token-SignsIn_example =
    refresh_access_token-SignsIn jwt jwt-IsJwt settings 100 700 800 1 db (omega arith)

decrypt-encrypt_example : (decrypt multi_fernet settings none (text "t")).0 ≡ some (text "t")
unfolding encrypt get_fernet get_multi_fernet build_key_list past_keys add_keys split split_fields
    strip strip_left strip_right is_space text_beq
decrypt-encrypt_example =
    decrypt-encrypt multi_fernet old_settings settings (text "t") (text "t") same_text
      multi_fernet-IsMultiFernet (inr refl) refl refl
