-- ===== src/Auth/Sessions.antt =====
-- What a session token is good for, and until when (backend/app/core/security.py).
use coin_hq.Base.{
  ℕ, ◌+◌, ◌*◌, ◌≤◌, Option, none, some, ◌≡◌, refl, arith, leb, if◌then◌else◌, Bool-cases, true,
  false, inl, inr,
}
use coin_hq.Base.Text.{Text, text, text_eq, text_beq}
use coin_hq.Base.Int.{pos}
use coin_hq.Base.Decimal.{show_nat, int_of_text-show_nat}
use coin_hq.Store.{User, Db, Reply, pure, bind_ok, ok, http}
use coin_hq.Store.Queries.{get_user}
use coin_hq.Config.{Settings}
use coin_hq.Auth.Tokens.{
  Claims, Jwt, IsJwt, create_access_token, create_refresh_token, decode_refresh_token,
  get_current_user, refresh_access_token,
}

-- What a user that is looked up for a token gives.
abbrev pub signed_in : Option User → Reply User
signed_in none = http 401
signed_in (some user) = ok user

decode-encode :
    (jwt : Jwt)
    → IsJwt jwt
    → (now : ℕ) (c : Claims) → leb now c.exp ≡ true
    → jwt.decode now (jwt.encode c) ≡ some c
decode-encode jwt j now c h = j.reads now c (ground arith)

decode-encode_late :
    (jwt : Jwt)
    → IsJwt jwt
    → (now : ℕ) (c : Claims) → leb now c.exp ≡ false
    → jwt.decode now (jwt.encode c) ≡ none
decode-encode_late jwt j now c h = j.expires now c (ground arith)

-- The payload of a token of a kind.
payload : Text → ℕ → ℕ → Claims
payload kind n exp = record { sub = some (show_nat n); exp = exp; token_type = some kind }

module _ {F : Type 0} (jwt : Jwt) (j : IsJwt jwt) where
  decode_refresh_token-encode :
      (now n exp : ℕ) (d : Db F)
      → decode_refresh_token jwt now (jwt.encode (payload (text "refresh") n exp)) d
        ≡ (if leb now exp then ok (pos n) else http 401, d)
  unfolding decode_refresh_token payload text_beq
  decode_refresh_token-encode now n exp d = elim (Bool-cases (leb now exp)) [
    | inl soon ↦
        rw (decode-encode jwt j now (payload (text "refresh") n exp) soon)
          (ground (arith, int_of_text-show_nat n))
    | inr late ↦
        rw (decode-encode_late jwt j now (payload (text "refresh") n exp) late) (rw late refl)
  ]

  decode_refresh_token-encode_access :
      (now n exp : ℕ) (d : Db F)
      → decode_refresh_token jwt now (jwt.encode (payload (text "access") n exp)) d ≡ (http 401, d)
  unfolding decode_refresh_token payload text_beq
  decode_refresh_token-encode_access now n exp d = elim (Bool-cases (leb now exp)) [
    | inl soon ↦ rw (decode-encode jwt j now (payload (text "access") n exp) soon) refl
    | inr late ↦ rw (decode-encode_late jwt j now (payload (text "access") n exp) late) refl
  ]

  get_current_user-encode :
      (kind : Text) (now n exp : ℕ) (d : Db F)
      → get_current_user jwt now (jwt.encode (payload kind n exp)) d
        ≡ (if leb now exp then signed_in (get_user n d) else http 401, d)
  unfolding get_current_user payload text_beq
  get_current_user-encode kind now n exp d = elim (Bool-cases (leb now exp)) [
    | inl soon ↦
        rw (decode-encode jwt j now (payload kind n exp) soon)
          (ground (arith, int_of_text-show_nat n))
    | inr late ↦ rw (decode-encode_late jwt j now (payload kind n exp) late) (rw late refl)
  ]

  -- A refresh token gives back the id that it was made for until its lifetime is over, and 401
  -- after it; an access token is never taken for one. The library of the tokens reads what it
  -- wrote until the expiry has passed.
  decode_refresh_token-create_refresh_token :
      (settings : Settings) (made now n : ℕ) (d : Db F)
      → (decode_refresh_token jwt now (create_refresh_token jwt settings made (pos n)) d ≡ (
        if leb now (made + settings.jwt_refresh_expire_minutes * 60) then ok (pos n) else http 401,
        d,
      ))
        × (decode_refresh_token jwt now (create_access_token jwt settings made (pos n)) d
            ≡ (http 401, d))
  unfolding create_refresh_token create_access_token payload
  decode_refresh_token-create_refresh_token settings made now n d = (
    decode_refresh_token-encode now n (made + settings.jwt_refresh_expire_minutes * 60) d,
    decode_refresh_token-encode_access now n (made + settings.jwt_access_expire_minutes * 60) d,
  )

  -- What `get_current_user` answers to a token of a user that expires at `exp`.
  abbrev pub SignsIn : ℕ → ℕ → ℕ → Text → Db F → Type 0
  SignsIn now n exp token d =
      get_current_user jwt now token d
      ≡ (if leb now exp then signed_in (get_user n d) else http 401, d)

  -- An access token signs its user in exactly until its lifetime is over, and with 401 where
  -- the user is gone; and a refresh token does the same for its own, longer lifetime, as its
  -- type is not looked at. The library of the tokens reads what it wrote until the expiry has
  -- passed.
  pub get_current_user-SignsIn :
      (settings : Settings) (made now n : ℕ) (d : Db F)
      → SignsIn now n
          (made + settings.jwt_access_expire_minutes * 60)
          (create_access_token jwt settings made (pos n))
          d
        × SignsIn now n
            (made + settings.jwt_refresh_expire_minutes * 60)
            (create_refresh_token jwt settings made (pos n))
            d
  unfolding create_refresh_token create_access_token payload
  get_current_user-SignsIn settings made now n d = (
    get_current_user-encode (text "access") now n (made + settings.jwt_access_expire_minutes * 60)
        d,
    get_current_user-encode (text "refresh") now n (made + settings.jwt_refresh_expire_minutes * 60)
        d,
  )

  -- A refresh token that has not expired is exchanged for a token, and that one signs the user
  -- in until the lifetime of an access token is over, counted from the exchange. The library of
  -- the tokens reads what it wrote until the expiry has passed.
  pub refresh_access_token-SignsIn :
      (settings : Settings) (made now later n : ℕ) (d : Db F)
      → now ≤ made + settings.jwt_refresh_expire_minutes * 60
      → (token : Text) × (refresh_access_token jwt settings now
            (create_refresh_token jwt settings made (pos n))
            d
          ≡ (ok token, d))
        × SignsIn later n (now + settings.jwt_access_expire_minutes * 60) token d
  unfolding refresh_access_token
  refresh_access_token-SignsIn settings made now later n d soon =
      let fresh : leb now (made + settings.jwt_refresh_expire_minutes * 60) ≡ true = ground arith in
      let (read, _) = decode_refresh_token-create_refresh_token settings made now n d in
      (
        create_access_token jwt settings now (pos n),
        bind_ok (decode_refresh_token jwt now (create_refresh_token jwt settings made (pos n)))
            (λ i. pure (create_access_token jwt settings now i)) d (rw fresh at read),
        (get_current_user-SignsIn settings now later n d).0,
      )
