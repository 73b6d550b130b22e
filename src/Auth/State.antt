-- ===== src/Auth/State.antt =====
-- The signed OAuth state of backend/app/api/v1/auth.py, for a login that Redis cannot help. Clock
-- readings are in milliseconds here, since `time.time()` is compared with a whole second.
use coin_hq.Base.{
  ℕ, ◌+◌, ◌*◌, ◌/◌, Bool, true, false, List, [], ◌∷◌, ◌++◌, Option, none, some, ◌&&◌, not,
  if◌then◌else◌, ltb, ◌==◌,
}
use coin_hq.Base.Text.{Text, text, text_eq, split}
use coin_hq.Base.Int.{ℤ, pos, negsuc}
use coin_hq.Base.Decimal.{show_int, int_of_text}

abbrev pub state_ttl_seconds : ℕ
state_ttl_seconds = 600

abbrev pub stateless_prefix : Text
stateless_prefix = text "sl1"

-- The first 32 hex digits of the HMAC of a message under a secret.
abbrev pub Hmac : Type 0
Hmac = Text → Text → Text

-- All characters are ASCII.
abbrev pub is_ascii : Text → Bool
is_ascii [] = true
is_ascii (c ∷ s) = ltb c 128 && is_ascii s

-- `hmac.compare_digest` on two texts; `none` is its `TypeError` on a text that is not ASCII.
abbrev pub compare_digest : Text → Text → Option Bool
compare_digest a b = if is_ascii a && is_ascii b then some (a == b) else none

-- `now > expires`
abbrev pub is_past : ℤ → ℕ → Bool
is_past (pos n) now = ltb (n * 1000) now
is_past (negsuc n) now = true

module _ (hmac : Hmac) (secret : Text) where
  unfoldable pub sign_state : Text → ℤ → Text
  sign_state nonce expires = hmac secret (nonce ++ text "." ++ show_int expires)

  unfoldable pub make_stateless_state : Text → ℕ → Text
  make_stateless_state nonce now =
      let expires = now / 1000 + state_ttl_seconds in
      stateless_prefix
      ++ b'.' ∷ (nonce ++ b'.' ∷ (show_int (pos expires) ++ b'.' ∷ sign_state nonce (pos expires)))

  unfoldable pub check_signature : Text → Text → Option ℤ → ℕ → Option Bool
  check_signature nonce sig none now = some false
  check_signature nonce sig (some expires) now =
      if is_past expires now then some false else compare_digest sig (sign_state nonce expires)

  unfoldable pub check_fields : List Text → ℕ → Option Bool
  unfolding check_signature
  check_fields (prefix ∷ nonce ∷ expires_s ∷ sig ∷ []) now =
      if not (prefix == stateless_prefix)
      then some false
      else check_signature nonce sig (int_of_text expires_s) now
  check_fields _ now = some false

  -- `none` is a `TypeError`.
  unfoldable pub verify_stateless_state : Text → ℕ → Option Bool
  unfolding check_fields
  verify_stateless_state state now = check_fields (split b'.' state) now
