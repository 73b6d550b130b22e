-- ===== src/Keys.antt =====
-- The exchange key endpoints: backend/app/api/v1/keys.py. Encryption, the exchanges' validation of a
-- key and the demo flag are arguments.
pub mod Laws
use coin_hq.Base.{
  ℕ, Bool, true, false, not, ◌&&◌, ◌||◌, List, [], ◌∷◌, ◌++◌, map, Option, none, some,
  if◌then◌else◌, length, keep, find, contains, is_some, ◌==◌, nat_eq,
}
use coin_hq.Base.Text.{Text, text, text_eq, lower}
use coin_hq.Store.{
  User, Profile, ExchangeKey, Db, Action, ◌>>=◌, ◌>>◌, raise, raise_if, crash_if, gets, or_crash,
  or_raise, modify, fresh_id, pure,
}
use coin_hq.Store.Queries.{get_profile, get_key}
use coin_hq.Limits.{check_exchange_limit}
use coin_hq.Exchanges.{get_adapter, supported_exchanges}
use coin_hq.Profiles.{owned_profile}

-- How `validate_key` and `validate_trade_key` end: `True`, `False`, `NotImplementedError`,
-- `ValueError`, an `httpx.HTTPError`, or another exception.
pub data Validation : Type 0 where
  valid invalid unsupported refused unreachable broken : Validation

pub record KeyRequest : Type 0 where
  pub exchange : Text
  pub api_key : Text
  pub api_secret : Text
  pub key_type : Text

-- `none` is an exception of `encrypt`.
pub record Vault : Type 0 where
  pub encrypt : Text → Option Text
  pub validate_key : Text → Text → Text → Validation
  pub validate_trade_key : Text → Text → Text → Validation

-- A set of exchanges, each once.
unfoldable pub distinct : List Text → List Text
distinct [] = []
distinct (x ∷ xs) = let rest = distinct xs in if contains xs x then rest else x ∷ rest

-- `key_type if key_type in ("read_only", "trade") else "read_only"`
abbrev pub key_type_of : Text → Text
key_type_of t = if t == text "read_only" || t == text "trade" then t else text "read_only"

abbrev pub same_slot : ExchangeKey → ExchangeKey → Bool
same_slot k j = k.profile_id == j.profile_id && k.exchange == j.exchange && k.key_type == j.key_type

unfoldable pub validate : Vault → KeyRequest → Validation
validate vault r =
    if key_type_of r.key_type == text "trade"
    then vault.validate_trade_key (lower r.exchange) r.api_key r.api_secret
    else vault.validate_key (lower r.exchange) r.api_key r.api_secret

abbrev pub new_key : ℕ → KeyRequest → Text → Text → ℕ → ExchangeKey
new_key profile_id r encrypted_key encrypted_secret i = record {
  id = i;
  profile_id = profile_id;
  exchange = lower r.exchange;
  key_type = key_type_of r.key_type;
  encrypted_key = encrypted_key;
  encrypted_secret = encrypted_secret;
}

module _ {F : Type 0} where
  abbrev pub profile_keys : ℕ → Db F → List ExchangeKey
  profile_keys profile_id d = keep (λ k. k.profile_id == profile_id) d.exchange_keys

  -- `{k.exchange for k in existing_keys}`, with repetitions
  abbrev pub exchanges_of : ℕ → Db F → List Text
  exchanges_of profile_id d = map (λ k. k.exchange) (profile_keys profile_id d)

  -- The exceptions of the validation, in the order of the handlers.
  abbrev pub check_validation : Validation → Action F (Unit {0})
  check_validation valid = pure tt
  check_validation invalid = raise 400
  check_validation unsupported = raise 400
  check_validation refused = raise 400
  check_validation unreachable = raise 502
  check_validation broken = crash_if true

  -- The insertion, under the constraint `uq_exchange_keys_profile_exchange_type`.
  unfoldable pub insert_key : ExchangeKey → Action F ExchangeKey
  insert_key key = do
    crash_if (← gets (λ d. is_some (find (same_slot key) d.exchange_keys)))
    modify (λ d. record d { exchange_keys = d.exchange_keys ++ key ∷ [] })
    pure key

  -- A new exchange is subject to the tier's limit.
  unfoldable pub over_limit : User → ℕ → Text → Db F → Bool
  over_limit user profile_id exchange d =
      not (contains (exchanges_of profile_id d) exchange)
      && not (check_exchange_limit user (length (distinct (exchanges_of profile_id d))))

  unfoldable pub list_keys : ℕ → User → Action F (List ExchangeKey)
  unfolding owned_profile
  list_keys profile_id user = do owned_profile profile_id user; gets (profile_keys profile_id)

  unfoldable pub add_key : Bool → Vault → ℕ → KeyRequest → User → Action F ExchangeKey
  unfolding owned_profile insert_key
  add_key demo_mode vault profile_id r user = do
    owned_profile profile_id user
    raise_if (← gets (over_limit user profile_id (lower r.exchange))) 403
    raise_if (not (contains (supported_exchanges demo_mode) (lower r.exchange))) 400
    crash_if (not (is_some (get_adapter demo_mode r.exchange)))
    check_validation (validate vault r)
    encrypted_key ← or_crash (vault.encrypt r.api_key)
    encrypted_secret ← or_crash (vault.encrypt r.api_secret)
    i ← fresh_id
    insert_key (new_key profile_id r encrypted_key encrypted_secret i)

  unfoldable pub delete_key : ℕ → ℕ → User → Action F (Unit {0})
  unfolding owned_profile
  delete_key profile_id key_id user = do
    owned_profile profile_id user
    k ← or_raise (← gets (get_key key_id)) 404
    raise_if (not (k.profile_id == profile_id)) 404
    modify (λ d. record d { exchange_keys = keep (λ j. not (j.id == k.id)) d.exchange_keys })
