-- ===== src/Keys/Laws.antt =====
-- What adding an exchange key does, and the tier's limit on exchanges (backend/app/api/v1/keys.py).
use coin_hq.Base.{
  ℕ, suc, ◌≤◌, Bool, true, false, ◌||◌, ◌≡◌, ◌≢◌, ◌⊎◌, inl, inr, refl, List, [], ◌∷◌, ◌++◌, map,
  arith, keep, length, contains, if◌then◌else◌, none, some, ◌==◌, nat_eq, nat_beq_iff, Bool-cases,
  Option-cases, ap, find,
}
use coin_hq.Base.Text.{Text, text, text_eq, text_beq_iff, lower}
use coin_hq.Store.{User, Profile, ExchangeKey, Db, Reply, ok, http, crash}
use coin_hq.Store.Queries.{get_profile}
use coin_hq.Limits.Laws.{check_exchange_limit_iff}
use coin_hq.Exchanges.{get_adapter, supported_exchanges}
use coin_hq.Exchanges.Laws.{get_adapter_iff}
use coin_hq.Exchanges.Laws.{get_adapter_iff}
use coin_hq.Keys.{
  unreachable, KeyRequest, Vault, valid, invalid, unsupported, refused, broken, distinct,
  exchanges_of, over_limit, validate, new_key, key_type_of, add_key, same_slot,
}

contains-append :
    (xs : List Text) (x y : Text) → contains (xs ++ x ∷ []) y ≡ (contains xs y || y == x)
contains-append [] x y = ground arith
contains-append (z ∷ xs) x y = ground (arith, contains-append xs x y)

-- One more exchange makes one more distinct exchange, if it is new.
distinct-append :
    (xs : List Text) (x : Text)
    → length (distinct (xs ++ x ∷ []))
      ≡ (if contains xs x then length (distinct xs) else suc (length (distinct xs)))
unfolding distinct
distinct-append [] x = refl
distinct-append (y ∷ xs) x = elim (Bool-cases (y == x)) [
  | inl same ↦
      ground
        (arith, distinct-append xs x, contains-append xs x y, text_beq_iff x y, text_beq_iff y x)
  | inr other ↦
      ground
        (arith, distinct-append xs x, contains-append xs x y, text_beq_iff x y, text_beq_iff y x)
]

module _ {F : Type 0} where
  exchanges_of-append :
      (profile_id : ℕ) (key : ExchangeKey) (d : Db F)
      → exchanges_of profile_id (record d { exchange_keys = d.exchange_keys ++ key ∷ [] }) ≡ (
          if key.profile_id == profile_id
          then exchanges_of profile_id d ++ key.exchange ∷ []
          else exchanges_of profile_id d)
  exchanges_of-append profile_id key d = grown d.exchange_keys
    where
      grown :
          (ks : List ExchangeKey)
          → map (λ k. k.exchange) (keep (λ k. k.profile_id == profile_id) (ks ++ key ∷ [])) ≡ (
              if key.profile_id == profile_id
              then map (λ k. k.exchange) (keep (λ k. k.profile_id == profile_id) ks)
                ++ key.exchange ∷ []
              else map (λ k. k.exchange) (keep (λ k. k.profile_id == profile_id) ks))
      grown [] = ground arith
      grown (k ∷ ks) = ground (arith, grown ks)

  exchanges_of_congr :
      (profile_id : ℕ) (d e : Db F)
      → e.exchange_keys ≡ d.exchange_keys
      → exchanges_of profile_id e ≡ exchanges_of profile_id d
  exchanges_of_congr profile_id d e same =
      ap (λ ks. map (λ k. k.exchange) (keep (λ k. k.profile_id == profile_id) ks)) same

  -- Why a call is answered with an error code.
  abbrev pub Refuses : Bool → Vault → ℕ → KeyRequest → User → Db F → ℕ → Type 0
  Refuses demo_mode vault profile_id r user d code =
      ((code ≡ 404) × (get_profile profile_id d ≡ none))
      ⊎ ((code ≡ 403)
          × ((p : Profile) × (get_profile profile_id d ≡ some p) × (p.user_id ≢ user.id)))
      ⊎ ((code ≡ 403) × (over_limit user profile_id (lower r.exchange) d ≡ true))
      ⊎ ((code ≡ 400) × (contains (supported_exchanges demo_mode) (lower r.exchange) ≡ false))
      ⊎ ((code ≡ 400)
          × ((validate vault r ≡ invalid)
              ⊎ (validate vault r ≡ unsupported)
              ⊎ (validate vault r ≡ refused)))
      ⊎ ((code ≡ 502) × (validate vault r ≡ unreachable))

  -- A key that is stored: the profile is the user's, the exchange is supported and has an adapter,
  -- the exchange's own check of the key succeeded, the tier leaves room, and it is the only change
  -- to the keys. A refused call has one of the reasons of `Refuses` and changes nothing; one that
  -- crashes ends in another exception of the check or of the encryption, or meets a key in the same
  -- place, and leaves the keys alone.
  abbrev pub Adds : Bool → Vault → ℕ → KeyRequest → User → Db F → Reply ExchangeKey × Db F → Type 0
  Adds demo_mode vault profile_id r user d (ok key, e) =
      ((p : Profile) × (get_profile profile_id d ≡ some p) × (p.user_id ≡ user.id))
      × (contains (supported_exchanges demo_mode) (lower r.exchange) ≡ true)
      × (get_adapter demo_mode r.exchange ≢ none)
      × (validate vault r ≡ valid)
      × (over_limit user profile_id (lower r.exchange) d ≡ false)
      × (key.id ≡ d.next_id)
      × (key.profile_id ≡ profile_id)
      × (key.exchange ≡ lower r.exchange)
      × (key.key_type ≡ key_type_of r.key_type)
      × (vault.encrypt r.api_key ≡ some key.encrypted_key)
      × (vault.encrypt r.api_secret ≡ some key.encrypted_secret)
      × (find (same_slot key) d.exchange_keys ≡ none)
      × (e.exchange_keys ≡ d.exchange_keys ++ key ∷ [])
  Adds demo_mode vault profile_id r user d (http code, e) =
      Refuses demo_mode vault profile_id r user d code × (e ≡ d)
  Adds demo_mode vault profile_id r user d (crash, e) =
      ((validate vault r ≡ broken)
        ⊎ ((validate vault r ≡ valid)
            × ((vault.encrypt r.api_key ≡ none) ⊎ (vault.encrypt r.api_secret ≡ none)))
        ⊎ ((validate vault r ≡ valid)
            × (find (same_slot (new_key profile_id r [] [] 0)) d.exchange_keys ≢ none)))
      × (e.exchange_keys ≡ d.exchange_keys)

  Adds-within :
      (demo_mode : Bool) (vault : Vault) (profile_id : ℕ) (r : KeyRequest) (user : User) (d : Db F)
      (out : Reply ExchangeKey × Db F)
      → user.tier ≢ text "premium"
      → length (distinct (exchanges_of profile_id d)) ≤ 2
      → Adds demo_mode vault profile_id r user d out
      → length (distinct (exchanges_of profile_id out.1)) ≤ 2
  unfolding over_limit
  Adds-within demo_mode vault profile_id r user d (ok key, e) plan le
        (_, _, _, _, room, _, mine, at, _, _, _, _, same) =
      let all = exchanges_of profile_id d in
      rw
        (
          exchanges_of_congr profile_id (record d { exchange_keys = d.exchange_keys ++ key ∷ [] }) e
              same,
          exchanges_of-append profile_id key d,
          mine,
          at,
        )
        (ground (
          arith,
          distinct-append all (lower r.exchange),
          check_exchange_limit_iff user (length (distinct all)),
        ))
  Adds-within demo_mode vault profile_id r user d (http code, e) plan le (_, same) = rw same le
  Adds-within demo_mode vault profile_id r user d (crash, e) plan le (_, same) =
      rw (exchanges_of_congr profile_id d e same) le

  pub add_key-Adds :
      (demo_mode : Bool) (vault : Vault) (profile_id : ℕ) (r : KeyRequest) (user : User) (d : Db F)
      → Adds demo_mode vault profile_id r user d (add_key demo_mode vault profile_id r user d)
  unfolding add_key
  add_key-Adds demo_mode vault profile_id r user d =
      elim (Option-cases (get_profile profile_id d)) [
        | inl missing ↦ ground arith
        | inr (p, found) ↦
            ground (arith, nat_beq_iff p.user_id user.id, get_adapter_iff demo_mode r.exchange)
      ]

  -- The limit of the tier: for a user outside the premium tier, a profile with keys for at most
  -- two exchanges keeps at most two, whatever call of `add_key` is made for it.
  pub add_key_within_tier :
      (demo_mode : Bool) (vault : Vault) (profile_id : ℕ) (r : KeyRequest) (user : User) (d : Db F)
      → user.tier ≢ text "premium"
      → length (distinct (exchanges_of profile_id d)) ≤ 2
      → length (distinct (exchanges_of profile_id (add_key demo_mode vault profile_id r user d).1))
        ≤ 2
  add_key_within_tier demo_mode vault profile_id r user d plan le =
      Adds-within demo_mode vault profile_id r user d (add_key demo_mode vault profile_id r user d)
        plan le (add_key-Adds demo_mode vault profile_id r user d)
