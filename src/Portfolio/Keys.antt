-- ===== src/Portfolio/Keys.antt =====
-- One key is used for each exchange (backend/app/services/portfolio_service.py, and `_dedupe_keys` of
-- backend/app/services/cost_basis_service.py).
use coin_hq.Base.{
  Bool, not, ◌&&◌, ◌≡◌, refl, inl, inr, List, [], ◌∷◌, Option, none, some, if◌then◌else◌, or_else,
  arith, find, keep, ◌==◌, Option-cases,
}
use coin_hq.Base.Text.{Text, text, text_eq, text_beq_iff}
use coin_hq.Base.Dict.{Dict, lookup, lookup-insert, HasUniqueKeys, insert-HasUniqueKeys}
use coin_hq.Store.{ExchangeKey}
use coin_hq.Portfolio.{prefer_key, dedupe_from, dedupe_keys}

abbrev pub is_read_only : ExchangeKey → Bool
is_read_only k = k.key_type == text "read_only"

-- The keys of one exchange.
abbrev pub keys_for : Text → List ExchangeKey → List ExchangeKey
keys_for e = keep (λ k. k.exchange == e)

-- The first read-only key, or else the first key.
abbrev pub best : List ExchangeKey → Option ExchangeKey
best [] = none
best (k ∷ ks) = some (or_else (find is_read_only (k ∷ ks)) k)

-- A key in hand, against the keys to come.
abbrev better : ExchangeKey → List ExchangeKey → ExchangeKey
better k ks = if is_read_only k then k else or_else (find is_read_only ks) k

-- What one step of the loop leaves under an exchange.
abbrev improve : Option ExchangeKey → ExchangeKey → ExchangeKey
improve none k = k
improve (some x) k = if not (is_read_only x) && is_read_only k then k else x

prefer_key-lookup :
    (e : Text) (k : ExchangeKey) (chosen : Dict Text ExchangeKey)
    → lookup e (prefer_key k chosen)
      ≡ (if k.exchange == e then some (improve (lookup e chosen) k) else lookup e chosen)
unfolding prefer_key
prefer_key-lookup e k chosen = elim (Option-cases (lookup k.exchange chosen)) [
  | inl fresh ↦ ground (
    arith,
    lookup-insert e k.exchange k chosen,
    text_beq_iff e k.exchange,
    text_beq_iff k.exchange e,
  )
  | inr (x, found) ↦ ground (
    arith,
    lookup-insert e k.exchange k chosen,
    text_beq_iff e k.exchange,
    text_beq_iff k.exchange e,
  )
]

dedupe_from-lookup-some :
    (e : Text) (chosen : Dict Text ExchangeKey) (x : ExchangeKey) (ks : List ExchangeKey)
    → lookup e chosen ≡ some x
    → lookup e (dedupe_from chosen ks) ≡ some (better x (keys_for e ks))
unfolding dedupe_from
dedupe_from-lookup-some e chosen x [] h = ground arith
dedupe_from-lookup-some e chosen x (k ∷ ks) h = ground (
  arith,
  prefer_key-lookup e k chosen,
  dedupe_from-lookup-some e (prefer_key k chosen) x ks,
  dedupe_from-lookup-some e (prefer_key k chosen) k ks,
)

dedupe_from-lookup-none :
    (e : Text) (chosen : Dict Text ExchangeKey) (ks : List ExchangeKey)
    → lookup e chosen ≡ none
    → lookup e (dedupe_from chosen ks) ≡ best (keys_for e ks)
unfolding dedupe_from
dedupe_from-lookup-none e chosen [] h = h
dedupe_from-lookup-none e chosen (k ∷ ks) h = ground (
  arith,
  prefer_key-lookup e k chosen,
  dedupe_from-lookup-some e (prefer_key k chosen) k ks,
  dedupe_from-lookup-none e (prefer_key k chosen) ks,
)

prefer_key-HasUniqueKeys :
    (k : ExchangeKey) (chosen : Dict Text ExchangeKey)
    → HasUniqueKeys chosen
    → HasUniqueKeys (prefer_key k chosen)
unfolding prefer_key
prefer_key-HasUniqueKeys k chosen h = ground (arith, insert-HasUniqueKeys k.exchange k chosen h)

dedupe_from-HasUniqueKeys :
    (chosen : Dict Text ExchangeKey) (ks : List ExchangeKey)
    → HasUniqueKeys chosen
    → HasUniqueKeys (dedupe_from chosen ks)
unfolding dedupe_from
dedupe_from-HasUniqueKeys chosen [] h = h
dedupe_from-HasUniqueKeys chosen (k ∷ ks) h =
    dedupe_from-HasUniqueKeys (prefer_key k chosen) ks (prefer_key-HasUniqueKeys k chosen h)

-- Each exchange is fetched with one key, its first read-only one, or its first one if none is
-- read-only; an exchange without a key is not fetched; and no exchange is fetched twice.
pub dedupe_keys-best :
    (ks : List ExchangeKey)
    → ((e : Text) → lookup e (dedupe_keys ks) ≡ best (keys_for e ks))
      × HasUniqueKeys (dedupe_keys ks)
dedupe_keys-best ks = (
  λ e. unfold dedupe_keys lookup in dedupe_from-lookup-none e [] ks refl,
  unfold dedupe_keys in dedupe_from-HasUniqueKeys [] ks tt,
)
