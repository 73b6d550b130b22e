-- ===== src/Limits.antt =====
-- Tier limits: backend/app/core/limits.py.
pub mod Laws
use coin_hq.Base.{ℕ, Bool, true, ltb, Option, none, some, ◌∷◌, [], if◌then◌else◌}
use coin_hq.Base.Text.{Text, text, text_eq}
use coin_hq.Base.Dict.{Dict, lookup, get_or}
use coin_hq.Store.{User}

-- A limit of -1 is no limit.
pub data Limit : Type 0 where
  unlimited : Limit
  at_most : ℕ → Limit

pub record TierLimits : Type 0 where
  pub max_profiles : Limit
  pub max_exchanges_per_profile : Limit

abbrev pub free_limits : TierLimits
free_limits = record { max_profiles = at_most 1; max_exchanges_per_profile = at_most 2 }

-- TIER_LIMITS
abbrev pub tier_limits : Dict Text TierLimits
tier_limits =
    (text "free", free_limits)
    ∷ (text "premium", record { max_profiles = unlimited; max_exchanges_per_profile = unlimited })
    ∷ []

abbrev pub allows : Limit → ℕ → Bool
allows unlimited count = true
allows (at_most limit) count = ltb count limit

unfoldable pub check_profile_limit : User → ℕ → Bool
unfolding lookup
check_profile_limit user count =
    allows (get_or user.tier free_limits tier_limits).max_profiles count

unfoldable pub check_exchange_limit : User → ℕ → Bool
unfolding lookup
check_exchange_limit user count =
    allows (get_or user.tier free_limits tier_limits).max_exchanges_per_profile count
