-- ===== src/Limits/Laws.antt =====
-- What the limits of backend/app/core/limits.py come to.
use coin_hq.Base.{ℕ, ◌<◌, true, ◌≡◌, ◌⊎◌, ◌↔◌, arith}
use coin_hq.Base.Text.{text, text_beq_iff}
use coin_hq.Store.{User}
use coin_hq.Limits.{check_profile_limit, check_exchange_limit}

-- A further profile is allowed exactly to the premium tier, or with no profile yet; the admin
-- tier counts as free.
pub check_profile_limit_iff :
    (user : User) (count : ℕ)
    → (check_profile_limit user count ≡ true) ↔ ((user.tier ≡ text "premium") ⊎ (count < 1))
unfolding check_profile_limit
check_profile_limit_iff user count =
    ground (arith, text_beq_iff user.tier (text "premium"), text_beq_iff user.tier (text "free"))

-- A further exchange is allowed exactly to the premium tier, or with fewer than two exchanges;
-- the admin tier counts as free.
pub check_exchange_limit_iff :
    (user : User) (count : ℕ)
    → (check_exchange_limit user count ≡ true) ↔ ((user.tier ≡ text "premium") ⊎ (count < 2))
unfolding check_exchange_limit
check_exchange_limit_iff user count =
    ground (arith, text_beq_iff user.tier (text "premium"), text_beq_iff user.tier (text "free"))
