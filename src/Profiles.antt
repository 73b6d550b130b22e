-- ===== src/Profiles.antt =====
-- The profile endpoints: backend/app/api/v1/profiles.py. The body of a request has passed its schema.
pub mod Laws
pub mod Deletion
use coin_hq.Base.{
  ℕ, Bool, true, false, not, ◌&&◌, ◌||◌, List, [], ◌∷◌, ◌++◌, Option, none, some, if◌then◌else◌,
  length, keep, find, is_some, change, ◌==◌, nat_eq,
}
use coin_hq.Base.Text.{Text, text_eq}
use coin_hq.Store.{
  User, Profile, ExchangeKey, ShareLink, TradeOrder, Db, Action, ◌>>=◌, ◌>>◌, raise_if, gets,
  or_raise, modify, fresh_id, pure,
}
use coin_hq.Store.Queries.{get_profile}
use coin_hq.Limits.{check_profile_limit}

-- `select(func.count(Profile.id)).where(Profile.user_id == user.id)`
unfoldable pub profile_count : ℕ → List Profile → ℕ
profile_count user_id ps = length (keep (λ p. p.user_id == user_id) ps)

abbrev pub is_named : ℕ → Text → Profile → Bool
is_named user_id name p = p.user_id == user_id && p.name == name

module _ {F : Type 0} where
  unfoldable pub list_profiles : User → Db F → List Profile
  list_profiles user d = keep (λ p. p.user_id == user.id) d.profiles

  unfoldable pub create_profile : User → Text → Action F Profile
  create_profile user name = do
    raise_if (not (check_profile_limit user (← gets (λ d. profile_count user.id d.profiles)))) 403
    raise_if (← gets (λ d. is_some (find (is_named user.id name) d.profiles))) 400
    i ← fresh_id
    let p : Profile = record { id = i; user_id = user.id; name = name }
    modify (λ d. record d { profiles = d.profiles ++ p ∷ [] })
    pure p

  -- `get_profile`, whose checks the endpoints of keys, history and portfolio repeat: 404 for a
  -- profile that is not there, 403 for another user's.
  unfoldable pub owned_profile : ℕ → User → Action F Profile
  owned_profile profile_id user = do
    p ← or_raise (← gets (get_profile profile_id)) 404
    raise_if (not (p.user_id == user.id)) 403
    pure p

  -- A row of `trade_orders` whose share link is gone (ON DELETE SET NULL).
  abbrev pub has_link_of : ℕ → List (ShareLink F) → Option ℕ → Bool
  has_link_of profile_id links none = false
  has_link_of profile_id links (some i) =
      is_some (find (λ l. l.id == i && l.profile_id == profile_id) links)

  -- The profile's row, and what the foreign keys delete with it.
  unfoldable pub drop_profile : ℕ → Db F → Db F
  drop_profile i d = record d {
    profiles = keep (λ p. not (p.id == i)) d.profiles;
    exchange_keys = keep (λ k. not (k.profile_id == i)) d.exchange_keys;
    share_links = keep (λ l. not (l.profile_id == i)) d.share_links;
    trade_orders =
        change (λ o. has_link_of i d.share_links o.share_link_id)
          (λ o. record o { share_link_id = none })
          (keep (λ o. not (o.profile_id == i)) d.trade_orders);
    snapshots = keep (λ s. not (s.profile_id == i)) d.snapshots;
  }

  unfoldable pub delete_profile : ℕ → User → Action F (Unit {0})
  unfolding owned_profile
  delete_profile profile_id user = do p ← owned_profile profile_id user; modify (drop_profile p.id)
