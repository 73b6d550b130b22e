-- ===== src/Store/Queries.antt =====
-- The queries that several handlers share: `db.get` and the `select … where` of a key column.
use coin_hq.Base.{ℕ, Option, find, ◌==◌, nat_eq}
use coin_hq.Store.Rows.{User, Profile, ExchangeKey, ShareLink, FollowedPortfolio, Db}

module _ {F : Type 0} where
  -- `await db.get(User, id)`, and so for the other tables
  abbrev pub get_user : ℕ → Db F → Option User
  get_user i d = find (λ r. r.id == i) d.users

  abbrev pub get_profile : ℕ → Db F → Option Profile
  get_profile i d = find (λ r. r.id == i) d.profiles

  abbrev pub get_key : ℕ → Db F → Option ExchangeKey
  get_key i d = find (λ r. r.id == i) d.exchange_keys

  abbrev pub get_link : ℕ → Db F → Option (ShareLink F)
  get_link i d = find (λ r. r.id == i) d.share_links

  abbrev pub get_followed : ℕ → Db F → Option FollowedPortfolio
  get_followed i d = find (λ r. r.id == i) d.followed
