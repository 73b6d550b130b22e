-- ===== src/Startup.antt =====
-- Bringing the database schema up to date: backend/app/core/migrations.py, when the application
-- starts; Startup.Script is the script for a deployment. The database server's and alembic's answers
-- are arguments; a run is the calls that it makes, in order, and whether it ends without an exception.
use coin_hq.Base.{
  Bool, true, false, List, [], ◌∷◌, ◌++◌, Option, none, some, not, ◌&&◌, if◌then◌else◌,
}
use coin_hq.Base.Text.{Text, text, starts_with}
pub mod Script
pub mod Agreement

pub data Call : Type 0 where
  pg_try_advisory_lock : Call
  pg_advisory_unlock : Call
  stamp : Text → Call
  upgrade : Text → Call

-- The answers: `none`, or `false` for a call without an answer, is an exception.
pub record Server : Type 0 where
  pub connects : Bool
  pub try_lock : Option Bool
  pub has_version : Option Bool
  pub has_users : Option Bool
  pub stamps : Bool
  pub upgrades : Bool
  pub unlocks : Bool
  pub tells_type : Bool

-- The calls that were made, and whether no exception was raised.
abbrev pub Run : Type 0
Run = List Call × Bool

-- The second run, if the first has raised nothing.
abbrev pub and_then : Run → Run → Run
and_then (calls, true) (calls', raised_nothing) = (calls ++ calls', raised_nothing)
and_then (calls, false) _ = (calls, false)

-- `try: … finally: …`
abbrev pub finally : Run → Run → Run
finally (calls, fine) (calls', fine') = (calls ++ calls', fine && fine')

abbrev pub baseline_if_unstamped : Text
baseline_if_unstamped = text "010"

pub data DbState : Type 0 where
  tracked : DbState
  untracked_schema : DbState
  empty : DbState

module _ (s : Server) where
  -- The state, or an exception of a query; `users` is looked for only without `alembic_version`.
  unfoldable pub db_state : Option DbState
  db_state = elim s.has_version [
    | none ↦ none
    | some true ↦ some tracked
    | some false ↦ elim s.has_users [
      | none ↦ none
      | some true ↦ some untracked_schema
      | some false ↦ some empty
    ]
  ]

  abbrev pub upgrade_head : Run
  upgrade_head = (upgrade (text "head") ∷ [], s.upgrades)

  abbrev pub stamp_baseline : Run
  stamp_baseline = (stamp baseline_if_unstamped ∷ [], s.stamps)

  unfoldable pub bootstrap_sync : DbState → Run
  bootstrap_sync tracked = upgrade_head
  bootstrap_sync untracked_schema = and_then stamp_baseline upgrade_head
  bootstrap_sync empty = upgrade_head

  abbrev pub bootstrap : Option DbState → Run
  bootstrap none = ([], false)
  bootstrap (some state) = bootstrap_sync state

  unfoldable pub migrate_locked : Option Bool → Run
  unfolding db_state bootstrap_sync
  migrate_locked none = ([], false)
  migrate_locked (some false) = ([], true)
  migrate_locked (some true) = finally (bootstrap db_state) (pg_advisory_unlock ∷ [], s.unlocks)

  -- The body of the `try`.
  unfoldable pub migrate : Run
  unfolding migrate_locked
  migrate =
      if s.connects
      then finally (pg_try_advisory_lock ∷ [], true) (migrate_locked s.try_lock)
      else ([], false)

  -- `except Exception` drops any exception.
  unfoldable pub run_startup_migrations : Text → Run
  unfolding migrate
  run_startup_migrations database_url =
      if not (starts_with database_url (text "postgresql")) then ([], true) else (migrate.0, true)
