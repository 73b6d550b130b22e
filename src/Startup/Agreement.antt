-- ===== src/Startup/Agreement.antt =====
-- What the two migration entry points call, and when (backend/app/core/migrations.py and
-- backend/scripts/migrate_or_stamp.py).
use coin_hq.Base.{
  Bool, true, false, List, [], ◌∷◌, ◌++◌, Option, none, some, ◌≡◌, ◌⊎◌, inl, inr, refl, ap, ◌∙◌,
  arith, keep, if◌then◌else◌, Bool-cases, Option-cases, sym, subst,
}
use coin_hq.Base.Text.{Text, text, starts_with, text_beq}
use coin_hq.Startup.{
  Call, pg_try_advisory_lock, pg_advisory_unlock, stamp, upgrade, Server, db_state, bootstrap,
  bootstrap_sync, migrate, migrate_locked, finally, run_startup_migrations,
}
use coin_hq.Startup.Script.{version_state, main_from, main, script_db_state, sanity}

-- A call that changes the schema or its version.
abbrev pub is_command : Call → Bool
is_command pg_try_advisory_lock = false
is_command pg_advisory_unlock = false
is_command (stamp r) = true
is_command (upgrade r) = true

-- What is done to the schema, by what the database holds: it is upgraded; one that has tables
-- without a version is stamped first, and upgraded if that succeeds; and if an inspection fails,
-- nothing is done.
abbrev pub Migrates : Server → List Call → Type 0
Migrates s calls =
    ((s.has_version ≡ some true) × (calls ≡ upgrade (text "head") ∷ []))
    ⊎ ((s.has_version ≡ some false)
        × (s.has_users ≡ some false)
        × (calls ≡ upgrade (text "head") ∷ []))
    ⊎ ((s.has_version ≡ some false)
        × (s.has_users ≡ some true)
        × (s.stamps ≡ true)
        × (calls ≡ stamp (text "010") ∷ upgrade (text "head") ∷ []))
    ⊎ ((s.has_version ≡ some false)
        × (s.has_users ≡ some true)
        × (s.stamps ≡ false)
        × (calls ≡ stamp (text "010") ∷ []))
    ⊎ ((s.has_version ≡ none) × (calls ≡ []))
    ⊎ ((s.has_version ≡ some false) × (s.has_users ≡ none) × (calls ≡ []))

-- Nothing is called without a Postgres database or its connection. The lock is tried first; if it is
-- busy, or the call for it fails, nothing else is called; and a lock that was got is given back last,
-- after the commands.
abbrev pub IsLocked : Server → Text → List Call → Type 0
IsLocked s database_url calls =
    (((starts_with database_url (text "postgresql") ≡ false) ⊎ (s.connects ≡ false)) × (calls ≡ []))
    ⊎ ((starts_with database_url (text "postgresql") ≡ true)
        × (s.connects ≡ true)
        × ((s.try_lock ≡ none) ⊎ (s.try_lock ≡ some false))
        × (calls ≡ pg_try_advisory_lock ∷ []))
    ⊎ ((starts_with database_url (text "postgresql") ≡ true)
        × (s.connects ≡ true)
        × (s.try_lock ≡ some true)
        × ((commands : List Call) × (calls
              ≡ pg_try_advisory_lock ∷ (commands ++ pg_advisory_unlock ∷ []))
            × Migrates s commands))

bootstrap-Migrates : (s : Server) → Migrates s (bootstrap s (db_state s)).0
unfolding db_state bootstrap_sync
bootstrap-Migrates s = elim (Option-cases s.has_version) [
  | inl fails ↦ ground (arith, fails)
  | inr (true, tracked') ↦ ground (arith, tracked')
  | inr (false, bare) ↦ elim (Option-cases s.has_users) [
    | inl fails ↦ ground (arith, bare, fails)
    | inr (true, users) ↦ elim (Bool-cases s.stamps) [
      | inl stamps ↦ ground (arith, bare, users, stamps)
      | inr fails ↦ ground (arith, bare, users, fails)
    ]
    | inr (false, users) ↦ ground (arith, bare, users)
  ]
]

migrate_locked-IsLocked :
    (s : Server) (database_url : Text) (lock : Option Bool)
    → starts_with database_url (text "postgresql") ≡ true
    → s.connects ≡ true
    → s.try_lock ≡ lock
    → IsLocked s database_url (pg_try_advisory_lock ∷ (migrate_locked s lock).0)
unfolding migrate_locked
migrate_locked-IsLocked s database_url none pg up h = inr (inl (pg, up, inl h, refl))
migrate_locked-IsLocked s database_url (some false) pg up h = inr (inl (pg, up, inr h, refl))
migrate_locked-IsLocked s database_url (some true) pg up h =
    inr (inr (pg, up, h, ((bootstrap s (db_state s)).0, refl, bootstrap-Migrates s)))

migrate_up :
    (s : Server)
    → s.connects ≡ true
    → (migrate s).0 ≡ pg_try_advisory_lock ∷ (migrate_locked s s.try_lock).0
unfolding migrate
migrate_up s up =
    ap
      (λ c.
        (if c
          then finally (pg_try_advisory_lock ∷ [], true) (migrate_locked s s.try_lock)
          else ([], false)).0)
      up

migrate_down : (s : Server) → s.connects ≡ false → (migrate s).0 ≡ []
unfolding migrate
migrate_down s down =
    ap
      (λ c.
        (if c
          then finally (pg_try_advisory_lock ∷ [], true) (migrate_locked s s.try_lock)
          else ([], false)).0)
      down

run_on_postgres :
    (s : Server) (database_url : Text)
    → starts_with database_url (text "postgresql") ≡ true
    → (run_startup_migrations s database_url).0 ≡ (migrate s).0
unfolding run_startup_migrations
run_on_postgres s database_url pg = rw pg refl

migrate-IsLocked :
    (s : Server) (database_url : Text)
    → starts_with database_url (text "postgresql") ≡ true
    → IsLocked s database_url (migrate s).0
unfolding migrate
migrate-IsLocked s database_url pg = elim (Bool-cases s.connects) [
  | inl up ↦
      subst (IsLocked s database_url) (sym (migrate_up s up))
        (migrate_locked-IsLocked s database_url s.try_lock pg up refl)
  | inr down ↦ subst (IsLocked s database_url) (sym (migrate_down s down)) (inl (inr down, refl))
]

-- The migrations at the start of the application raise nothing, whatever fails. Without a
-- Postgres database or its connection they call nothing. If the lock is busy or cannot be tried,
-- they try it and call nothing else. If they get it, they do what the database needs and release
-- the lock: they upgrade it, after stamping the baseline on a schema without a version table, go
-- no further than a stamp that fails, and do nothing if an inspection fails.
pub run_startup_migrations-IsLocked :
    (s : Server) (database_url : Text)
    → IsLocked s database_url (run_startup_migrations s database_url).0
      × ((run_startup_migrations s database_url).1 ≡ true)
unfolding run_startup_migrations
run_startup_migrations-IsLocked s database_url =
    elim (Bool-cases (starts_with database_url (text "postgresql"))) [
      | inl pg ↦ (
        subst (IsLocked s database_url) (sym (run_on_postgres s database_url pg))
            (migrate-IsLocked s database_url pg),
        rw pg refl,
      )
      | inr other ↦
          let none_called : (run_startup_migrations s database_url).0 ≡ [] = rw other refl in
          (subst (IsLocked s database_url) (sym none_called) (inl (inl other, refl)), rw other refl)
    ]

-- The unlocking is no command, and the rest of a run is nothing but commands.
keep-bootstrap :
    (s : Server)
    → s.connects ≡ true
    → keep is_command ((bootstrap s (db_state s)).0 ++ pg_advisory_unlock ∷ []) ≡ (main s).0
unfolding db_state bootstrap_sync main script_db_state text_beq sanity
keep-bootstrap s up = elim (Option-cases s.has_version) [
  | inl fails ↦ ground (arith, up, fails)
  | inr (true, tracked') ↦ ground (arith, up, tracked')
  | inr (false, bare) ↦ elim (Option-cases s.has_users) [
    | inl fails ↦ ground (arith, up, bare, fails)
    | inr (true, users) ↦ elim (Bool-cases s.stamps) [
      | inl stamps ↦ ground (arith, up, bare, users, stamps)
      | inr fails ↦ ground (arith, up, bare, users, fails)
    ]
    | inr (false, users) ↦ ground (arith, up, bare, users)
  ]
]

-- On a Postgres database whose lock is free, the start of the application and the script for a
-- deployment, which inspects the database and names the baseline by itself, give the same
-- commands.
pub run_startup_migrations-main :
    (s : Server) (database_url : Text)
    → starts_with database_url (text "postgresql") ≡ true
    → s.try_lock ≡ some true
    → keep is_command (run_startup_migrations s database_url).0 ≡ (main s).0
unfolding migrate_locked main script_db_state
run_startup_migrations-main s database_url pg got = elim (Bool-cases s.connects) [
  | inl up ↦
      let lock : (migrate_locked s s.try_lock).0
          ≡ (bootstrap s (db_state s)).0 ++ pg_advisory_unlock ∷ [] =
        ap (λ l. (migrate_locked s l).0) got in
      ap (keep is_command) (run_on_postgres s database_url pg ∙ migrate_up s up)
      ∙ ap (keep is_command) lock
      ∙ keep-bootstrap s up
  | inr down ↦
      let bare : (main s).0 ≡ [] =
        ap (λ c. (main_from s (if c then version_state s.has_version s.has_users else none)).0)
          down in
      ap (keep is_command) (run_on_postgres s database_url pg ∙ migrate_down s down) ∙ sym bare
]
