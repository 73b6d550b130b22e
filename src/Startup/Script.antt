-- ===== src/Startup/Script.antt =====
-- The migration script of a deployment: backend/scripts/migrate_or_stamp.py. It inspects the database
-- by itself, takes no lock, and lets an exception end it. What it prints is left out.
use coin_hq.Base.{Bool, true, false, [], ◌∷◌, Option, none, some, if◌then◌else◌, ◌==◌, ◌&&◌}
use coin_hq.Base.Text.{Text, text, text_eq}
use coin_hq.Startup.{stamp, upgrade, Server, Run, and_then}

abbrev pub script_baseline : Text
script_baseline = text "010"

-- `"untracked_schema" if has_users else "empty"`
abbrev pub users_state : Option Bool → Option Text
users_state none = none
users_state (some has_users) = some (if has_users then text "untracked_schema" else text "empty")

abbrev pub version_state : Option Bool → Option Bool → Option Text
version_state none has_users = none
version_state (some true) has_users = some (text "tracked")
version_state (some false) has_users = users_state has_users

module _ (s : Server) where
  -- The state's name, or an exception.
  unfoldable pub script_db_state : Option Text
  script_db_state = if s.connects then version_state s.has_version s.has_users else none

  abbrev pub script_stamp : Text → Run
  script_stamp state =
      if state == text "untracked_schema"
      then (stamp script_baseline ∷ [], s.stamps)
      else ([], true)

  -- The closing query changes nothing.
  unfoldable pub sanity : Run
  sanity = ([], s.connects && s.tells_type)

  abbrev pub main_from : Option Text → Run
  main_from none = ([], false)
  main_from (some state) =
      and_then (script_stamp state) (and_then (upgrade (text "head") ∷ [], s.upgrades) sanity)

  unfoldable pub main : Run
  unfolding script_db_state sanity
  main = main_from script_db_state
