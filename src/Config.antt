-- ===== src/Config.antt =====
-- The settings that the modelled code reads: backend/app/core/config.py. A URL that an operator
-- gives is rewritten for the database driver before any use.
use coin_hq.Base.{
  drop, ℕ, zero, suc, List, [], ◌∷◌, ◌++◌, ◌&&◌, not, if◌then◌else◌, contains, nat_beq, nat_eq,
  length,
}
use coin_hq.Base.Text.{Text, text, text_eq, is_truthy, starts_with}
pub mod Urls

pub record Settings : Type 0 where
  pub database_url : Text
  pub database_url_override : Text
  pub encryption_key : Text
  pub encryption_keys : Text
  pub jwt_secret : Text
  pub jwt_access_expire_minutes : ℕ
  pub jwt_refresh_expire_minutes : ℕ
  pub google_client_id : Text
  pub frontend_url : Text
  pub backend_url : Text
  pub cors_origins_list : List Text

-- `s.split(sep, 1)[0]`
abbrev pub before : ℕ → Text → Text
before sep [] = []
before sep (c ∷ s) = let rest = before sep s in if nat_beq c sep then [] else c ∷ rest

abbrev pub postgres : Text
postgres = text "postgres://"

abbrev pub postgresql : Text
postgresql = text "postgresql://"

abbrev pub asyncpg : Text
asyncpg = text "postgresql+asyncpg://"

-- `if v.startswith(p): v = q + v[len(p):]`
unfoldable pub swap_prefix : Text → Text → Text → Text
swap_prefix p q v = if starts_with v p then q ++ drop (length p) v else v

unfoldable pub strip_query : Text → Text
strip_query v = if starts_with v asyncpg && contains v b'?' then before b'?' v else v

unfoldable pub force_asyncpg_driver : Text → Text
unfolding swap_prefix strip_query
force_asyncpg_driver v =
    if not (is_truthy v)
    then v
    else strip_query (swap_prefix postgresql asyncpg (swap_prefix postgres postgresql v))

-- The model validator, which runs after those of the fields.
unfoldable pub apply_db_override : Settings → Settings
apply_db_override s =
    if is_truthy s.database_url_override
    then record s { database_url = s.database_url_override }
    else s

-- `Settings()`, of the values given from outside
unfoldable pub load_settings : Settings → Settings
unfolding force_asyncpg_driver apply_db_override
load_settings s = apply_db_override record s {
  database_url = force_asyncpg_driver s.database_url;
  database_url_override = force_asyncpg_driver s.database_url_override;
}

unfoldable pub cors_origins : Settings → List Text
cors_origins s =
    if is_truthy s.frontend_url && not (contains s.cors_origins_list s.frontend_url)
    then s.cors_origins_list ++ s.frontend_url ∷ []
    else s.cors_origins_list
