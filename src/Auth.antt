-- ===== src/Auth.antt =====
-- Signing in: the tokens and keys of backend/app/core/security.py, and the Google flow of
-- backend/app/api/v1/auth.py.
pub mod State
pub mod Tokens
pub mod KeyRing
pub mod Signed
pub mod Sessions
pub mod Rotation
pub mod Google
pub mod Upsert
pub mod Callback
