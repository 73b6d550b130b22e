-- ===== src/Auth/KeyRing.antt =====
-- The encryption keys of backend/app/core/security.py: the primary key and the past ones, and the
-- cipher that is made of them once.
use coin_hq.Base.{List, [], ◌∷◌, ◌++◌, Option, none, some, if◌then◌else◌, contains, keep, map}
use coin_hq.Base.Text.{Text, text_eq, is_truthy, strip, split}
use coin_hq.Config.{Settings}

-- `[k.strip() for k in keys.split(",") if k.strip()]`
unfoldable pub past_keys : Text → List Text
past_keys keys = keep is_truthy (map strip (split b',' keys))

unfoldable pub add_keys : List Text → List Text → List Text
add_keys keys [] = keys
add_keys keys (k ∷ extra) =
    let kept = add_keys keys extra in
    let longer = add_keys (keys ++ k ∷ []) extra in if contains keys k then kept else longer

unfoldable pub build_key_list : Settings → List Text
unfolding add_keys past_keys
build_key_list settings =
    add_keys (settings.encryption_key ∷ []) (past_keys settings.encryption_keys)

-- A `MultiFernet`; `none` is `InvalidToken`.
pub record Cipher : Type 0 where
  pub encrypt_text : Text → Text
  pub decrypt_text : Text → Option Text

-- The library's constructor, on the `Fernet`s of the keys; `none` is the error of a malformed key.
abbrev pub MultiFernet : Type 0
MultiFernet = List Text → Option Cipher

abbrev pub encrypt_by : Text → Option Cipher → Option Text × Option Cipher
encrypt_by plaintext none = (none, none)
encrypt_by plaintext (some f) = (some (f.encrypt_text plaintext), some f)

abbrev pub decrypt_by : Text → Option Cipher → Option Text × Option Cipher
decrypt_by token none = (none, none)
decrypt_by token (some f) = (f.decrypt_text token, some f)

module _ (multi_fernet : MultiFernet) where
  -- `none` is a `ValueError`.
  unfoldable pub get_multi_fernet : List Text → Option Cipher
  get_multi_fernet [] = none
  get_multi_fernet (k ∷ keys) = multi_fernet (k ∷ keys)

  -- The global `_fernet` is taken and returned.
  unfoldable pub get_fernet : Settings → Option Cipher → Option Cipher
  unfolding get_multi_fernet
  get_fernet settings (some f) = some f
  get_fernet settings none = get_multi_fernet (build_key_list settings)

  unfoldable pub encrypt : Settings → Option Cipher → Text → Option Text × Option Cipher
  encrypt settings cached plaintext = encrypt_by plaintext (get_fernet settings cached)

  unfoldable pub decrypt : Settings → Option Cipher → Text → Option Text × Option Cipher
  decrypt settings cached token = decrypt_by token (get_fernet settings cached)
