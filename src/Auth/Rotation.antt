-- ===== src/Auth/Rotation.antt =====
-- The list of encryption keys, and that a rotation of the primary key loses nothing
-- (backend/app/core/security.py).
use coin_hq.Base.{
  true, false, List, [], ◌∷◌, ◌++◌, none, some, ◌≡◌, refl, sym, subst, ◌∙◌, ◌⊎◌, inl, inr, arith,
  ◌||◌, contains, Bool-cases, Option-cases, ◌==◌,
}
use coin_hq.Base.Text.{Text, text_eq, text_beq_iff}
use coin_hq.Config.{Settings}
use coin_hq.Auth.KeyRing.{
  past_keys, add_keys, build_key_list, Cipher, MultiFernet, get_multi_fernet, get_fernet, encrypt,
  decrypt,
}

-- No key occurs twice.
abbrev pub AreDistinct : List Text → Type 0
AreDistinct [] = Unit
AreDistinct (k ∷ ks) = (contains ks k ≡ false) × AreDistinct ks

contains-append :
    (xs ys : List Text) (k : Text) → contains (xs ++ ys) k ≡ (contains xs k || contains ys k)
contains-append [] ys k = refl
contains-append (x ∷ xs) ys k = ground (arith, contains-append xs ys k)

append-AreDistinct :
    (ks : List Text) (k : Text)
    → AreDistinct ks
    → contains ks k ≡ false
    → AreDistinct (ks ++ k ∷ [])
append-AreDistinct [] k h new = (refl, tt)
append-AreDistinct (j ∷ ks) k (h, hs) new = ground (
  arith,
  contains-append ks (k ∷ []) j,
  append-AreDistinct ks k hs,
  text_beq_iff j k,
  text_beq_iff k j,
)

add_keys-AreDistinct : (ks extra : List Text) → AreDistinct ks → AreDistinct (add_keys ks extra)
unfolding add_keys
add_keys-AreDistinct ks [] h = h
add_keys-AreDistinct ks (k ∷ extra) h = elim (Bool-cases (contains ks k)) [
  | inl known ↦ rw known (add_keys-AreDistinct ks extra h)
  | inr new ↦ rw new (add_keys-AreDistinct (ks ++ k ∷ []) extra (append-AreDistinct ks k h new))
]

add_keys-contains :
    (ks extra : List Text) (k : Text)
    → contains (add_keys ks extra) k ≡ (contains ks k || contains extra k)
unfolding add_keys
add_keys-contains ks [] k = ground arith
add_keys-contains ks (j ∷ extra) k = ground (
  arith,
  add_keys-contains ks extra k,
  add_keys-contains (ks ++ j ∷ []) extra k,
  contains-append ks (j ∷ []) k,
  text_beq_iff k j,
)

add_keys_first :
    (k : Text) (ks extra : List Text) → (rest : List Text) × (add_keys (k ∷ ks) extra ≡ k ∷ rest)
unfolding add_keys
add_keys_first k ks [] = (ks, refl)
add_keys_first k ks (j ∷ extra) = elim (Bool-cases (contains (k ∷ ks) j)) [
  | inl known ↦ rw known (add_keys_first k ks extra)
  | inr new ↦ rw new (add_keys_first k (ks ++ j ∷ []) extra)
]

-- The list of keys begins with the primary one and holds no key twice.
build_key_list-AreDistinct :
    (settings : Settings)
    → ((rest : List Text) × (build_key_list settings ≡ settings.encryption_key ∷ rest))
      × AreDistinct (build_key_list settings)
      × ((k : Text)
          → contains (build_key_list settings) k
            ≡ (k == settings.encryption_key || contains (past_keys settings.encryption_keys) k))
unfolding build_key_list
build_key_list-AreDistinct settings =
    let past = past_keys settings.encryption_keys in
    (
      add_keys_first settings.encryption_key [] past,
      add_keys-AreDistinct (settings.encryption_key ∷ []) past (refl, tt),
      λ k. ground (arith, add_keys-contains (settings.encryption_key ∷ []) past k),
    )

-- What the library documents: the first key encrypts, and every key is tried to decrypt.
abbrev pub IsMultiFernet : MultiFernet → Type 0
IsMultiFernet multi_fernet =
    (k : Text) (ks ks' : List Text) (f f' : Cipher)
    → multi_fernet (k ∷ ks) ≡ some f
    → multi_fernet ks' ≡ some f'
    → contains ks' k ≡ true
    → (t : Text) → f'.decrypt_text (f.encrypt_text t) ≡ some t

module _ (multi_fernet : MultiFernet) where
  get_fernet_new :
      (settings : Settings) (rest : List Text)
      → build_key_list settings ≡ settings.encryption_key ∷ rest
      → get_fernet multi_fernet settings none ≡ multi_fernet (settings.encryption_key ∷ rest)
  unfolding get_fernet get_multi_fernet
  get_fernet_new settings rest h = rw h refl

  encrypt-get_fernet :
      (settings : Settings) (t token : Text)
      → (encrypt multi_fernet settings none t).0 ≡ some token
      → (f : Cipher) × (get_fernet multi_fernet settings none ≡ some f) × (f.encrypt_text t ≡ token)
  unfolding encrypt
  encrypt-get_fernet settings t token h =
      elim (Option-cases (get_fernet multi_fernet settings none)) [
        | inl bad ↦ let no : none ≡ some token = rw bad at h in absurd cc
        | inr (f, good) ↦
            (f, good, let e : some (f.encrypt_text t) ≡ some token = rw good at h in cc)
      ]

  -- What was encrypted under old settings is decrypted under new ones that can make a cipher,
  -- if the primary key is the same or the old one is among the new past keys. The library
  -- encrypts with the first key and tries every key to decrypt.
  pub decrypt-encrypt :
      (old new : Settings) (t token : Text) (f : Cipher)
      → IsMultiFernet multi_fernet
      → (new.encryption_key ≡ old.encryption_key)
        ⊎ (contains (past_keys new.encryption_keys) old.encryption_key ≡ true)
      → (encrypt multi_fernet old none t).0 ≡ some token
      → get_fernet multi_fernet new none ≡ some f
      → (decrypt multi_fernet new none token).0 ≡ some t
  unfolding decrypt
  decrypt-encrypt old new t token f m keeps sent ready =
      let (g, made, same) = encrypt-get_fernet old t token sent in
      let ((rest, first), _, _) = build_key_list-AreDistinct old in
      let ((rest', first'), _, has) = build_key_list-AreDistinct new in
      let made' = sym (get_fernet_new old rest first) ∙ made in
      let ready' = sym (get_fernet_new new rest' first') ∙ ready in
      let known : contains (new.encryption_key ∷ rest') old.encryption_key ≡ true =
        rw first' at (has old.encryption_key)
        ∙ ground (arith, text_beq_iff old.encryption_key new.encryption_key) in
      rw ready (
        subst (λ x. f.decrypt_text x ≡ some t) same
          (m old.encryption_key rest (new.encryption_key ∷ rest') g f made' ready' known t))
