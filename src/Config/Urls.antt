-- ===== src/Config/Urls.antt =====
-- The database URL after the settings are loaded (backend/app/core/config.py).
use coin_hq.Base.{
  drop, ℕ, true, false, ◌≡◌, refl, ap, sym, subst, ◌∙◌, ◌⊎◌, [], ◌∷◌, ◌++◌, arith, length, contains,
  nat_eq, Bool-cases, inl, inr,
}
use coin_hq.Base.Text.{Text, starts_with}
use coin_hq.Config.{
  Settings, before, postgres, postgresql, asyncpg, swap_prefix, strip_query, force_asyncpg_driver,
  apply_db_override, load_settings,
}

starts_with_split : (v p : Text) → starts_with v p ≡ true → v ≡ p ++ drop (length p) v
unfolding starts_with
starts_with_split v [] h = refl
starts_with_split [] (d ∷ p) h = cc
starts_with_split (c ∷ v) (d ∷ p) h = ground (arith, starts_with_split v p)

before-contains : (sep : ℕ) (v : Text) → contains (before sep v) sep ≡ false
before-contains sep [] = refl
before-contains sep (c ∷ v) = ground (arith, before-contains sep v)

-- A URL that the driver takes as it is: none of the two old schemes, and no query.
abbrev pub IsNormal : Text → Type 0
IsNormal v =
    (starts_with v postgres ≡ false)
    × (starts_with v postgresql ≡ false)
    × (starts_with v asyncpg ≡ true → contains v b'?' ≡ false)

strip_asyncpg :
    (s : Text)
    → (t : Text) × ((strip_query (asyncpg ++ s) ≡ asyncpg ++ t) × (contains t b'?' ≡ false))
unfolding strip_query starts_with
strip_asyncpg s = elim (Bool-cases (contains s b'?')) [
  | inl h ↦ (before b'?' s, (rw h refl, before-contains b'?' s))
  | inr h ↦ (s, (rw h refl, h))
]

-- The two ways of a URL: none of the schemes and untouched, or the driver's with no query.
Settles : Text → Text → Type 0
Settles v w =
    ((starts_with v postgres ≡ false)
      × (starts_with v postgresql ≡ false)
      × (starts_with v asyncpg ≡ false)
      × (w ≡ v))
    ⊎ ((t : Text) × (w ≡ asyncpg ++ t) × (contains t b'?' ≡ false))

driver_of : Text → Text
driver_of v = strip_query (swap_prefix postgresql asyncpg (swap_prefix postgres postgresql v))

strip_query-Settles :
    (v : Text)
    → starts_with v postgres ≡ false
    → starts_with v postgresql ≡ false
    → Settles v (strip_query v)
unfolding Settles strip_query
strip_query-Settles v h h' = elim (Bool-cases (starts_with v asyncpg)) [
  | inl is ↦
      let (t, (e, q)) = strip_asyncpg (drop (length asyncpg) v) in
      inr (t, ap strip_query (starts_with_split v asyncpg is) ∙ e, q)
  | inr isnt ↦ inl (h, h', isnt, rw isnt refl)
]

swap_postgres : (s : Text) → swap_prefix postgres postgresql (postgres ++ s) ≡ postgresql ++ s
unfolding swap_prefix starts_with
swap_postgres s = refl

swap_postgresql : (s : Text) → swap_prefix postgresql asyncpg (postgresql ++ s) ≡ asyncpg ++ s
unfolding swap_prefix starts_with
swap_postgresql s = refl

swap_prefix-other : (p q v : Text) → starts_with v p ≡ false → swap_prefix p q v ≡ v
unfolding swap_prefix
swap_prefix-other p q v h = rw h refl

driver_of-postgresql :
    (v s : Text)
    → swap_prefix postgres postgresql v ≡ postgresql ++ s
    → (t : Text) × (driver_of v ≡ asyncpg ++ t) × (contains t b'?' ≡ false)
unfolding driver_of
driver_of-postgresql v s h =
    let (t, (e, q)) = strip_asyncpg s in
    (
      t,
      ap (λ w. strip_query (swap_prefix postgresql asyncpg w)) h
          ∙ ap strip_query (swap_postgresql s)
          ∙ e,
      q,
    )

driver_of_other :
    (v : Text)
    → starts_with v postgres ≡ false
    → starts_with v postgresql ≡ false
    → driver_of v ≡ strip_query v
unfolding driver_of
driver_of_other v h h' =
    ap (λ w. strip_query (swap_prefix postgresql asyncpg w))
      (swap_prefix-other postgres postgresql v h)
    ∙ ap strip_query (swap_prefix-other postgresql asyncpg v h')

driver_of-Settles : (v : Text) → Settles v (driver_of v)
unfolding Settles
driver_of-Settles v = elim (Bool-cases (starts_with v postgres)) [
  | inl is ↦
      let s = drop (length postgres) v in
      inr (
        driver_of-postgresql v s (
          ap (swap_prefix postgres postgresql) (starts_with_split v postgres is) ∙ swap_postgres s))
  | inr isnt ↦
      let kept = swap_prefix-other postgres postgresql v isnt in
      elim (Bool-cases (starts_with v postgresql)) [
        | inl is' ↦ inr (
            driver_of-postgresql v (drop (length postgresql) v)
              (kept ∙ starts_with_split v postgresql is'))
        | inr isnt' ↦
            subst (Settles v) (sym (driver_of_other v isnt isnt'))
              (strip_query-Settles v isnt isnt')
      ]
]

Settles-IsNormal : (v w : Text) → Settles v w → IsNormal w
unfolding Settles starts_with
Settles-IsNormal v w (inl (h, h', h'', e)) = rw e (h, h', λ is. absurd cc)
Settles-IsNormal v w (inr (t, e, q)) = rw e (refl, refl, λ is. q)

-- A normal URL stays as it is.
driver_of_normal : (v : Text) → IsNormal v → driver_of v ≡ v
driver_of_normal v (h, h', q) = driver_of_other v h h' ∙ (unfold strip_query in ground (arith, q))

-- The rewritten URL is normal, and rewriting it once more changes nothing.
force_asyncpg_driver_normalizes :
    (v : Text)
    → IsNormal (force_asyncpg_driver v)
      × (force_asyncpg_driver (force_asyncpg_driver v) ≡ force_asyncpg_driver v)
unfolding force_asyncpg_driver
force_asyncpg_driver_normalizes [] = (unfold starts_with in (refl, refl, λ h. refl), refl)
force_asyncpg_driver_normalizes (c ∷ s) =
    let normal = Settles-IsNormal (c ∷ s) (driver_of (c ∷ s)) (driver_of-Settles (c ∷ s)) in
    (
      unfold driver_of in normal,
      unfold driver_of in ground (arith, driver_of_normal (driver_of (c ∷ s)) normal),
    )

-- The database URL of loaded settings has neither of the two schemes without a driver, and no
-- query if it has the scheme of the driver; and loading settings once more changes nothing.
pub load_settings_normalizes :
    (s : Settings)
    → IsNormal (load_settings s).database_url × (load_settings (load_settings s) ≡ load_settings s)
unfolding load_settings apply_db_override
load_settings_normalizes s =
    let (n, e) = force_asyncpg_driver_normalizes s.database_url in
    let (n', e') = force_asyncpg_driver_normalizes s.database_url_override in
    ground (arith, n, e, n', e')
