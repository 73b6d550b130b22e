-- ===== src/Base/Dict.antt =====
-- A Python dict: an association list in insertion order, where a write to a known key keeps its
-- place.
use mathlib.Core.Path.{◌≡◌, refl}
use mathlib.Core.Logic.{◌≢◌, inl, inr}
use mathlib.Core.List.{List, [], ◌∷◌}
use mathlib.Core.Option.{Option, none, some}
use native.Mathlib.Omega.{arith}
use coin_hq.Base.Bools.{if◌then◌else◌, Eq, ◌==◌, or_else, Option-cases}

abbrev pub Dict {ℓ κ} : Type ℓ → Type κ → Type (ℓ ⊔ κ)
Dict K V = List (K × V)

abbrev pub keys {ℓ κ} : {K : Type ℓ} {V : Type κ} → Dict K V → List K
keys [] = []
keys ((k, v) ∷ d) = k ∷ keys d

abbrev pub values {ℓ κ} : {K : Type ℓ} {V : Type κ} → Dict K V → List V
values [] = []
values ((k, v) ∷ d) = v ∷ values d

-- The first value, or else the second.
abbrev pub first_of {ℓ} : {V : Type ℓ} → Option V → Option V → Option V
first_of none o = o
first_of (some v) o = some v

module _ {ℓ κ} {K : Type ℓ} {V : Type κ} ⦃e : Eq K⦄ where
  -- `d.get(k)`
  unfoldable pub lookup : K → Dict K V → Option V
  lookup k [] = none
  lookup k ((j, v) ∷ d) = if k == j then some v else lookup k d

  -- `d[k] = v`
  unfoldable pub insert : K → V → Dict K V → Dict K V
  insert k v [] = (k, v) ∷ []
  insert k v ((j, w) ∷ d) = if k == j then (j, v) ∷ d else (j, w) ∷ insert k v d

  -- `d.pop(k, None)`
  unfoldable pub erase : K → Dict K V → Dict K V
  erase k [] = []
  erase k ((j, w) ∷ d) = let rest = erase k d in if k == j then rest else (j, w) ∷ rest

  -- `d.update(u)`, and `{**d, **u}`
  unfoldable pub update : Dict K V → Dict K V → Dict K V
  update d [] = d
  update d ((k, v) ∷ u) = update (insert k v d) u

  -- `d.get(k, v)`
  abbrev pub get_or : K → V → Dict K V → V
  get_or k v d = or_else (lookup k d) v

  pub lookup-insert :
      (j k : K) (v : V) (d : Dict K V)
      → lookup j (insert k v d) ≡ (if j == k then some v else lookup j d)
  unfolding lookup insert
  lookup-insert j k v [] = refl
  lookup-insert j k v ((i, w) ∷ d) =
      ground (arith, e.beq_iff k i, e.beq_iff j i, e.beq_iff j k, lookup-insert j k v d)

  pub lookup-insert_self : (k : K) (v : V) (d : Dict K V) → lookup k (insert k v d) ≡ some v
  lookup-insert_self k v d = rw (lookup-insert, (e.beq_iff k k).1 refl)

  lookup-insert_ne : (j k : K) (v : V) (d : Dict K V) → j ≢ k → lookup j (insert k v d) ≡ lookup j d
  lookup-insert_ne j k v d h = ground (arith, lookup-insert j k v d, e.beq_iff j k)

  lookup-erase :
      (j k : K) (d : Dict K V) → lookup j (erase k d) ≡ (if j == k then none else lookup j d)
  unfolding lookup erase
  lookup-erase j k [] = ground arith
  lookup-erase j k ((i, w) ∷ d) =
      ground (arith, e.beq_iff k i, e.beq_iff j i, e.beq_iff j k, lookup-erase j k d)

  -- No key occurs twice, as in a real dict.
  abbrev pub HasUniqueKeys : Dict K V → Type κ
  HasUniqueKeys [] = Unit
  HasUniqueKeys ((k, v) ∷ d) = (lookup k d ≡ none) × HasUniqueKeys d

  pub insert-HasUniqueKeys :
      (k : K) (v : V) (d : Dict K V) → HasUniqueKeys d → HasUniqueKeys (insert k v d)
  unfolding insert
  insert-HasUniqueKeys k v [] h = (unfold lookup in refl, tt)
  insert-HasUniqueKeys k v ((j, w) ∷ d) (fresh, h) =
      ground
        (arith, insert-HasUniqueKeys k v d h, lookup-insert j k v d, e.beq_iff k j, e.beq_iff j k)

  -- An update leaves the keys that it does not name.
  pub lookup-update-none :
      (k : K) (d u : Dict K V) → lookup k u ≡ none → lookup k (update d u) ≡ lookup k d
  unfolding lookup update
  lookup-update-none k d [] h = refl
  lookup-update-none k d ((j, w) ∷ u) h =
      ground (arith, lookup-update-none k (insert j w d) u, lookup-insert k j w d)

  -- An update gives each key of its own, which occur once, the new value.
  pub lookup-update-some :
      (k : K) (v : V) (d u : Dict K V)
      → HasUniqueKeys u
      → lookup k u ≡ some v
      → lookup k (update d u) ≡ some v
  unfolding lookup update
  lookup-update-some k v d [] h found = cc
  lookup-update-some k v d ((j, w) ∷ u) (fresh, h) found = ground (
    arith,
    e.beq_iff k j,
    lookup-update-none k (insert j w d) u,
    lookup-insert k j w d,
    lookup-update-some k v (insert j w d) u h,
  )

  -- An update is looked up in the update first.
  pub lookup-update :
      (k : K) (d u : Dict K V)
      → HasUniqueKeys u
      → lookup k (update d u) ≡ first_of (lookup k u) (lookup k d)
  lookup-update k d u h = elim (Option-cases (lookup k u)) [
    | inl without ↦ rw without (lookup-update-none k d u without)
    | inr (v, found) ↦ rw found (lookup-update-some k v d u h found)
  ]
