-- ===== src/Adapters/Binance/Trades.antt =====
-- The history of a market in pages: what a page leaves is what has a later id than its last row
-- (backend/app/exchanges/binance.py).
use coin_hq.Base.{
  ℕ, zero, suc, ◌≤◌, ◌<◌, List, [], ◌∷◌, ◌++◌, Option, none, some, ◌≡◌, refl, ap, inl, inr, arith,
  map, keep, take, drop, length, leb, All, All-map, Bool-cases, Option-cases,
}
use coin_hq.CostBasis.{Fill}
use coin_hq.Adapters.Binance.Walk.{Row, last_id, fills_of}

-- The trades of a market: the ids, and what the rows parse to.
abbrev pub Trades : Type 0 → Type 0
Trades F = List (ℕ × Option (Fill F))

module _ {F : Type 0} where
  abbrev pub row : ℕ × Option (Fill F) → Row F
  row (i, f) = record { id = some i; fill = f }

  -- The ids ascend.
  abbrev pub IsAscending : Trades F → Type 0
  IsAscending [] = Unit
  IsAscending (t ∷ ts) = All (λ u. t.0 < u.0) ts × IsAscending ts

  -- The trades from an id on.
  abbrev pub since : ℕ → Trades F → Trades F
  since i = keep (λ t. leb i t.0)

  abbrev pub fills_in : Trades F → List (Fill F)
  fills_in ts = fills_of (map row ts)

  abbrev pub last_of : Trades F → Option ℕ
  last_of [] = none
  last_of (t ∷ []) = some t.0
  last_of (t ∷ u ∷ ts) = last_of (u ∷ ts)

  pub last_id-row : (ts : Trades F) → last_id (map row ts) ≡ last_of ts
  last_id-row [] = refl
  last_id-row (t ∷ []) = refl
  last_id-row (t ∷ u ∷ ts) = last_id-row (u ∷ ts)

  pub fills_of-append : (rs ss : List (Row F)) → fills_of (rs ++ ss) ≡ fills_of rs ++ fills_of ss
  fills_of-append [] ss = refl
  fills_of-append (r ∷ rs) ss = elim (Option-cases r.fill) [
    | inl h ↦ rw h (fills_of-append rs ss)
    | inr (f, h) ↦ rw h (ap (◌∷◌ f) (fills_of-append rs ss))
  ]

  since_entire : (i : ℕ) (ts : Trades F) → All (λ t. i ≤ t.0) ts → since i ts ≡ ts
  since_entire i [] h = refl
  since_entire i (t ∷ ts) (h, hs) = ground (arith, since_entire i ts hs)

  since-All :
      (P : ℕ × Option (Fill F) → Type 0) (i : ℕ) (ts : Trades F) → All P ts → All P (since i ts)
  since-All P i [] h = tt
  since-All P i (t ∷ ts) (h, hs) = elim (Bool-cases (leb i t.0)) [
    | inl a ↦ rw a (h, since-All P i ts hs)
    | inr b ↦ rw b (since-All P i ts hs)
  ]

  pub since-IsAscending : (i : ℕ) (ts : Trades F) → IsAscending ts → IsAscending (since i ts)
  since-IsAscending i [] h = tt
  since-IsAscending i (t ∷ ts) (h, hs) = elim (Bool-cases (leb i t.0)) [
    | inl a ↦ rw a (since-All (λ u. t.0 < u.0) i ts h, since-IsAscending i ts hs)
    | inr b ↦ rw b (since-IsAscending i ts hs)
  ]

  pub since-floor : (i : ℕ) (ts : Trades F) → All (λ t. i ≤ t.0) (since i ts)
  since-floor i [] = tt
  since-floor i (t ∷ ts) = elim (Bool-cases (leb i t.0)) [
    | inl a ↦ rw a (ground arith, since-floor i ts)
    | inr b ↦ rw b (since-floor i ts)
  ]

  pub last_above :
      (k n i : ℕ) (ts : Trades F) → All (λ t. k ≤ t.0) ts → last_of (take n ts) ≡ some i → k ≤ i
  last_above k zero i ts a h = absurd cc
  last_above k (suc n) i [] a h = absurd cc
  last_above k (suc zero) i (t ∷ ts) (a, _) h = ground arith
  last_above k (suc (suc n)) i (t ∷ []) (a, _) h = ground arith
  last_above k (suc (suc n)) i (t ∷ u ∷ ts) (a, b) h = last_above k (suc n) i (u ∷ ts) b h

  -- What comes after a page that ends in `i`.
  pub since-last :
      (n i : ℕ) (ts : Trades F)
      → IsAscending ts
      → last_of (take n ts) ≡ some i
      → since (suc i) ts ≡ drop n ts
  since-last zero i ts a h = absurd cc
  since-last (suc n) i [] a h = absurd cc
  since-last (suc zero) i (t ∷ ts) (a, _) h =
      let at : t.0 ≡ i = ground arith in
      let rest = since_entire (suc i) ts (All-map ts (λ u b. omega (arith, at, b)) a) in
      ground (arith, rest)
  since-last (suc (suc n)) i (t ∷ []) a h = ground arith
  since-last (suc (suc n)) i (t ∷ u ∷ ts) (a, as') h =
      let below = last_above (suc t.0) (suc n) i (u ∷ ts) a h in
      let rest = since-last (suc n) i (u ∷ ts) as' h in ground (arith, rest)

  pub last_of-some :
      (n : ℕ) (ts : Trades F) → 1 ≤ length (take n ts) → (i : ℕ) × (last_of (take n ts) ≡ some i)
  last_of-some zero ts h = absurd (omega arith)
  last_of-some (suc n) [] h = absurd (omega arith)
  last_of-some (suc zero) (t ∷ ts) h = (t.0, refl)
  last_of-some (suc (suc n)) (t ∷ []) h = (t.0, refl)
  last_of-some (suc (suc n)) (t ∷ u ∷ ts) h = last_of-some (suc n) (u ∷ ts) (omega arith)
