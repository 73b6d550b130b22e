-- ===== src/CostBasis/PerAsset.antt =====
-- A position is made of the fills of its own asset (backend/app/services/cost_basis_service.py).
use coin_hq.Base.{
  ◌≡◌, refl, List, [], ◌∷◌, Option, none, some, if◌then◌else◌, keep, arith, ◌==◌, Bool-cases, inl,
  inr, Option-cases, sym,
}
use coin_hq.Base.Text.{Text, text_eq, text_beq_iff}
use coin_hq.Base.Dict.{Dict, lookup, lookup-insert}
use coin_hq.Number.{Number}
use coin_hq.CostBasis.{
  Fill, Position, no_position, apply_fill, add_fill, add_fills, start_positions,
}

module _ {F : Type 0} ⦃n : Number F⦄ where
  abbrev pub fills_in : Text → List (Fill F) → List (Fill F)
  fills_in a = keep (λ f. f.asset == a)

  -- The loop on one position.
  unfoldable pub run_fills : Position F → List (Fill F) → Position F
  run_fills pos [] = pos
  run_fills pos (f ∷ fs) = run_fills (apply_fill f pos) fs

  -- What an asset comes to, if it is held.
  abbrev pub outcome_of : Option (Position F) → List (Fill F) → Option (Position F)
  outcome_of none fs = none
  outcome_of (some pos) fs = some (run_fills pos fs)

  -- One fill, on the position of its asset.
  abbrev touched : Option (Position F) → Fill F → Option (Position F)
  touched none f = none
  touched (some pos) f = some (apply_fill f pos)

  lookup-add_fill :
      (a : Text) (positions : Dict Text (Position F)) (f : Fill F)
      → lookup a (add_fill positions f)
        ≡ (if f.asset == a then touched (lookup a positions) f else lookup a positions)
  unfolding add_fill
  lookup-add_fill a positions f = elim (Option-cases (lookup f.asset positions)) [
    | inl missing ↦ ground (arith, text_beq_iff f.asset a)
    | inr (pos, found) ↦ ground (
      arith,
      lookup-insert a f.asset (apply_fill f pos) positions,
      text_beq_iff f.asset a,
      text_beq_iff a f.asset,
    )
  ]

  outcome_of_nil : (known : Option (Position F)) → outcome_of known [] ≡ known
  unfolding run_fills
  outcome_of_nil none = refl
  outcome_of_nil (some pos) = refl

  outcome_of-touched :
      (known : Option (Position F)) (f : Fill F) (fs : List (Fill F))
      → outcome_of (touched known f) fs ≡ outcome_of known (f ∷ fs)
  unfolding run_fills
  outcome_of-touched none f fs = refl
  outcome_of-touched (some pos) f fs = refl

  add_fills-outcome_of :
      (a : Text) (positions : Dict Text (Position F)) (fs : List (Fill F))
      → lookup a (add_fills positions fs) ≡ outcome_of (lookup a positions) (fills_in a fs)
  unfolding add_fills
  add_fills-outcome_of a positions [] = sym (outcome_of_nil (lookup a positions))
  add_fills-outcome_of a positions (f ∷ fs) = elim (Bool-cases (f.asset == a)) [
    | inl same ↦ rw (
      add_fills-outcome_of a (add_fill positions f) fs,
      lookup-add_fill a positions f,
      same,
      outcome_of-touched (lookup a positions) f (fills_in a fs),
    )
    | inr other ↦
        rw (add_fills-outcome_of a (add_fill positions f) fs, lookup-add_fill a positions f, other)
  ]

  -- An asset starts from nothing, if it is held.
  abbrev pub start_of : Option F → Option (Position F)
  start_of none = none
  start_of (some held) = some no_position

  start_positions-start_of :
      (a : Text) (held : Dict Text F) → lookup a (start_positions held) ≡ start_of (lookup a held)
  unfolding lookup
  start_positions-start_of a [] = refl
  start_positions-start_of a ((b, q) ∷ d) = elim (Bool-cases (a == b)) [
    | inl same ↦ rw same
    | inr other ↦ rw other (start_positions-start_of a d)
  ]

  -- The loop of `compute_avco` over all fills leaves for each held asset what it leaves when it
  -- runs over that asset's fills alone, from an empty position; an asset that is not held has
  -- no position.
  pub add_fills-PerAsset :
      (a : Text) (held : Dict Text F) (fs : List (Fill F))
      → lookup a (add_fills (start_positions held) fs)
        ≡ outcome_of (start_of (lookup a held)) (fills_in a fs)
  add_fills-PerAsset a held fs =
      rw (add_fills-outcome_of a (start_positions held) fs, start_positions-start_of a held)
