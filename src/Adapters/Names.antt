-- ===== src/Adapters/Names.antt =====
-- Kraken's names of assets (backend/app/exchanges/kraken.py).
use coin_hq.Base.{
  ℕ, false, ◌||◌, [], ◌∷◌, none, some, ◌≡◌, refl, sym, ap, ◌∙◌, arith, All, ◌==◌, nat_beq,
  Bool-cases, Option-cases, inl, inr,
}
use coin_hq.Base.Text.{Text, text_eq, text_beq}
use coin_hq.Base.Dict.{Dict, lookup}
use coin_hq.Adapters.Holdings.{kraken_asset_map, strip_class, named_or, normalize_kraken_asset}

uneven : (d e f w x y z : ℕ) → text_beq (d ∷ e ∷ f ∷ []) (w ∷ x ∷ y ∷ z ∷ []) ≡ false
unfolding text_beq
uneven d e f w x y z = ground arith

lookup-none : (k : Text) (m : Dict Text Text) → All (λ p. (k == p.0) ≡ false) m → lookup k m ≡ none
unfolding lookup
lookup-none k [] h = refl
lookup-none k ((j, v) ∷ m) (h, hs) = rw h (lookup-none k m hs)

lookup-All :
    (P : Text → Type 0) (k : Text) (m : Dict Text Text) (v : Text)
    → lookup k m ≡ some v
    → All (λ p. P p.1) m
    → P v
unfolding lookup
lookup-All P k [] v found h = absurd cc
lookup-All P k ((j, w) ∷ m) v found (h, hs) = elim (Bool-cases (k == j)) [
  | inl is ↦ let same : some w ≡ some v = rw is at found in let e : w ≡ v = cc in rw (← e) h
  | inr isnt ↦ lookup-All P k m v (rw isnt at found) hs
]

-- A code of three letters is none of Kraken's own.
short_code : (d e f : ℕ) → lookup (d ∷ e ∷ f ∷ []) kraken_asset_map ≡ none
short_code d e f =
    let u = uneven d e f in
    lookup-none (d ∷ e ∷ f ∷ []) kraken_asset_map (
      u _ _ _ _,
      (
        u _ _ _ _,
        (
          u _ _ _ _,
          (
            u _ _ _ _,
            (
              u _ _ _ _,
              (u _ _ _ _, (u _ _ _ _, (u _ _ _ _, (u _ _ _ _, (u _ _ _ _, (u _ _ _ _, tt)))))),
            ),
          ),
        ),
      ),
    )

short_name : (d e f : ℕ) → normalize_kraken_asset (d ∷ e ∷ f ∷ []) ≡ d ∷ e ∷ f ∷ []
unfolding normalize_kraken_asset strip_class
short_name d e f = rw (short_code d e f) refl

strip_class_idem :
    (asset : Text)
    → lookup asset kraken_asset_map ≡ none
    → normalize_kraken_asset (strip_class asset) ≡ strip_class asset
unfolding normalize_kraken_asset strip_class
strip_class_idem [] h = rw h refl
strip_class_idem (c ∷ []) h = rw h refl
strip_class_idem (c ∷ d ∷ []) h = rw h refl
strip_class_idem (c ∷ d ∷ e ∷ []) h = rw h refl
strip_class_idem (c ∷ d ∷ e ∷ f ∷ []) h = elim (Bool-cases (nat_beq c b'X' || nat_beq c b'Z')) [
  | inl classed ↦ rw classed (short_name d e f)
  | inr bare ↦ rw bare (rw h (rw bare refl))
]
strip_class_idem (c ∷ d ∷ e ∷ f ∷ g ∷ s) h = rw h refl

-- A name that is made standard stays as it is when it is made standard once more.
normalize_kraken_asset_idem :
    (asset : Text)
    → normalize_kraken_asset (normalize_kraken_asset asset) ≡ normalize_kraken_asset asset
normalize_kraken_asset_idem asset = elim (Option-cases (lookup asset kraken_asset_map)) [
  | inl unknown ↦
      let e : normalize_kraken_asset asset ≡ strip_class asset =
        unfold normalize_kraken_asset in ap (named_or asset) unknown in
      ap normalize_kraken_asset e ∙ strip_class_idem asset unknown ∙ sym e
  | inr (name, known) ↦
      let e : normalize_kraken_asset asset ≡ name =
        unfold normalize_kraken_asset in ap (named_or asset) known in
      let fixed =
        lookup-All (λ v. normalize_kraken_asset v ≡ v) asset kraken_asset_map name known
          (
            short_name _ _ _,
            (
              short_name _ _ _,
              (
                short_name _ _ _,
                (
                  short_name _ _ _,
                  (
                    short_name _ _ _,
                    (
                      short_name _ _ _,
                      (
                        short_name _ _ _,
                        (
                          short_name _ _ _,
                          (short_name _ _ _, (short_name _ _ _, (short_name _ _ _, tt))),
                        ),
                      ),
                    ),
                  ),
                ),
              ),
            ),
          ) in
      ap normalize_kraken_asset e ∙ fixed ∙ sym e
]
