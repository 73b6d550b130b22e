-- ===== src/Adapters/Pages/Newest.antt =====
-- What Kraken's pages add up to: the newest trades (backend/app/exchanges/kraken.py).
use coin_hq.Base.{
  ℕ, zero, suc, ◌+◌, ◌*◌, ◌≤◌, ◌||◌, List, [], ◌∷◌, ◌++◌, append_assoc, append-nil, map-append,
  Option, none, some, ◌≡◌, refl, sym, ap, ◌∙◌, arith, map, take, drop, length, leb, nat_beq,
  Bool-cases, inl, inr,
}
use coin_hq.Base.Text.{Text, text_eq, upper}
use coin_hq.Base.Dict.{Dict}
use coin_hq.Number.{Number}
use coin_hq.CostBasis.{Fill}
use coin_hq.Adapters.Fills.{FillRow, KrakenPair, add_pairs, parse_kraken}
use coin_hq.Adapters.Pages.{
  KrakenPage, kraken_max_pages, keep_wanted, kraken_turn, kraken_pages, kraken_fills,
}

module _ {A : Type 0} where
  take-none : (k : ℕ) (xs : List A) → xs ≡ [] → take k xs ≡ []
  take-none zero xs h = refl
  take-none (suc k) [] h = refl
  take-none (suc k) (x ∷ xs) h = absurd cc

  take-plus : (m k : ℕ) (xs : List A) → take (m + k) xs ≡ take m xs ++ take k (drop m xs)
  take-plus zero k xs = let same : zero + k ≡ k = omega arith in ap (λ i. take i xs) same
  take-plus (suc m) k [] = take-none (suc m + k) [] refl ∙ sym (take-none k [] refl)
  take-plus (suc m) k (x ∷ xs) =
      let same : suc m + k ≡ suc (m + k) = omega arith in
      ap (λ i. take i (x ∷ xs)) same ∙ ap (◌∷◌ x) (take-plus m k xs)

  drop-nil : (k : ℕ) → drop {A = A} k [] ≡ []
  drop-nil zero = refl
  drop-nil (suc k) = refl

  drop-plus : (m k : ℕ) (xs : List A) → drop (m + k) xs ≡ drop k (drop m xs)
  drop-plus zero k xs = let same : zero + k ≡ k = omega arith in ap (λ i. drop i xs) same
  drop-plus (suc m) k [] = drop-nil (suc m + k) ∙ sym (drop-nil k)
  drop-plus (suc m) k (x ∷ xs) =
      let same : suc m + k ≡ suc (m + k) = omega arith in
      ap (λ i. drop i (x ∷ xs)) same ∙ drop-plus m k xs

  -- What comes after a page, whether or not the page is full.
  drop-length-take : (m : ℕ) (xs : List A) → drop (length (take m xs)) xs ≡ drop m xs
  drop-length-take zero xs = refl
  drop-length-take (suc m) [] = refl
  drop-length-take (suc m) (x ∷ xs) = drop-length-take m xs

  drop-past : (m : ℕ) (xs : List A) → length xs ≤ length (take m xs) → drop m xs ≡ []
  drop-past zero [] h = refl
  drop-past zero (x ∷ xs) h = absurd (omega (arith, h))
  drop-past (suc m) [] h = refl
  drop-past (suc m) (x ∷ xs) h = drop-past m xs (omega (arith, h))

  -- A page that reaches the end is the last one.
  last_page :
      (o m : ℕ) (xs : List A)
      → length xs ≤ o + length (take m (drop o xs))
      → drop m (drop o xs) ≡ []
  last_page zero m xs h = drop-past m xs (omega (arith, h))
  last_page (suc o) m [] h = drop-nil m
  last_page (suc o) m (x ∷ xs) h = last_page o m xs (omega (arith, h))

  empty_page : (m : ℕ) (xs : List A) → 1 ≤ m → length (take m xs) ≡ 0 → drop m xs ≡ []
  empty_page zero xs more h = absurd (omega (arith, more))
  empty_page (suc m) [] more h = refl
  empty_page (suc m) (x ∷ xs) more h = absurd (omega (arith, h))

  whole_page : (m k : ℕ) (xs : List A) → drop m xs ≡ [] → take (m + k) xs ≡ take m xs
  whole_page m k xs h =
      take-plus m k xs
      ∙ ap (λ ys. take m xs ++ ys) (take-none k (drop m xs) h)
      ∙ append-nil (take m xs)

module _ {F : Type 0} where
  -- The exchange, as it documents its pages: `m` trades from an offset, and the count of all.
  abbrev pub serve_trades : ℕ → List (FillRow F) → ℕ → Option (KrakenPage F)
  serve_trades m history offset =
      some record { trades = take m (drop offset history); count = length history }

  keep_wanted-append :
      (wanted : List Text) (fs gs : List (Option (Fill F)))
      → keep_wanted wanted (fs ++ gs) ≡ keep_wanted wanted fs ++ keep_wanted wanted gs
  unfolding keep_wanted
  keep_wanted-append wanted [] gs = refl
  keep_wanted-append wanted (none ∷ fs) gs = keep_wanted-append wanted fs gs
  keep_wanted-append wanted (some f ∷ fs) gs = ground (arith, keep_wanted-append wanted fs gs)

  keep_wanted-nil : (fs : List (Option (Fill F))) → keep_wanted [] fs ≡ []
  unfolding keep_wanted
  keep_wanted-nil [] = refl
  keep_wanted-nil (none ∷ fs) = keep_wanted-nil fs
  keep_wanted-nil (some f ∷ fs) = keep_wanted-nil fs

module _ {F : Type 0} ⦃n : Number F⦄ (pair_map : Dict Text (Text × Text)) where
  -- The fills of the rows that parse and are of a wanted asset.
  abbrev pub wanted_in : List Text → List (FillRow F) → List (Fill F)
  wanted_in wanted rows = keep_wanted wanted (map (parse_kraken pair_map) rows)

  wanted_in-append :
      (wanted : List Text) (rs ss : List (FillRow F))
      → wanted_in wanted (rs ++ ss) ≡ wanted_in wanted rs ++ wanted_in wanted ss
  wanted_in-append wanted rs ss =
      ap (keep_wanted wanted) (map-append (parse_kraken pair_map) rs ss)
      ∙ keep_wanted-append wanted (map (parse_kraken pair_map) rs) (map (parse_kraken pair_map) ss)

  turn-newest :
      (go : ℕ → List (Fill F) → Option (List (Fill F))) (m k offset : ℕ)
      (history : List (FillRow F)) (wanted : List Text) (fills : List (Fill F))
      → 1 ≤ m
      → ((offset' : ℕ) (fills' : List (Fill F))
          → go offset' fills' ≡ some (fills' ++ wanted_in wanted (take k (drop offset' history))))
      → kraken_turn go pair_map wanted offset fills (serve_trades m history offset)
        ≡ some (fills ++ wanted_in wanted (take (m + k) (drop offset history)))
  turn-newest go m k offset history wanted fills more ih =
      let rest = drop offset history in
      let page = take m rest in
      let stops = nat_beq (length page) 0 || leb (length history) (offset + length page) in
      elim (Bool-cases stops) [
        | inl ends ↦
            let over : drop m rest ≡ [] = elim (Bool-cases (nat_beq (length page) 0)) [
              | inl empty ↦ empty_page m rest more (ground (arith, empty))
              | inr full ↦ last_page offset m history (ground (arith, full, ends))
            ] in
            rw (ends, whole_page m k rest over) refl
        | inr goes_on ↦
            let next : drop (offset + length page) history ≡ drop m rest =
              drop-plus offset (length page) history ∙ drop-length-take m rest in
            let joined = wanted_in-append wanted page (take k (drop m rest)) in
            rw goes_on (
              ih (offset + length page) (fills ++ wanted_in wanted page)
              ∙ rw (next, take-plus m k rest, joined)
                  (ap some (
                    append_assoc fills (wanted_in wanted page)
                      (wanted_in wanted (take k (drop m rest))))))
      ]

  kraken_pages-newest :
      (m : ℕ) (history : List (FillRow F)) (wanted : List Text)
      → 1 ≤ m
      → (k offset : ℕ) (fills : List (Fill F))
      → kraken_pages (serve_trades m history) pair_map wanted k offset fills
        ≡ some (fills ++ wanted_in wanted (take (k * m) (drop offset history)))
  unfolding kraken_pages
  kraken_pages-newest m history wanted more zero offset fills =
      let none_left : zero * m ≡ zero = omega arith in
      rw none_left (ap some (sym (append-nil fills)))
  kraken_pages-newest m history wanted more (suc k) offset fills =
      let next : suc k * m ≡ m + k * m = omega arith in
      rw next (
        turn-newest (kraken_pages (serve_trades m history) pair_map wanted k) m (k * m) offset
          history wanted fills more (kraken_pages-newest m history wanted more k))

module _ {F : Type 0} ⦃n : Number F⦄ where
  -- Kraken's trade history is read to the end, or five pages of it. The exchange answers an
  -- offset with the next m of its trades, newest first, and the count of all, for some m above
  -- 0. Then the fills are those of the first five times m trades, in order, that can be read
  -- and whose asset is asked for.
  pub kraken_fills-newest :
      (m : ℕ) (pairs : List KrakenPair) (history : List (FillRow F)) (assets : List Text)
      → 1 ≤ m
      → kraken_fills (some pairs) (serve_trades m history) assets
        ≡ some (
            wanted_in (add_pairs pairs []) (map upper assets) (take (kraken_max_pages * m) history))
  unfolding kraken_fills
  kraken_fills-newest m pairs history [] more = ap some (
      sym (
        keep_wanted-nil
          (map (parse_kraken (add_pairs pairs [])) (take (kraken_max_pages * m) history))))
  kraken_fills-newest m pairs history (a ∷ assets) more =
      kraken_pages-newest (add_pairs pairs []) m history (map upper (a ∷ assets)) more
        kraken_max_pages 0 []
