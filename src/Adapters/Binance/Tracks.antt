-- ===== src/Adapters/Binance/Tracks.antt =====
-- Each walk keeps to the history of its market, in whatever order the answers come
-- (backend/app/exchanges/binance.py).
use coin_hq.Base.{
  ℕ, zero, suc, ◌-◌, ◌≤◌, Bool, true, false, List, [], ◌∷◌, Option, none, some, ◌≡◌, refl, sym, ap,
  subst, ◌∙◌, ◌⊎◌, inl, inr, arith, ltb, if◌then◌else◌, Bool-cases,
}
use coin_hq.Base.Text.{Text}
use coin_hq.Adapters.Binance.Walk.{
  stop, Answer, rows, Walk, receive, claim, claim_again, new_walk, advance, put_first, put_after,
  answer_first, start_walks, resume_at,
}
use coin_hq.Adapters.Binance.Trades.{Trades, IsAscending, since, fills_in}
use coin_hq.Adapters.Binance.Complete.{page, IsAlong, Advances, receive-Advances}

module _ {F : Type 0} (left : ℕ) (w : Walk F) where
  claim_done : w.is_done ≡ true → claim left w ≡ (left, w)
  unfolding claim
  claim_done d =
      ap (λ x. if x then (left, w) else if ltb 0 left then (left - 1, w) else (left, stop w)) d

  claim_next : w.is_done ≡ false → ltb 0 left ≡ true → claim left w ≡ (left - 1, w)
  unfolding claim
  claim_next d more =
      ap (λ x. if x then (left, w) else if ltb 0 left then (left - 1, w) else (left, stop w)) d
      ∙ ap (λ x. if x then (left - 1, w) else (left, stop w)) more

  claim_spent : w.is_done ≡ false → ltb 0 left ≡ false → claim left w ≡ (left, stop w)
  unfolding claim
  claim_spent d spent =
      ap (λ x. if x then (left, w) else if ltb 0 left then (left - 1, w) else (left, stop w)) d
      ∙ ap (λ x. if x then (left - 1, w) else (left, stop w)) spent

since_zero : {F : Type 0} (ts : Trades F) → since 0 ts ≡ ts
since_zero [] = refl
since_zero (t ∷ ts) = ground (arith, since_zero ts)

module _ {F : Type 0} (history : Text → Text → Trades F) where
  -- The exchange, as it documents its pages.
  abbrev pub serve : Text → Text → ℕ → Answer F
  serve base quote from_id = rows (page (history base quote) from_id)

  -- A walk of a market: if it is done, it has all fills, or no call is left.
  unfoldable pub Fits : ℕ → Text × Text → Walk F → Type 0
  Fits left (b, q) w =
      (w.base ≡ b)
      × (w.quote ≡ q)
      × (((w.is_done ≡ true) × ((left ≡ 0) ⊎ (w.out ≡ fills_in (history b q))))
          ⊎ ((w.is_done ≡ false) × IsAlong (history b q) w))

  Fits-less :
      (left left' : ℕ) (m : Text × Text) (w : Walk F)
      → left' ≤ left
      → Fits left m w
      → Fits left' m w
  unfolding Fits
  Fits-less left left' (b, q) w le (hb, hq, inl (d, inl z)) =
      (hb, hq, inl (d, inl (omega (arith, le, z))))
  Fits-less left left' (b, q) w le (hb, hq, inl (d, inr o)) = (hb, hq, inl (d, inr o))
  Fits-less left left' (b, q) w le (hb, hq, inr x) = (hb, hq, inr x)

  -- What a claim leaves of the budget, and its walk.
  Claims : ℕ → Text × Text → Option (ℕ × Walk F) → Type 0
  Claims left m none = ⊥
  Claims left m (some (left', w)) = Fits left' m w × (left' ≤ left)

  claim-Claims :
      (left : ℕ) (b q : Text) (w : Walk F)
      → w.base ≡ b
      → w.quote ≡ q
      → ((w.is_done ≡ true) × (w.out ≡ fills_in (history b q)))
        ⊎ ((w.is_done ≡ false) × IsAlong (history b q) w)
      → Claims left (b, q) (some (claim left w))
  unfolding Claims Fits
  claim-Claims left b q w hb hq (inl (d, o)) =
      subst (λ p. Claims left (b, q) (some p)) (sym (claim_done left w d))
        ((hb, hq, inl (d, inr o)), omega arith)
  claim-Claims left b q w hb hq (inr (d, o)) = elim (Bool-cases (ltb 0 left)) [
    | inl more ↦
        subst (λ p. Claims left (b, q) (some p)) (sym (claim_next left w d more))
          ((hb, hq, inr (d, o)), omega arith)
    | inr spent ↦
        let nothing : left ≡ 0 = ground arith in
        subst (λ p. Claims left (b, q) (some p)) (sym (claim_spent left w d spent))
          ((hb, hq, inl (refl, inl nothing)), omega arith)
  ]

  -- A walk that waits, and its answer.
  advance-Claims :
      (left : ℕ) (b q : Text) (w : Walk F)
      → ((base quote : Text) → IsAscending (history base quote))
      → w.base ≡ b
      → w.quote ≡ q
      → w.is_done ≡ false
      → IsAlong (history b q) w
      → Claims left (b, q) (advance serve left w)
  advance-Claims left b q w ascending hb hq open' along =
      let same : history w.base w.quote ≡ history b q =
        ap (λ x. history x w.quote) hb ∙ ap (history b) hq in
      let along' : IsAlong (history w.base w.quote) w =
        subst (λ ts. IsAlong ts w) (sym same) along in
      settled (receive (serve w.base w.quote w.from_id) w) (
        subst (λ ts. Advances ts w (receive (serve w.base w.quote w.from_id) w)) same
          (receive-Advances (history w.base w.quote) w (ascending w.base w.quote) along'))
    where
      settled :
          (o : Option (Walk F))
          → Advances (history b q) w o
          → Claims left (b, q) (claim_again left o)
      settled none h = absurd h
      settled (some w') (hb', hq', inl whole) =
          claim-Claims left b q w' (hb' ∙ hb) (hq' ∙ hq) (inl whole)
      settled (some w') (hb', hq', inr (d, along'')) =
          claim-Claims left b q w' (hb' ∙ hb) (hq' ∙ hq) (inr (d ∙ open', along''))

  -- The walks of the markets, in order.
  unfoldable pub Tracks : ℕ → List (Text × Text) → List (Walk F) → Type 0
  Tracks left [] [] = Unit
  Tracks left [] (w ∷ ws) = ⊥
  Tracks left (m ∷ ms) [] = ⊥
  Tracks left (m ∷ ms) (w ∷ ws) = Fits left m w × Tracks left ms ws

  Tracks-less :
      (left left' : ℕ) (ms : List (Text × Text)) (ws : List (Walk F))
      → left' ≤ left
      → Tracks left ms ws
      → Tracks left' ms ws
  unfolding Tracks
  Tracks-less left left' [] [] le h = tt
  Tracks-less left left' [] (w ∷ ws) le h = absurd h
  Tracks-less left left' (m ∷ ms) [] le h = absurd h
  Tracks-less left left' (m ∷ ms) (w ∷ ws) le (h, hs) =
      (Fits-less left left' m w le h, Tracks-less left left' ms ws le hs)

  unfoldable pub Moves : ℕ → List (Text × Text) → Option (ℕ × ℕ × List (Walk F)) → Type 0
  Moves left ms none = ⊥
  Moves left ms (some (left', n, ws)) = Tracks left' ms ws × (left' ≤ left)

  put_first-Moves :
      (left : ℕ) (m : Text × Text) (ms : List (Text × Text)) (ws : List (Walk F))
      (o : Option (ℕ × Walk F))
      → Claims left m o
      → Tracks left ms ws
      → Moves left (m ∷ ms) (put_first ws o)
  unfolding Moves Tracks Claims
  put_first-Moves left m ms ws none h t = h
  put_first-Moves left m ms ws (some (left', w)) (h, le) t =
      ((h, Tracks-less left left' ms ws le t), le)

  put_after-Moves :
      (left : ℕ) (m : Text × Text) (ms : List (Text × Text)) (w : Walk F)
      (o : Option (ℕ × ℕ × List (Walk F)))
      → Moves left ms o
      → Fits left m w
      → Moves left (m ∷ ms) (put_after w o)
  unfolding Moves Tracks
  put_after-Moves left m ms w none h f = h
  put_after-Moves left m ms w (some (left', n, ws)) (t, le) f =
      ((Fits-less left left' m w le f, t), le)

  answer_first-Moves :
      (is_done : Bool) (left : ℕ) (m : Text × Text) (ms : List (Text × Text)) (w : Walk F)
      (ws : List (Walk F))
      → ((base quote : Text) → IsAscending (history base quote))
      → w.is_done ≡ is_done
      → Fits left m w
      → Tracks left ms ws
      → Moves left (m ∷ ms) (answer_first serve is_done left w ws)
  unfolding Fits
  answer_first-Moves true left m ms w ws asc d f t = unfold Moves Tracks in ((f, t), omega arith)
  answer_first-Moves false left m ms w ws asc d (hb, hq, inl (d', _)) t = absurd cc
  answer_first-Moves false left (b, q) ms w ws asc d (hb, hq, inr (d', along)) t =
      put_first-Moves left (b, q) ms ws (advance serve left w)
        (advance-Claims left b q w asc hb hq d' along) t

  pub resume_at-Moves :
      (i left : ℕ) (ms : List (Text × Text)) (ws : List (Walk F))
      → ((base quote : Text) → IsAscending (history base quote))
      → Tracks left ms ws
      → Moves left ms (resume_at serve i left ws)
  unfolding resume_at Tracks
  resume_at-Moves i left [] [] asc t = unfold Moves in (tt, omega arith)
  resume_at-Moves i left [] (w ∷ ws) asc t = absurd t
  resume_at-Moves zero left (m ∷ ms) [] asc t = absurd t
  resume_at-Moves (suc i) left (m ∷ ms) [] asc t = absurd t
  resume_at-Moves zero left (m ∷ ms) (w ∷ ws) asc (f, t) =
      answer_first-Moves w.is_done left m ms w ws asc refl f t
  resume_at-Moves (suc i) left (m ∷ ms) (w ∷ ws) asc (f, t) =
      put_after-Moves left m ms w (resume_at serve i left ws) (resume_at-Moves i left ms ws asc t) f

  unclaimed :
      (left : ℕ) (b q : Text) (w : Walk F)
      → Claims left (b, q) (some (claim left w))
      → Fits (claim left w).0 (b, q) (claim left w).1 × ((claim left w).0 ≤ left)
  unfolding Claims
  unclaimed left b q w h = h

  pub start_walks-Tracks :
      (left : ℕ) (ms : List (Text × Text))
      → ((base quote : Text) → IsAscending (history base quote))
      → let out = start_walks left ms in Tracks out.0 ms out.1 × (out.0 ≤ left)
  unfolding start_walks Tracks
  start_walks-Tracks left [] asc = (tt, omega arith)
  start_walks-Tracks left ((b, q) ∷ ms) asc =
      let begun : IsAlong (history b q) (new_walk b q) = ap fills_in (since_zero (history b q)) in
      let (fits, le) =
        unclaimed left b q (new_walk b q)
          (claim-Claims left b q (new_walk b q) refl refl (inr (refl, begun))) in
      let (tracks, le') = start_walks-Tracks (claim left (new_walk b q)).0 ms asc in
      (
        (Fits-less _ _ (b, q) (claim left (new_walk b q)).1 le' fits, tracks),
        omega (arith, le, le'),
      )
