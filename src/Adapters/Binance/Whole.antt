-- ===== src/Adapters/Binance/Whole.antt =====
-- All walks together fetch all histories, in whatever order the answers come, unless the budget
-- ends (backend/app/exchanges/binance.py).
use coin_hq.Base.{
  ℕ, ◌≤◌, List, [], ◌∷◌, ◌++◌, Option, none, some, ◌≡◌, refl, ap, ◌⊎◌, inl, inr, arith,
  if◌then◌else◌, Bool-cases, nat_beq,
}
use coin_hq.Base.Text.{Text}
use coin_hq.CostBasis.{Fill}
use coin_hq.Adapters.Binance.Walk.{
  Walk, Pool, fill_max_calls, start, resume_at, update_pool, answer_walk, run, all_fills,
}
use coin_hq.Adapters.Binance.Budget.{waits, waiting}
use coin_hq.Adapters.Binance.Trades.{Trades, IsAscending, fills_in}
use coin_hq.Adapters.Binance.Tracks.{
  serve, Fits, Tracks, Moves, resume_at-Moves, start_walks-Tracks,
}

module _ {F : Type 0} (history : Text → Text → Trades F) where
  -- All fills of the markets, in order.
  abbrev pub whole : List (Text × Text) → List (Fill F)
  whole [] = []
  whole ((b, q) ∷ ms) = fills_in (history b q) ++ whole ms

  Tracks-whole :
      (left : ℕ) (ms : List (Text × Text)) (ws : List (Walk F))
      → Tracks history left ms ws
      → waiting ws ≡ 0
      → 1 ≤ left
      → all_fills ws ≡ whole ms
  unfolding Tracks Fits
  Tracks-whole left [] [] t none_out more = refl
  Tracks-whole left [] (w ∷ ws) t none_out more = absurd t
  Tracks-whole left (m ∷ ms) [] t none_out more = absurd t
  Tracks-whole left (m ∷ ms) (w ∷ ws) ((hb, hq, inl (d, inl spent)), t) none_out more =
      absurd (omega (arith, spent))
  Tracks-whole left ((b, q) ∷ ms) (w ∷ ws) ((hb, hq, inl (d, inr o)), t) none_out more =
      let rest : waiting ws ≡ 0 = omega arith in rw (o, Tracks-whole left ms ws t rest more) refl
  Tracks-whole left (m ∷ ms) (w ∷ ws) ((hb, hq, inr (d, along)), t) none_out more =
      let busy : waits w ≡ 1 = ap (λ x. if x then 0 else 1) d in absurd (omega (arith, busy))

  -- A run that raises nothing: a walk still waits, no call is left, or all fills are there.
  abbrev pub Completes : List (Text × Text) → Option (Pool F) → Type 0
  Completes ms none = ⊥
  Completes ms (some p) = (1 ≤ waiting p.walks) ⊎ ((p.left ≡ 0) ⊎ (all_fills p.walks ≡ whole ms))

  TracksPool : List (Text × Text) → Option (Pool F) → Type 0
  TracksPool ms none = ⊥
  TracksPool ms (some p) = Tracks history p.left ms p.walks

  update_pool-TracksPool :
      (left answered : ℕ) (ms : List (Text × Text)) (o : Option (ℕ × ℕ × List (Walk F)))
      → Moves history left ms o
      → TracksPool ms (update_pool (serve history) answered o)
  unfolding Moves TracksPool
  update_pool-TracksPool left answered ms none h = h
  update_pool-TracksPool left answered ms (some (left', n, ws)) (t, le) = t

  run-TracksPool :
      (schedule : List ℕ) (ms : List (Text × Text)) (o : Option (Pool F))
      → ((base quote : Text) → IsAscending (history base quote))
      → TracksPool ms o
      → TracksPool ms (run (serve history) schedule o)
  unfolding run answer_walk
  run-TracksPool schedule ms none asc t = unfold TracksPool in absurd t
  run-TracksPool [] ms (some p) asc t = t
  run-TracksPool (i ∷ schedule) ms (some p) asc t =
      run-TracksPool schedule ms (answer_walk (serve history) i p) asc (
        update_pool-TracksPool p.left p.answered ms (resume_at (serve history) i p.left p.walks)
          (resume_at-Moves history i p.left ms p.walks asc (unfold TracksPool in t)))

  TracksPool-Completes :
      (ms : List (Text × Text)) (o : Option (Pool F)) → TracksPool ms o → Completes ms o
  unfolding TracksPool
  TracksPool-Completes ms none t = t
  TracksPool-Completes ms (some p) t = elim (Bool-cases (nat_beq (waiting p.walks) 0)) [
    | inl ended ↦ elim (Bool-cases (nat_beq p.left 0)) [
      | inl spent ↦ inr (inl (ground arith))
      | inr more ↦ inr (inr (Tracks-whole p.left ms p.walks t (ground arith) (ground arith)))
    ]
    | inr out ↦ inl (ground arith)
  ]

  -- The walks over Binance's markets fetch all of the history. The trades of each market have
  -- ascending ids, and the exchange answers a walk with the first page of those from the asked
  -- id on. Then no order of the answers raises an exception, and when no walk waits any more
  -- and a call is left, the fills are those of all trades of all markets, in order.
  pub run-start-Completes :
      (markets : List (Text × Text)) (schedule : List ℕ)
      → ((base quote : Text) → IsAscending (history base quote))
      → Completes markets (run (serve history) schedule (some (start markets)))
  unfolding start
  run-start-Completes markets schedule asc =
      TracksPool-Completes markets (run (serve history) schedule (some (start markets))) (
        run-TracksPool schedule markets (some (start markets)) asc
          (unfold TracksPool in (start_walks-Tracks history fill_max_calls markets asc).0))
