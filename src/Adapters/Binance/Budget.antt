-- ===== src/Adapters/Binance/Budget.antt =====
-- The budget of calls holds for all walks together, in whatever order the answers come
-- (backend/app/exchanges/binance.py).
use coin_hq.Base.{
  ℕ, zero, suc, ◌+◌, Bool, true, false, List, [], ◌∷◌, Option, none, some, ◌≡◌, refl, subst, arith,
  if◌then◌else◌,
}
use coin_hq.Base.Text.{Text}
use coin_hq.Adapters.Binance.Walk.{
  Answer, Walk, Pool, fill_max_calls, receive, claim, claim_again, new_walk, answer_first, advance,
  put_first, put_after, start_walks, start, resume_at, update_pool, answer_walk, run,
}

module _ {F : Type 0} where
  abbrev pub waits : Walk F → ℕ
  waits w = if w.is_done then 0 else 1

  -- The calls that are out.
  abbrev pub waiting : List (Walk F) → ℕ
  waiting [] = 0
  waiting (w ∷ ws) = waits w + waiting ws

  claim-waits : (left : ℕ) (w : Walk F) → (claim left w).0 + waits (claim left w).1 ≡ left
  unfolding claim
  claim-waits left w = ground arith

start_walks-waiting :
    (F : Type 0) (left : ℕ) (markets : List (Text × Text))
    → let out = start_walks {F = F} left markets in out.0 + waiting out.1 ≡ left
unfolding start_walks
start_walks-waiting F left [] = ground arith
start_walks-waiting F left ((base, quote) ∷ markets) =
    let first = claim left (new_walk {F = F} base quote) in
    let h = claim-waits left (new_walk {F = F} base quote) in
    let h' = start_walks-waiting F first.0 markets in omega (arith, h, h')

module _ {F : Type 0} where
  -- The budget of a pool adds up.
  abbrev pub IsBudgeted : Pool F → Type 0
  IsBudgeted p = p.left + p.answered + waiting p.walks ≡ fill_max_calls

  -- A pool, or an exception, keeps the budget.
  abbrev pub AllBudgeted : Option (Pool F) → Type 0
  AllBudgeted none = Unit
  AllBudgeted (some p) = IsBudgeted p

  -- What is left and what is out, with the answers that came.
  Balances : ℕ → Option (ℕ × ℕ × List (Walk F)) → Type 0
  Balances total none = Unit
  Balances total (some (left, n, ws)) = left + n + waiting ws ≡ total

  claim_again-Balances :
      (left : ℕ) (o : Option (Walk F)) (ws : List (Walk F))
      → Balances (left + 1 + waiting ws) (put_first ws (claim_again left o))
  unfolding Balances
  claim_again-Balances left none ws = tt
  claim_again-Balances left (some w) ws = let h = claim-waits left w in omega (arith, h)

  put_after-Balances :
      (w : Walk F) (total : ℕ) (o : Option (ℕ × ℕ × List (Walk F)))
      → Balances total o
      → Balances (waits w + total) (put_after w o)
  unfolding Balances
  put_after-Balances w total none h = tt
  put_after-Balances w total (some (left, n, ws)) h = omega (arith, h)

module _ {F : Type 0} (serve : Text → Text → ℕ → Answer F) where
  answer_first-Balances :
      (is_done : Bool) (left : ℕ) (w : Walk F) (ws : List (Walk F))
      → w.is_done ≡ is_done
      → Balances
          (left + ((if is_done then 0 else 1) + waiting ws))
          (answer_first serve is_done left w ws)
  answer_first-Balances true left w ws h = unfold Balances in ground arith
  answer_first-Balances false left w ws h =
      let same : left + 1 + waiting ws ≡ left + (1 + waiting ws) = omega arith in
      subst (λ t. Balances t (put_first ws (advance serve left w))) same
        (claim_again-Balances left (receive (serve w.base w.quote w.from_id) w) ws)

  resume_at-Balances :
      (i left : ℕ) (ws : List (Walk F)) → Balances (left + waiting ws) (resume_at serve i left ws)
  unfolding resume_at
  resume_at-Balances i left [] = unfold Balances in ground arith
  resume_at-Balances zero left (w ∷ ws) = answer_first-Balances w.is_done left w ws refl
  resume_at-Balances (suc i) left (w ∷ ws) =
      let same : waits w + (left + waiting ws) ≡ left + (waits w + waiting ws) = omega arith in
      subst (λ t. Balances t (put_after w (resume_at serve i left ws))) same
        (put_after-Balances w (left + waiting ws) (resume_at serve i left ws)
          (resume_at-Balances i left ws))

  update_pool-AllBudgeted :
      (p : Pool F) (o : Option (ℕ × ℕ × List (Walk F)))
      → IsBudgeted p
      → Balances (p.left + waiting p.walks) o
      → AllBudgeted (update_pool serve p.answered o)
  unfolding Balances
  update_pool-AllBudgeted p none h b = tt
  update_pool-AllBudgeted p (some (left, n, ws)) h b = omega (arith, h, b)

  run-AllBudgeted :
      (schedule : List ℕ) (o : Option (Pool F)) → AllBudgeted o → AllBudgeted (run serve schedule o)
  unfolding run answer_walk
  run-AllBudgeted schedule none h = tt
  run-AllBudgeted [] (some p) h = h
  run-AllBudgeted (i ∷ schedule) (some p) h = run-AllBudgeted schedule (answer_walk serve i p) (
      update_pool-AllBudgeted p (resume_at serve i p.left p.walks) h
        (resume_at-Balances i p.left p.walks))

  -- All walks over Binance's markets share one budget: in any order of the answers, whatever
  -- they are, the answers that came, the calls that are out and those that are left are 150
  -- together, unless an exception ends the run.
  pub run-start-AllBudgeted :
      (markets : List (Text × Text)) (schedule : List ℕ)
      → AllBudgeted (run serve schedule (some (start markets)))
  unfolding start
  run-start-AllBudgeted markets schedule =
      let h = start_walks-waiting F fill_max_calls markets in
      run-AllBudgeted schedule (some (start markets)) (omega (arith, h))
