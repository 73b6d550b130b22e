-- ===== src/Waitlist.antt =====
-- The waitlist: backend/app/api/v1/waitlist.py. The body's email is as its schema leaves it.
use coin_hq.Base.{
  ℕ, ◌≡◌, [], ◌∷◌, ◌++◌, Option, none, some, find, find-append_none, ◌==◌, arith, Option-cases, inl,
  inr,
}
use coin_hq.Base.Text.{Text, text, text_eq, text_beq_iff}
use coin_hq.Store.{Waitlist, Db, Action, ok, ◌>>=◌, ◌>>◌, gets, fresh_id, modify, pure}

module _ {F : Type 0} where
  abbrev pub find_entry : Text → Db F → Option Waitlist
  find_entry email d = find (λ w. w.email == email) d.waitlist

  unfoldable pub add_entry : Text → Option Text → Action F Waitlist
  add_entry email plan = do
    i ← fresh_id
    let entry : Waitlist = record { id = i; email = email; plan = plan; source = some (text "web") }
    modify (λ d. record d { waitlist = d.waitlist ++ entry ∷ [] })
    pure entry

  -- The answer's status code, and the entry.
  abbrev answer : Text → Option Text → Option Waitlist → Action F (ℕ × Waitlist)
  answer email plan (some entry) = pure (200, entry)
  answer email plan none = do entry ← add_entry email plan; pure (201, entry)

  unfoldable pub join_waitlist : Text → Option Text → Action F (ℕ × Waitlist)
  unfolding add_entry
  join_waitlist email plan = do existing ← gets (find_entry email); answer email plan existing

  -- Joining the waitlist is idempotent: where a first call answers with an entry, a second one
  -- right after it with the same email, whatever its plan, answers with that entry and status
  -- 200, and changes nothing.
  join_waitlist_twice :
      (email : Text) (plan plan' : Option Text) (d : Db F) (code : ℕ) (entry : Waitlist)
      → (join_waitlist email plan d).0 ≡ ok (code, entry)
      → let e = (join_waitlist email plan d).1 in join_waitlist email plan' e ≡ (ok (200, entry), e)
  unfolding join_waitlist
  join_waitlist_twice email plan plan' d code entry h = elim (Option-cases (find_entry email d)) [
    | inl missing ↦ ground (
      arith,
      find-append_none (λ w. w.email == email) d.waitlist
          (record { id = d.next_id; email = email; plan = plan; source = some (text "web") })
          missing,
      text_beq_iff email email,
    )
    | inr (w, found) ↦ ground arith
  ]
