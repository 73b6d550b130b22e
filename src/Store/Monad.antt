-- ===== src/Store/Monad.antt =====
-- A request handler: it reads and writes the database, and returns, raises an `HTTPException` (its
-- status code is kept, its detail text is not) or ends in another exception.
use coin_hq.Base.{ℕ, suc, Bool, Option, none, some, if◌then◌else◌, ◌≡◌, refl, ap, true, false}
use coin_hq.Store.Rows.{Db}

pub data Reply {ℓ} (A : Type ℓ) : Type ℓ where
  ok : A → Reply A
  http : ℕ → Reply A
  crash : Reply A

abbrev pub Action : Type 0 → Type 0 → Type 0
Action F A = Db F → Reply A × Db F

module _ {F A : Type 0} where
  abbrev pub pure : A → Action F A
  pure a d = (ok a, d)

  abbrev pub raise : ℕ → Action F A
  raise code d = (http code, d)

  abbrev pub gets : (Db F → A) → Action F A
  gets f d = (ok (f d), d)

  -- `if x is None: raise HTTPException(code)`
  abbrev pub or_raise : Option A → ℕ → Action F A
  or_raise none code d = (http code, d)
  or_raise (some a) code d = (ok a, d)

  -- The result of a call that may end in an exception that is not an `HTTPException`.
  abbrev pub or_crash : Option A → Action F A
  or_crash none d = (crash, d)
  or_crash (some a) d = (ok a, d)

infixl 5 ◌>>=◌ ◌>>◌
abbrev pub ◌>>=◌ : {F A B : Type 0} → Action F A → (A → Action F B) → Action F B
◌>>=◌ m f d =
    let (r, e) = m d in elim r [ ok a ↦ f a e | http c ↦ (http c, e) | crash ↦ (crash, e) ]

-- A call that has returned goes on with its result.
pub bind_ok :
    {F A B : Type 0} (m : Action F A) (f : A → Action F B) (d : Db F) {a : A} {e : Db F}
    → m d ≡ (ok a, e)
    → (m >>= f) d ≡ f a e
bind_ok m f d h =
    ap (λ p. elim p.0 [ ok a ↦ f a p.1 | http c ↦ (http c, p.1) | crash ↦ (crash, p.1) ]) h

abbrev pub ◌>>◌ : {F A B : Type 0} → Action F A → Action F B → Action F B
m >> k = m >>= λ _. k

module _ {F : Type 0} where
  -- `if c: raise HTTPException(code)`
  abbrev pub raise_if : Bool → ℕ → Action F (Unit {0})
  raise_if c code d = (if c then http code else ok tt, d)

  -- An exception that is not an `HTTPException`.
  abbrev pub crash_if : Bool → Action F (Unit {0})
  crash_if c d = (if c then crash else ok tt, d)

  -- Writes, with their commit.
  abbrev pub modify : (Db F → Db F) → Action F (Unit {0})
  modify f d = (ok tt, f d)

  -- The id that the next inserted row will get.
  abbrev pub fresh_id : Action F ℕ
  fresh_id d = (ok d.next_id, record d { next_id = suc d.next_id })

-- What holds of each way on from a first call holds of the chain.
module _ {ℓ} {F B : Type 0} (P : Reply B × Db F → Type ℓ) where
  bind_ends :
      {A : Type 0} (f : A → Action F B) (p : Reply A × Db F)
      → ((a : A) → p.0 ≡ ok a → P (f a p.1))
      → ((c : ℕ) → p.0 ≡ http c → P (http c, p.1))
      → (p.0 ≡ crash → P (crash, p.1))
      → P (elim p.0 [ ok a ↦ f a p.1 | http c ↦ (http c, p.1) | crash ↦ (crash, p.1) ])
  bind_ends f (ok a, e) on_ok on_http on_crash = on_ok a refl
  bind_ends f (http c, e) on_ok on_http on_crash = on_http c refl
  bind_ends f (crash, e) on_ok on_http on_crash = on_crash refl

  pub bind_cases :
      {A : Type 0} (m : Action F A) (f : A → Action F B) (d : Db F)
      → ((a : A) → (m d).0 ≡ ok a → P (f a (m d).1))
      → ((c : ℕ) → (m d).0 ≡ http c → P (http c, (m d).1))
      → ((m d).0 ≡ crash → P (crash, (m d).1))
      → P ((m >>= f) d)
  bind_cases m f d on_ok on_http on_crash = bind_ends f (m d) on_ok on_http on_crash

  -- A guard passes, or raises and changes nothing.
  pub raise_if_cases :
      (c : Bool) (code : ℕ) (k : Action F B) (d : Db F)
      → (c ≡ false → P (k d))
      → (c ≡ true → P (http code, d))
      → P ((raise_if c code >>= λ _. k) d)
  raise_if_cases true code k d pass stop = stop refl
  raise_if_cases false code k d pass stop = pass refl

  pub or_crash_cases :
      {A : Type 0} (o : Option A) (f : A → Action F B) (d : Db F)
      → ((a : A) → o ≡ some a → P (f a d))
      → (o ≡ none → P (crash, d))
      → P ((or_crash o >>= f) d)
  or_crash_cases none f d pass stop = stop refl
  or_crash_cases (some a) f d pass stop = pass a refl
