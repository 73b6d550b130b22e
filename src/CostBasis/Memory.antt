-- ===== src/CostBasis/Memory.antt =====
-- How long an answer is kept (backend/app/services/cost_basis_service.py).
use coin_hq.Base.{
  ℕ, ◌+◌, ◌≤◌, ◌≡◌, refl, List, Option, none, some, arith, nat_eq, sym, ap, subst, ◌∙◌,
}
use coin_hq.Base.Text.{Text}
use coin_hq.Base.Dict.{lookup-insert_self}
use coin_hq.Number.{Number}
use coin_hq.Store.{ExchangeKey, Db}
use coin_hq.Portfolio.{Feeds, CacheRead}
use coin_hq.CostBasis.Service.{
  History, Cached, no_redis, redis_failed, absent, present, CostBasisResponse, Memo, Outcome,
  memo_get, memo_set, compute_cost_basis, read_or_compute, resume, get_cost_basis, cache_ttl,
}

module _ {F : Type 0} ⦃n : Number F⦄ where
  memo_get-memo_set :
      (now later key ttl : ℕ) (r : CostBasisResponse F) (memo : Memo F)
      → later ≤ now + ttl
      → memo_get later key (memo_set now key r ttl memo) ≡ (some r, memo_set now key r ttl memo)
  unfolding memo_get memo_set
  memo_get-memo_set now later key ttl r memo h =
      rw (memo_get, lookup-insert_self key (now + ttl, r) memo) (ground arith)

  compute_cost_basis-ttl :
      (history : ExchangeKey → List Text → History F) (feeds : Feeds F) (pcache : CacheRead F)
      (now profile_id : ℕ) (name : Text) (keys : List ExchangeKey) (d : Db F)
      → 60 ≤ (compute_cost_basis history feeds pcache now profile_id name keys d).1
  unfolding compute_cost_basis
  compute_cost_basis-ttl history feeds pcache now profile_id name keys d = ground arith

  -- What `read_or_compute` answers it keeps for at least a minute.
  IsKept : ℕ → ℕ → Memo F → Outcome F → Type 0
  IsKept now key memo o = (ttl : ℕ) × (60 ≤ ttl) × (o.memo ≡ memo_set now key o.response ttl memo)

  read_or_compute-IsKept :
      (history : ExchangeKey → List Text → History F) (feeds : Feeds F) (cached : Cached F)
      (pcache : CacheRead F) (now profile_id : ℕ) (name : Text) (keys : List ExchangeKey) (d : Db F)
      (memo : Memo F)
      → IsKept now profile_id memo
          (read_or_compute history feeds cached pcache now profile_id name keys d memo)
  unfolding read_or_compute IsKept
  read_or_compute-IsKept history feeds (present r) pcache now profile_id name keys d memo =
      (cache_ttl, omega arith, refl)
  read_or_compute-IsKept history feeds no_redis pcache now profile_id name keys d memo =
      (_, compute_cost_basis-ttl history feeds _ now profile_id name keys d, refl)
  read_or_compute-IsKept history feeds redis_failed pcache now profile_id name keys d memo =
      (_, compute_cost_basis-ttl history feeds _ now profile_id name keys d, refl)
  read_or_compute-IsKept history feeds absent pcache now profile_id name keys d memo =
      (_, compute_cost_basis-ttl history feeds _ now profile_id name keys d, refl)

  IsKept-answers :
      (history : ExchangeKey → List Text → History F) (feeds : Feeds F) (cached : Cached F)
      (pcache : CacheRead F) (now later profile_id : ℕ) (name : Text) (keys : List ExchangeKey)
      (d : Db F) (memo : Memo F) (o : Outcome F)
      → IsKept now profile_id memo o
      → later ≤ now + 60
      → (get_cost_basis history feeds cached pcache later profile_id name keys d o.memo).response
        ≡ o.response
  unfolding IsKept get_cost_basis
  IsKept-answers history feeds cached pcache now later profile_id name keys d memo o
        (ttl, long, same) h =
      let kept =
        memo_get-memo_set now later profile_id ttl o.response memo (omega (arith, long, h)) in
      ap
        (λ m.
          (resume history feeds cached pcache later profile_id name keys d
            (memo_get later profile_id m)).response)
        same
      ∙ ap (λ out. (resume history feeds cached pcache later profile_id name keys d out).response)
          kept

  resume_computes :
      (history : ExchangeKey → List Text → History F) (feeds : Feeds F) (cached : Cached F)
      (pcache : CacheRead F) (now profile_id : ℕ) (name : Text) (keys : List ExchangeKey) (d : Db F)
      (out : Option (CostBasisResponse F) × Memo F)
      → out.0 ≡ none
      → resume history feeds cached pcache now profile_id name keys d out
        ≡ read_or_compute history feeds cached pcache now profile_id name keys d out.1
  resume_computes history feeds cached pcache now profile_id name keys d (none, memo) h = refl
  resume_computes history feeds cached pcache now profile_id name keys d (some r, memo) h = cc

  get_cost_basis_computes :
      (history : ExchangeKey → List Text → History F) (feeds : Feeds F) (cached : Cached F)
      (pcache : CacheRead F) (now profile_id : ℕ) (name : Text) (keys : List ExchangeKey) (d : Db F)
      (memo : Memo F)
      → (memo_get now profile_id memo).0 ≡ none
      → get_cost_basis history feeds cached pcache now profile_id name keys d memo
        ≡ read_or_compute history feeds cached pcache now profile_id name keys d
            (memo_get now profile_id memo).1
  unfolding get_cost_basis
  get_cost_basis_computes history feeds cached pcache now profile_id name keys d memo h =
      resume_computes history feeds cached pcache now profile_id name keys d
        (memo_get now profile_id memo) h

  -- If the memo has nothing for a profile, then the response that a call of `get_cost_basis`
  -- makes is the response of every later call for that profile within a minute, on the memo
  -- that the first one leaves, whatever the exchanges, Redis and the database then say, and
  -- also if a venue failed at first.
  pub get_cost_basis_remembers :
      (history history' : ExchangeKey → List Text → History F) (feeds feeds' : Feeds F)
      (cached cached' : Cached F) (pcache pcache' : CacheRead F) (now later profile_id : ℕ)
      (name name' : Text) (keys keys' : List ExchangeKey) (d d' : Db F) (memo : Memo F)
      → (memo_get now profile_id memo).0 ≡ none
      → later ≤ now + 60
      → let first = get_cost_basis history feeds cached pcache now profile_id name keys d memo in
        (get_cost_basis history' feeds' cached' pcache' later profile_id name' keys' d'
          first.memo).response
        ≡ first.response
  get_cost_basis_remembers history history' feeds feeds' cached cached' pcache pcache' now later
        profile_id name name' keys keys' d d' memo fresh h =
      IsKept-answers history' feeds' cached' pcache' now later profile_id name' keys' d'
        (memo_get now profile_id memo).1
        (get_cost_basis history feeds cached pcache now profile_id name keys d memo)
        (subst (IsKept now profile_id (memo_get now profile_id memo).1)
          (sym (
            get_cost_basis_computes history feeds cached pcache now profile_id name keys d memo
              fresh))
          (read_or_compute-IsKept history feeds cached pcache now profile_id name keys d
            (memo_get now profile_id memo).1))
        h
