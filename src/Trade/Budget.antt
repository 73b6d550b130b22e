-- ===== src/Trade/Budget.antt =====
-- The daily limit of a share link (backend/app/services/trade_service.py with
-- backend/app/core/trade_limits.py), over requests that run one after another.
use coin_hq.Base.{
  ℕ, ◌≤◌, true, false, ◌≡◌, refl, inl, inr, Option, none, some, List, [], ◌∷◌, arith, All,
  All-append, Bool-cases, nat_beq_iff, subst,
}
use coin_hq.Base.Text.{text, text_eq, text_beq_iff}
use coin_hq.Number.{Number, ◌≼◌}
use coin_hq.Number.Laws.{IsOrdered}
use coin_hq.Store.{Profile, ExchangeKey, ShareLink, TradeOrder, Db, Reply, ok, http, crash}
use coin_hq.TradeLimits.Laws.{check_delegate_trade_iff}
use coin_hq.Trade.{
  Venue, TradeRequest, counts, is_link, link_id_of, spent_today_usd, execute_trade, add_order,
}
use coin_hq.Trade.Window.{IsNonneg, spent_today_usd_anti, spent_today_usd-add_order}
use coin_hq.Trade.Checks.{IsAuthorized}
use coin_hq.Trade.Outcomes.{IsFill, Trades, stored, execute_trade-Trades}

-- One request: the exchange at that time, when its checks ran and when its order was stamped, and
-- whom it came from.
pub record Call (F : Type 0) : Type 0 where
  pub venue : Venue F
  pub now : ℕ
  pub created : ℕ
  pub profile : Profile
  pub request : TradeRequest F
  pub share_link : Option (ShareLink F)

module _ {F : Type 0} ⦃n : Number F⦄ where
  open n use {nought, add, le}

  unfoldable pub call : Call F → Db F → Db F
  call c d = (execute_trade c.venue c.now c.created c.profile c.request c.share_link d).1

  unfoldable pub call_all : List (Call F) → Db F → Db F
  call_all [] d = d
  call_all (c ∷ cs) d = call_all cs (call c d)

  -- The link with this id, where a call comes through it, has this daily limit.
  abbrev pub HasLimit : ℕ → F → Option (ShareLink F) → Type 0
  HasLimit link_id limit none = Unit
  HasLimit link_id limit (some link) = link.id ≡ link_id → link.trade_daily_limit_usd ≡ some limit

  -- Each call is checked after the one before it was committed.
  abbrev pub InOrder : ℕ → List (Call F) → Type 0
  InOrder t [] = Unit
  InOrder t (c ∷ cs) = (t ≤ c.now) × (c.now ≤ c.created) × InOrder c.created cs

  abbrev pub last_time : ℕ → List (Call F) → ℕ
  last_time t [] = t
  last_time t (c ∷ cs) = last_time c.created cs

  -- At time `t` no order is negative and the link has spent no more than its limit.
  pub record IsBudgeted (link_id : ℕ) (limit : F) (t : ℕ) (d : Db F) : Type 0 where
    pub nonneg : IsNonneg d.trade_orders
    pub within : spent_today_usd t link_id d ≼ limit

  module _ (laws : IsOrdered F) (link_id : ℕ) (limit : F) where
    later-IsBudgeted :
        (t later : ℕ) (d : Db F)
        → IsBudgeted link_id limit t d
        → t ≤ later
        → IsBudgeted link_id limit later d
    later-IsBudgeted t later d b le = record {
      nonneg = b.nonneg;
      within =
          laws.le_trans _ _ _ (spent_today_usd_anti laws t later link_id d b.nonneg le) b.within;
    }

    positive-nonneg : (x : F) → le x nought ≡ false → nought ≼ x
    positive-nonneg x h = ground (arith, laws.le_total x nought)

    -- The counter of ids is no part of the sum.
    spent-stored :
        (t : ℕ) (o : TradeOrder F) (d : Db F)
        → spent_today_usd t link_id (stored o d) ≡ spent_today_usd t link_id (add_order o d)
    unfolding spent_today_usd
    spent-stored t o d = refl

    -- An order that does not count leaves the budget, one that counts must fit it.
    stored-IsBudgeted :
        (t : ℕ) (o : TradeOrder F) (d : Db F)
        → IsBudgeted link_id limit t d
        → nought ≼ o.usd_value
        → (counts t link_id o ≡ true → add (spent_today_usd t link_id d) o.usd_value ≼ limit)
        → IsBudgeted link_id limit t (stored o d)
    stored-IsBudgeted t o d b pos fits = record {
      nonneg = All-append _ d.trade_orders (o ∷ []) b.nonneg (pos, tt);
      within =
          rw (spent-stored t o d, spent_today_usd-add_order t link_id o d)
            (elim (Bool-cases (counts t link_id o)) [
              | inl c ↦ rw c (fits c)
              | inr c ↦ rw c b.within
            ]);
    }

    -- A failed order does not count.
    failed_skipped :
        (t : ℕ) (o : TradeOrder F) → o.status ≡ text "failed" → counts t link_id o ≡ true → ⊥
    failed_skipped t o failed c = ground (arith, text_beq_iff o.status (text "filled"))

    module _ (now created : ℕ) (profile : Profile) (r : TradeRequest F) (d : Db F) where
      -- A request that was checked against the link's limit fits it.
      authorized_fits :
          (share_link : Option (ShareLink F)) (key : ExchangeKey)
          → HasLimit link_id limit share_link
          → IsAuthorized now profile r share_link key d
          → is_link (link_id_of share_link) link_id ≡ true
          → add (spent_today_usd now link_id d) r.usd_amount ≼ limit
      authorized_fits none key has a h = cc
      authorized_fits (some link) key has a h =
          let same : link.id ≡ link_id = (nat_beq_iff link.id link_id).0 h in
          let checked = (check_delegate_trade_iff laws link _ _ _ _).0 (a.permitted link refl) in
          subst (λ i. add (spent_today_usd now i d) r.usd_amount ≼ limit) same
            (checked.day_within limit (has same))

      fill_fits :
          (share_link : Option (ShareLink F)) (key : ExchangeKey) (o : TradeOrder F)
          → HasLimit link_id limit share_link
          → IsNonneg d.trade_orders
          → now ≤ created
          → IsAuthorized now profile r share_link key d
          → IsFill profile r share_link created o
          → counts created link_id o ≡ true
          → add (spent_today_usd created link_id d) o.usd_value ≼ limit
      fill_fits share_link key o has nonneg after a f c =
          let mine : is_link (link_id_of share_link) link_id ≡ true =
            subst (λ l. is_link l link_id ≡ true) f.link (ground arith) in
          rw f.value (
            laws.le_trans _ _ _
              (laws.add_mono _ _ r.usd_amount
                (spent_today_usd_anti laws now created link_id d nonneg after))
              (authorized_fits share_link key has a mine))

      Trades-IsBudgeted :
          (venue : Venue F) (share_link : Option (ShareLink F)) (out : Reply (TradeOrder F) × Db F)
          → HasLimit link_id limit share_link
          → IsBudgeted link_id limit now d
          → now ≤ created
          → Trades venue now created profile r share_link d out
          → IsBudgeted link_id limit created out.1
      Trades-IsBudgeted venue share_link (ok o, e) has b le (f, same, (key, a, _, _)) =
          let later = later-IsBudgeted now created d b le in
          rw same (
            stored-IsBudgeted created o d later (rw f.value (positive-nonneg _ a.positive))
              (fill_fits share_link key o has b.nonneg le a f))
      Trades-IsBudgeted venue share_link (http code, e) has b le
            (inr (c, (o, f, same), (key, a, _))) =
          rw same (
            stored-IsBudgeted created o d (later-IsBudgeted now created d b le)
              (rw f.value (positive-nonneg _ a.positive))
              (λ c. absurd (failed_skipped created o f.failed c)))
      Trades-IsBudgeted venue share_link (http code, e) has b le (inl (_, same)) =
          rw same (later-IsBudgeted now created d b le)
      Trades-IsBudgeted venue share_link (crash, e) has b le (_, same) =
          rw same (later-IsBudgeted now created d b le)

    call-IsBudgeted :
        (c : Call F) (t : ℕ) (d : Db F)
        → HasLimit link_id limit c.share_link
        → t ≤ c.now
        → c.now ≤ c.created
        → IsBudgeted link_id limit t d
        → IsBudgeted link_id limit c.created (call c d)
    unfolding call
    call-IsBudgeted c t d has since until b =
        Trades-IsBudgeted c.now c.created c.profile c.request d c.venue c.share_link _ has
          (later-IsBudgeted t c.now d b since) until
          (execute_trade-Trades c.venue c.now c.created c.profile c.request c.share_link d)

    -- The daily limit holds for requests that run one after another: if trade requests, the
    -- owner's and those of any links, come in order of time, no stored order has a negative
    -- value, the link in question starts within its limit and has that limit in each of its
    -- requests, then at the end and at any later time its filled orders of the last 24 hours
    -- sum to no more than the limit. Amounts are ordered as IEEE numbers are.
    pub call_all-within :
        (cs : List (Call F)) (t later : ℕ) (d : Db F)
        → All (λ c. HasLimit link_id limit c.share_link) cs
        → InOrder t cs
        → IsBudgeted link_id limit t d
        → last_time t cs ≤ later
        → spent_today_usd later link_id (call_all cs d) ≼ limit
    unfolding call_all
    call_all-within [] t later d has order b after = (later-IsBudgeted t later d b after).within
    call_all-within (c ∷ cs) t later d (h, has) (since, until, order) b after =
        call_all-within cs c.created later (call c d) has order
          (call-IsBudgeted c t d h since until b) after
