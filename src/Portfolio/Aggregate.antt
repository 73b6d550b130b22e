-- ===== src/Portfolio/Aggregate.antt =====
-- `get_aggregate_portfolio` of backend/app/services/portfolio_service.py.
use coin_hq.Base.{
  ℕ, ◌≡◌, refl, ap, List, [], ◌∷◌, ◌++◌, map, Option, none, some, arith, keep, or_else, ◌==◌,
  Bool-cases, inl, inr, ◌∙◌, sym, Option-cases,
}
use coin_hq.Base.Text.{Text, text_eq, text_beq_iff}
use coin_hq.Base.Dict.{Dict, lookup, insert, get_or, lookup-insert}
use coin_hq.Number.{Number, sum_from, sum}
use coin_hq.Portfolio.{Balance, ExchangeBalance, PortfolioResponse}

-- A profile with what `get_portfolio` gave for it; `none` is an exception.
pub record ProfileResult (F : Type 0) : Type 0 where
  pub id : ℕ
  pub name : Text
  pub portfolio : Option (PortfolioResponse F)

pub record ProfilePortfolio (F : Type 0) : Type 0 where
  pub profile_id : ℕ
  pub profile_name : Text
  pub total_usd : F
  pub exchanges : List (ExchangeBalance F)

pub record AggregateResponse (F : Type 0) : Type 0 where
  pub profiles : List (ProfilePortfolio F)
  pub grand_total_usd : F
  pub asset_totals : Dict Text F

module _ {F : Type 0} ⦃n : Number F⦄ where
  open n use {nought, add}

  abbrev usd_of : Balance F → F
  usd_of b = or_else b.usd_value nought

  unfoldable pub add_balance : Dict Text F → Balance F → Dict Text F
  add_balance totals b = insert b.asset (add (get_or b.asset nought totals) (usd_of b)) totals

  unfoldable pub add_balances : Dict Text F → List (Balance F) → Dict Text F
  add_balances totals [] = totals
  add_balances totals (b ∷ bs) = add_balances (add_balance totals b) bs

  unfoldable pub add_exchanges : Dict Text F → List (ExchangeBalance F) → Dict Text F
  add_exchanges totals [] = totals
  add_exchanges totals (ex ∷ exs) = add_exchanges (add_balances totals ex.balances) exs

  -- The loop over the results, with the grand total and the asset totals so far.
  unfoldable pub aggregate_from : F → Dict Text F → List (ProfileResult F) → AggregateResponse F
  aggregate_from grand totals [] = record {
    profiles = [];
    grand_total_usd = grand;
    asset_totals = totals;
  }
  aggregate_from grand totals (r ∷ rs) = elim r.portfolio [
    | none ↦ aggregate_from grand totals rs
    | some p ↦
        let rest = aggregate_from (add grand p.total_usd) (add_exchanges totals p.exchanges) rs in
        record rest {
          profiles =
              record {
                profile_id = r.id;
                profile_name = r.name;
                total_usd = p.total_usd;
                exchanges = p.exchanges;
              }
              ∷ rest.profiles;
        }
  ]

  unfoldable pub get_aggregate_portfolio : List (ProfileResult F) → AggregateResponse F
  unfolding aggregate_from add_exchanges add_balances add_balance insert lookup
  get_aggregate_portfolio = aggregate_from nought []

  -- All balances of the profiles that could be fetched, in order.
  abbrev pub balances_in : List (ExchangeBalance F) → List (Balance F)
  balances_in [] = []
  balances_in (ex ∷ exs) = ex.balances ++ balances_in exs

  abbrev pub all_balances : List (ProfileResult F) → List (Balance F)
  all_balances [] = []
  all_balances (r ∷ rs) = elim r.portfolio [
    | none ↦ all_balances rs
    | some p ↦ balances_in p.exchanges ++ all_balances rs
  ]

  -- The values of an asset.
  abbrev pub values_of : Text → List (Balance F) → List F
  values_of a bs = map usd_of (keep (λ b. b.asset == a) bs)

  add_balances-lookup :
      (a : Text) (totals : Dict Text F) (bs : List (Balance F))
      → get_or a nought (add_balances totals bs)
        ≡ sum_from (get_or a nought totals) (values_of a bs)
  unfolding add_balances add_balance sum_from
  add_balances-lookup a totals [] = refl
  add_balances-lookup a totals (b ∷ bs) = elim (Bool-cases (b.asset == a)) [
    | inl same ↦ ground (
      arith,
      add_balances-lookup a (add_balance totals b) bs,
      lookup-insert a b.asset (add (get_or b.asset nought totals) (usd_of b)) totals,
      text_beq_iff b.asset a,
      text_beq_iff a b.asset,
    )
    | inr other ↦ ground (
      arith,
      add_balances-lookup a (add_balance totals b) bs,
      lookup-insert a b.asset (add (get_or b.asset nought totals) (usd_of b)) totals,
      text_beq_iff b.asset a,
      text_beq_iff a b.asset,
    )
  ]

  sum_from-append_list :
      (acc : F) (xs ys : List F) → sum_from acc (xs ++ ys) ≡ sum_from (sum_from acc xs) ys
  unfolding sum_from
  sum_from-append_list acc [] ys = refl
  sum_from-append_list acc (x ∷ xs) ys = sum_from-append_list (add acc x) xs ys

  values_of-append :
      (a : Text) (bs cs : List (Balance F))
      → values_of a (bs ++ cs) ≡ values_of a bs ++ values_of a cs
  values_of-append a [] cs = refl
  values_of-append a (b ∷ bs) cs = ground (arith, values_of-append a bs cs)

  -- Two batches of balances, one after the other.
  values_sum_append :
      (acc : F) (a : Text) (bs cs : List (Balance F))
      → sum_from acc (values_of a (bs ++ cs))
        ≡ sum_from (sum_from acc (values_of a bs)) (values_of a cs)
  values_sum_append acc a bs cs =
      rw (values_of-append a bs cs) (sum_from-append_list acc (values_of a bs) (values_of a cs))

  add_exchanges-lookup :
      (a : Text) (totals : Dict Text F) (exs : List (ExchangeBalance F))
      → get_or a nought (add_exchanges totals exs)
        ≡ sum_from (get_or a nought totals) (values_of a (balances_in exs))
  unfolding add_exchanges
  add_exchanges-lookup a totals [] = unfold sum_from in refl
  add_exchanges-lookup a totals (ex ∷ exs) =
      add_exchanges-lookup a (add_balances totals ex.balances) exs
      ∙ ap (λ acc. sum_from acc (values_of a (balances_in exs)))
          (add_balances-lookup a totals ex.balances)
      ∙ sym (values_sum_append (get_or a nought totals) a ex.balances (balances_in exs))

  abbrev pub totals_of : List (ProfileResult F) → List F
  totals_of [] = []
  totals_of (r ∷ rs) = elim r.portfolio [
    | none ↦ totals_of rs
    | some p ↦ p.total_usd ∷ totals_of rs
  ]

  aggregate_from-totals :
      (a : Text) (grand : F) (totals : Dict Text F) (rs : List (ProfileResult F))
      → let out = aggregate_from grand totals rs in
        (out.grand_total_usd ≡ sum_from grand (totals_of rs))
        × (get_or a nought out.asset_totals
            ≡ sum_from (get_or a nought totals) (values_of a (all_balances rs)))
  unfolding aggregate_from sum_from
  aggregate_from-totals a grand totals [] = (refl, refl)
  aggregate_from-totals a grand totals (r ∷ rs) = elim (Option-cases r.portfolio) [
    | inl missing ↦ ground (arith, aggregate_from-totals a grand totals rs)
    | inr (p, found) ↦ ground (
      arith,
      aggregate_from-totals a (add grand p.total_usd) (add_exchanges totals p.exchanges) rs,
      add_exchanges-lookup a totals p.exchanges,
      values_sum_append (get_or a nought totals) a (balances_in p.exchanges) (all_balances rs),
    )
  ]

  -- The grand total is the sum of the totals of the profiles that could be fetched, and the
  -- total of each asset is the sum of its values over all their balances, in order, a balance
  -- with no value counting as nothing.
  pub get_aggregate_portfolio-totals :
      (a : Text) (rs : List (ProfileResult F))
      → ((get_aggregate_portfolio rs).grand_total_usd ≡ sum (totals_of rs))
        × (get_or a nought (get_aggregate_portfolio rs).asset_totals
            ≡ sum (values_of a (all_balances rs)))
  get_aggregate_portfolio-totals a rs =
      unfold get_aggregate_portfolio in aggregate_from-totals a nought [] rs
