-- ===== src/Pnl/Accounts.antt =====
-- The balance of the books of one asset (backend/app/services/pnl_service.py).
use coin_hq.Base.{
  Bool, ◌≡◌, refl, List, [], ◌∷◌, if◌then◌else◌, Bool-cases, inl, inr, ◌&&◌, sym, ◌∙◌, some, subst,
}
use coin_hq.Base.Text.{Text, text_eq}
use coin_hq.Base.Dict.{lookup}
use coin_hq.Number.{Number, minimum}
use coin_hq.Number.Laws.{IsExact}
use coin_hq.Pnl.{
  AssetState, Trade, no_trades, apply_trade, apply_buy, apply_sell, release, states_from,
}
use coin_hq.Pnl.PerAsset.{run_trades, trades_in, states_from-PerAsset}
use coin_hq.Pnl.Figures.{
  is_buy, is_sell, entry_runs, apply_trade-buy, apply_trade-sell, apply_trade-other,
}

module _ {F : Type 0} ⦃n : Number F⦄ where
  open n use {nought, add, sub, mul, div, lt}

  abbrev is_covered : F → AssetState F → Bool
  is_covered amount s = lt nought (minimum amount s.qty) && lt nought s.qty

  -- What an order brings in for the coins that the books know of.
  abbrev pub receipt : Trade F → AssetState F → F
  receipt t s =
      if is_buy t
      then nought
      else if is_sell t && is_covered t.amount s
      then mul (minimum t.amount s.qty) (div t.usd_value t.amount)
      else nought

  unfoldable pub receipts_from : F → AssetState F → List (Trade F) → F
  receipts_from got s [] = got
  receipts_from got s (t ∷ ts) = receipts_from (add got (receipt t s)) (apply_trade t s) ts

module _ {F : Type 0} ⦃n : Number F⦄ (laws : IsExact F) where
  open n use {nought, add, sub, mul, div, lt}
  open laws use {add_comm, add_assoc, nought_add, sub-add, add-sub, mul_sub}

  swap : (a b c : F) → add (add a b) c ≡ add (add a c) b
  swap a b c = rw (add_assoc a b c, add_comm b c, sym (add_assoc a c b))

  cancel : (a b c : F) → add a c ≡ add b c → a ≡ b
  cancel a b c h = rw (sym (add-sub a c), h, add-sub b c)

  add_nought : (a : F) → add a nought ≡ a
  add_nought a = rw (add_comm a nought, nought_add a)

  shift_left : (r x y b : F) → add (add (add r (sub x y)) b) y ≡ add (add r b) x
  shift_left r x y b =
      rw (swap (add r (sub x y)) b y, add_assoc r (sub x y) y, sub-add x y, swap r x b)

  shift_right : (c x y p : F) → add (add (sub c y) (add p x)) y ≡ add (add c p) x
  shift_right c x y p = rw (swap (sub c y) (add p x) y, sub-add c y, add_assoc c p x)

  balance :
      (r x y b c p : F) → add r b ≡ add c p → add (add r (sub x y)) b ≡ add (sub c y) (add p x)
  balance r x y b c p h = cancel _ _ y (shift_left r x y b ∙ rw (h, shift_right c x y p))

  abbrev IsBalanced : F → AssetState F → Type 0
  IsBalanced got s = add s.realized_pnl s.total_bought_usd ≡ add s.cost_basis_total got

  buy-IsBalanced :
      (got amount usd : F) (s : AssetState F)
      → IsBalanced got s
      → IsBalanced (add got nought) (apply_buy amount usd s)
  unfolding apply_buy
  buy-IsBalanced got amount usd s h = rw (
    add_nought got,
    sym (add_assoc s.realized_pnl s.total_bought_usd usd),
    h,
    swap s.cost_basis_total got usd,
  )

  sell-IsBalanced :
      (got amount usd : F) (s : AssetState F)
      → IsBalanced got s
      → IsBalanced
          (add got
            (if is_covered amount s then mul (minimum amount s.qty) (div usd amount) else nought))
          (apply_sell amount usd s)
  unfolding apply_sell release
  sell-IsBalanced got amount usd s h = elim (Bool-cases (is_covered amount s)) [
    | inl e ↦
        rw (e, mul_sub (minimum amount s.qty) (div usd amount) (div s.cost_basis_total s.qty))
          (balance _ _ _ _ _ _ h)
    | inr e ↦ rw (e, add_nought got) h
  ]

  apply_trade-IsBalanced :
      (got : F) (t : Trade F) (s : AssetState F)
      → IsBalanced got s
      → IsBalanced (add got (receipt t s)) (apply_trade t s)
  apply_trade-IsBalanced got t s h = elim (Bool-cases (is_buy t)) [
    | inl buy ↦ rw (apply_trade-buy t s buy, buy) (buy-IsBalanced got t.amount t.usd_value s h)
    | inr not_buy ↦ elim (Bool-cases (is_sell t)) [
      | inl sell ↦
          rw (apply_trade-sell t s not_buy sell, not_buy, sell)
            (sell-IsBalanced got t.amount t.usd_value s h)
      | inr neither ↦ rw (apply_trade-other t s not_buy neither, not_buy, neither, add_nought got) h
    ]
  ]

  run_trades-IsBalanced :
      (got : F) (s : AssetState F) (ts : List (Trade F))
      → IsBalanced got s
      → IsBalanced (receipts_from got s ts) (run_trades s ts)
  unfolding run_trades receipts_from
  run_trades-IsBalanced got s [] h = h
  run_trades-IsBalanced got s (t ∷ ts) h =
      run_trades-IsBalanced (add got (receipt t s)) (apply_trade t s) ts
        (apply_trade-IsBalanced got t s h)

  -- Without rounding the books of an asset balance after any orders: realized profit and what
  -- was paid for buys are together the cost of the open position and the receipts of the sells,
  -- each sell counted at its own price for the quantity that the books could cover.
  pub states_from-IsBalanced :
      (a : Text) (ts : List (Trade F)) (s : AssetState F)
      → lookup a (states_from [] ts) ≡ some s
      → add s.realized_pnl s.total_bought_usd
        ≡ add s.cost_basis_total (receipts_from nought no_trades (trades_in a ts))
  states_from-IsBalanced a ts s h =
      let e = entry_runs (trades_in a ts) s (sym (states_from-PerAsset a ts) ∙ h) in
      subst (IsBalanced (receipts_from nought no_trades (trades_in a ts))) e
        (run_trades-IsBalanced nought no_trades (trades_in a ts) refl)
