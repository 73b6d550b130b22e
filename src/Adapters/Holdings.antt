-- ===== src/Adapters/Holdings.antt =====
-- The balances that the adapters report: `get_balances` of backend/app/exchanges/*.py. `none` is an
-- exception: a failed call, or a field that is absent or no number where the code needs one.
use coin_hq.Base.{
  Bool, List, [], ◌∷◌, Option, none, some, ◌≡◌, refl, ap, ◌∙◌, keep, if◌then◌else◌, nat_beq, ◌||◌,
}
use coin_hq.Base.Text.{Text, text, text_eq}
use coin_hq.Base.Dict.{Dict, lookup}
use coin_hq.Number.{Number}
use coin_hq.Portfolio.{Balance}

-- A row of an account, with two of its amounts.
pub record Holding (F : Type 0) : Type 0 where
  pub asset : Text
  pub first : Option F
  pub second : Option F

-- `_KRAKEN_ASSET_MAP`
abbrev pub kraken_asset_map : Dict Text Text
kraken_asset_map =
    (text "XXBT", text "BTC")
    ∷ (text "XETH", text "ETH")
    ∷ (text "XLTC", text "LTC")
    ∷ (text "XXRP", text "XRP")
    ∷ (text "XXLM", text "XLM")
    ∷ (text "XZEC", text "ZEC")
    ∷ (text "ZUSD", text "USD")
    ∷ (text "ZEUR", text "EUR")
    ∷ (text "ZGBP", text "GBP")
    ∷ (text "ZCAD", text "CAD")
    ∷ (text "ZJPY", text "JPY")
    ∷ []

-- `asset[1:]`, of a code of four letters that begins with X or Z
unfoldable pub strip_class : Text → Text
strip_class (c ∷ d ∷ e ∷ f ∷ []) =
    if nat_beq c b'X' || nat_beq c b'Z' then d ∷ e ∷ f ∷ [] else c ∷ d ∷ e ∷ f ∷ []
strip_class asset = asset

abbrev pub named_or : Text → Option Text → Text
named_or asset none = strip_class asset
named_or asset (some name) = name

unfoldable pub normalize_kraken_asset : Text → Text
unfolding strip_class
normalize_kraken_asset asset = named_or asset (lookup asset kraken_asset_map)

module _ {F : Type 0} ⦃n : Number F⦄ where
  open n use {nought, add, sub, lt}

  abbrev pub balance : Text → F → F → F → Balance F
  balance asset free locked total = record {
    asset = asset;
    free = free;
    locked = locked;
    total = total;
    usd_value = none;
  }

  -- Binance, Binance TR, Coinbase and Gate.io tell what is free and what is locked.
  unfoldable pub read_parts : Text → Option F → Option F → Option (Balance F)
  read_parts asset none locked = none
  read_parts asset (some free) none = none
  read_parts asset (some free) (some locked) = some (balance asset free locked (add free locked))

  -- Bybit and OKX tell the total and what is locked.
  unfoldable pub read_total : Text → Option F → Option F → Option (Balance F)
  read_total asset none locked = none
  read_total asset (some total) none = none
  read_total asset (some total) (some locked) = some (balance asset (sub total locked) locked total)

  -- Kraken tells an amount.
  unfoldable pub read_amount : Text → Option F → Option F → Option (Balance F)
  unfolding normalize_kraken_asset
  read_amount asset none _ = none
  read_amount asset (some free) _ = some (balance (normalize_kraken_asset asset) free nought free)

  -- `if total > 0: balances.append(…)`
  abbrev pub keep_held : Option (Balance F) → Option (List (Balance F)) → Option (List (Balance F))
  keep_held none rest = none
  keep_held (some b) none = none
  keep_held (some b) (some bs) = some (if lt nought b.total then b ∷ bs else bs)

  unfoldable pub collect_balances :
      (Text → Option F → Option F → Option (Balance F))
      → List (Holding F)
      → Option (List (Balance F))
  collect_balances read [] = some []
  collect_balances read (h ∷ hs) =
      keep_held (read h.asset h.first h.second) (collect_balances read hs)

  unfoldable pub get_balances :
      (Text → Option F → Option F → Option (Balance F))
      → Option (List (Holding F))
      → Option (List (Balance F))
  unfolding collect_balances
  get_balances read none = none
  get_balances read (some hs) = collect_balances read hs

  -- The adapters' methods. A list of accounts, as at Bybit and OKX, is taken as one list.
  abbrev pub binance_balances : Option (List (Holding F)) → Option (List (Balance F))
  binance_balances = get_balances read_parts

  abbrev pub binancetr_balances : Option (List (Holding F)) → Option (List (Balance F))
  binancetr_balances = get_balances read_parts

  abbrev pub coinbase_balances : Option (List (Holding F)) → Option (List (Balance F))
  coinbase_balances = get_balances read_parts

  abbrev pub gateio_balances : Option (List (Holding F)) → Option (List (Balance F))
  gateio_balances = get_balances read_parts

  abbrev pub bybit_balances : Option (List (Holding F)) → Option (List (Balance F))
  bybit_balances = get_balances read_total

  abbrev pub okx_balances : Option (List (Holding F)) → Option (List (Balance F))
  okx_balances = get_balances read_total

  abbrev pub kraken_balances : Option (List (Holding F)) → Option (List (Balance F))
  kraken_balances = get_balances read_amount

  abbrev pub cons_read : Option (Balance F) → Option (List (Balance F)) → Option (List (Balance F))
  cons_read none rest = none
  cons_read (some b) none = none
  cons_read (some b) (some bs) = some (b ∷ bs)

  -- All rows as balances, if each can be read.
  abbrev pub read_all :
      (Text → Option F → Option F → Option (Balance F))
      → List (Holding F)
      → Option (List (Balance F))
  read_all read [] = some []
  read_all read (h ∷ hs) = cons_read (read h.asset h.first h.second) (read_all read hs)

  abbrev pub has_amount : Balance F → Bool
  has_amount b = lt nought b.total

  -- The balances that are returned, of all.
  abbrev pub held_of : Option (List (Balance F)) → Option (List (Balance F))
  held_of none = none
  held_of (some bs) = some (keep has_amount bs)

  keep_held-cons_read :
      (o : Option (Balance F)) (rest : Option (List (Balance F)))
      → keep_held o (held_of rest) ≡ held_of (cons_read o rest)
  keep_held-cons_read none rest = refl
  keep_held-cons_read (some b) none = refl
  keep_held-cons_read (some b) (some bs) = refl

  -- The balances are the rows that have a total above zero, in order, if every row can be read.
  get_balances-held_of :
      (read : Text → Option F → Option F → Option (Balance F)) (hs : List (Holding F))
      → get_balances read (some hs) ≡ held_of (read_all read hs)
  unfolding get_balances collect_balances
  get_balances-held_of read [] = refl
  get_balances-held_of read (h ∷ hs) =
      ap (keep_held (read h.asset h.first h.second)) (get_balances-held_of read hs)
      ∙ keep_held-cons_read (read h.asset h.first h.second) (read_all read hs)
