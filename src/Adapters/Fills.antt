-- ===== src/Adapters/Fills.antt =====
-- How a row of a trade history is read: `_parse_fill` of OKX, Gate.io, Coinbase and Kraken
-- (backend/app/exchanges).
use coin_hq.Base.{ℕ, Bool, List, [], ◌∷◌, Option, none, some, if◌then◌else◌, nat_beq, ◌&&◌}
use coin_hq.Base.Text.{Text, text_eq, upper, lower, is_truthy}
use coin_hq.Base.Dict.{Dict, lookup, insert}
use coin_hq.Adapters.Holdings.{normalize_kraken_asset}
use coin_hq.Number.{Number, maximum}
use coin_hq.CostBasis.{Fill}

-- A row, as far as it is read. `none` is a field that is absent where the code needs it, or no
-- number where it needs one. The time is the milliseconds that it converts to; the fee is that of
-- the code's default where it is absent.
pub record FillRow (F : Type 0) : Type 0 where
  pub market : Option Text
  pub side : Option Text
  pub qty : Option F
  pub price : Option F
  pub cost : Option F
  pub size_in_quote : Bool
  pub fee : Option F
  pub fee_asset : Text
  pub ts_ms : Option ℕ

abbrev pub push_first : ℕ → Option (Text × Text) → Option (Text × Text)
push_first c none = none
push_first c (some (a, b)) = some (c ∷ a, b)

-- `a, b = s.split(sep, 1)`
unfoldable pub split_once : ℕ → Text → Option (Text × Text)
split_once sep [] = none
split_once sep (c ∷ s) =
    let rest = split_once sep s in if nat_beq c sep then some ([], s) else push_first c rest

abbrev pub split_market : ℕ → Option Text → Option (Text × Text)
split_market sep none = none
split_market sep (some market) = elim (split_once sep market) [
  | none ↦ none
  | some (base, quote) ↦ some (upper base, upper quote)
]

abbrev pub find_pair : Dict Text (Text × Text) → Option Text → Option (Text × Text)
find_pair pair_map none = none
find_pair pair_map (some pair) = lookup pair pair_map

-- A pair of Kraken's, with an empty text for what is absent.
pub record KrakenPair : Type 0 where
  pub key : Text
  pub base : Text
  pub quote : Text
  pub altname : Text

-- `d.setdefault(name, pair)`, unless the name is empty
abbrev pub set_default : Text → Text × Text → Dict Text (Text × Text) → Dict Text (Text × Text)
set_default [] pair d = d
set_default (c ∷ name) pair d = elim (lookup (c ∷ name) d) [
  | none ↦ insert (c ∷ name) pair d
  | some known ↦ d
]

abbrev pub add_pair : KrakenPair → Dict Text (Text × Text) → Dict Text (Text × Text)
add_pair p pair_map =
    let base = normalize_kraken_asset p.base in
    let quote = normalize_kraken_asset p.quote in
    if is_truthy base && is_truthy quote
    then set_default p.altname (base, quote) (insert p.key (base, quote) pair_map)
    else pair_map

unfoldable pub add_pairs : List KrakenPair → Dict Text (Text × Text) → Dict Text (Text × Text)
unfolding normalize_kraken_asset
add_pairs [] pair_map = pair_map
add_pairs (p ∷ ps) pair_map = add_pairs ps (add_pair p pair_map)

module _ {F : Type 0} ⦃n : Number F⦄ where
  open n use {nought, sub, mul, div, lt}

  -- The fill, if all of its fields can be read. Its fee is never below zero.
  abbrev filled :
      Option (Text × Text)
      → Option Text
      → Option F
      → Option F
      → (Text → Text)
      → Option F
      → Option ℕ
      → Option (Fill F)
  filled (some (base, quote)) (some side) (some qty) (some quote_qty) fee_asset (some fee)
        (some ts) =
      some record {
        asset = base;
        side = lower side;
        qty = qty;
        quote_asset = quote;
        quote_qty = quote_qty;
        fee_asset = fee_asset quote;
        fee_qty = maximum fee nought;
        ts_ms = ts;
      }
  filled _ _ _ _ _ _ _ = none

  abbrev both : (F → F → F) → Option F → Option F → Option F
  both f none y = none
  both f (some x) none = none
  both f (some x) (some y) = some (f x y)

  -- OKX tells a fee as a negative amount.
  abbrev pub negated : Option F → Option F
  negated none = none
  negated (some fee) = some (sub nought fee)

  unfoldable pub parse_okx : FillRow F → Option (Fill F)
  unfolding split_once
  parse_okx r =
      filled (split_market b'-' r.market) r.side r.qty (both mul r.qty r.price)
        (λ quote. upper r.fee_asset) (negated r.fee) r.ts_ms

  unfoldable pub parse_gateio : FillRow F → Option (Fill F)
  unfolding split_once
  parse_gateio r =
      filled (split_market b'_' r.market) r.side r.qty (both mul r.qty r.price)
        (λ quote. upper r.fee_asset) r.fee r.ts_ms

  -- The size of a Coinbase row is in the asset or in the quote.
  unfoldable pub parse_coinbase : FillRow F → Option (Fill F)
  unfolding split_once
  parse_coinbase r =
      let pair = split_market b'-' r.market in
      let worth = both mul r.qty r.price in
      let amount =
        both (λ size price. if lt nought price then div size price else nought) r.qty r.price in
      if r.size_in_quote
      then filled pair r.side amount r.qty (λ quote. quote) r.fee r.ts_ms
      else filled pair r.side r.qty worth (λ quote. quote) r.fee r.ts_ms

  unfoldable pub parse_kraken : Dict Text (Text × Text) → FillRow F → Option (Fill F)
  parse_kraken pair_map r =
      filled (find_pair pair_map r.market) r.side r.qty r.cost (λ quote. quote) r.fee r.ts_ms
