-- ===== src/Adapters/Quotes.antt =====
-- The venue's own prices: `get_prices` of backend/app/exchanges/*.py. The exchange's answer is an
-- argument: the rows of its ticker, or `none` for a failed call.
use coin_hq.Base.{
  true, false, List, [], ◌∷◌, Option, none, some, ◌≡◌, refl, ◌∙◌, ap, arith, contains, map,
  if◌then◌else◌, ◌==◌, Bool-cases, inl, inr,
}
use coin_hq.Base.Text.{Text, text, text_eq, text_beq_iff, upper}
use coin_hq.Base.Dict.{Dict, lookup, first_of, lookup-insert}
use coin_hq.Prices.Symbols.{put}
use coin_hq.Prices.Service.{Ticker, cut_suffix}

module _ {F : Type 0} where
  -- A row that has a wanted base sets its price; one without a number is passed over.
  unfoldable pub add_quote : List Text → Option Text → Option F → Dict Text F → Dict Text F
  add_quote wanted none price prices = prices
  add_quote wanted (some base) price prices =
      if contains wanted base then put base price prices else prices

  unfoldable pub read_quotes : Text → List Text → List (Ticker F) → Dict Text F → Dict Text F
  unfolding add_quote
  read_quotes suffix wanted [] prices = prices
  read_quotes suffix wanted (t ∷ ts) prices =
      read_quotes suffix wanted ts (add_quote wanted (cut_suffix suffix t.symbol) t.price prices)

  -- Of the four adapters that read a ticker: Binance and Bybit name a dollar market by "USDT" at
  -- its end, OKX by "-USDT" and Gate.io by "_USDT".
  unfoldable pub get_ticker_prices : Text → List Text → Option (List (Ticker F)) → Dict Text F
  unfolding read_quotes
  get_ticker_prices suffix [] answer = []
  get_ticker_prices suffix (a ∷ assets) none = []
  get_ticker_prices suffix (a ∷ assets) (some ts) =
      read_quotes suffix (map upper (a ∷ assets)) ts []

  -- The adapters' methods.
  abbrev pub binance_quotes : List Text → Option (List (Ticker F)) → Dict Text F
  binance_quotes = get_ticker_prices (text "USDT")

  abbrev pub bybit_quotes : List Text → Option (List (Ticker F)) → Dict Text F
  bybit_quotes = get_ticker_prices (text "USDT")

  abbrev pub okx_quotes : List Text → Option (List (Ticker F)) → Dict Text F
  okx_quotes = get_ticker_prices (text "-USDT")

  abbrev pub gateio_quotes : List Text → Option (List (Ticker F)) → Dict Text F
  gateio_quotes = get_ticker_prices (text "_USDT")

  -- The price of a row, if it is a row of the asset.
  abbrev pub quote_for : Text → Text → Ticker F → Option F
  quote_for suffix base t = elim (cut_suffix suffix t.symbol) [
    | none ↦ none
    | some b ↦ (if base == b then t.price else none)
  ]

  -- The last price that the rows give an asset.
  abbrev pub last_quote : Text → Text → List (Ticker F) → Option F
  last_quote suffix base [] = none
  last_quote suffix base (t ∷ ts) = first_of (last_quote suffix base ts) (quote_for suffix base t)

  first_of_assoc :
      (o o' o'' : Option F) → first_of o (first_of o' o'') ≡ first_of (first_of o o') o''
  first_of_assoc none o' o'' = refl
  first_of_assoc (some v) o' o'' = refl

  first_of-none : (o : Option F) → first_of o none ≡ o
  first_of-none none = refl
  first_of-none (some v) = refl

  lookup-put :
      (k a : Text) (o : Option F) (d : Dict Text F)
      → lookup k (put a o d) ≡ (if k == a then first_of o (lookup k d) else lookup k d)
  lookup-put k a none d = ground arith
  lookup-put k a (some v) d = ground (arith, lookup-insert k a v d)

  lookup-add_quote :
      (k : Text) (wanted : List Text) (base : Option Text) (price : Option F) (d : Dict Text F)
      → contains wanted k ≡ true
      → lookup k (add_quote wanted base price d)
        ≡ first_of
            (elim base [ none ↦ none | some b ↦ (if k == b then price else none) ])
            (lookup k d)
  unfolding add_quote
  lookup-add_quote k wanted none price d h = refl
  lookup-add_quote k wanted (some b) price d h =
      ground (arith, lookup-put k b price d, text_beq_iff k b)

  lookup-read_quotes :
      (k suffix : Text) (wanted : List Text) (ts : List (Ticker F)) (d : Dict Text F)
      → contains wanted k ≡ true
      → lookup k (read_quotes suffix wanted ts d) ≡ first_of (last_quote suffix k ts) (lookup k d)
  unfolding read_quotes
  lookup-read_quotes k suffix wanted [] d h = refl
  lookup-read_quotes k suffix wanted (t ∷ ts) d h =
      let e = add_quote wanted (cut_suffix suffix t.symbol) t.price d in
      lookup-read_quotes k suffix wanted ts e h
      ∙ ap (first_of (last_quote suffix k ts))
          (lookup-add_quote k wanted (cut_suffix suffix t.symbol) t.price d h)
      ∙ first_of_assoc (last_quote suffix k ts) (quote_for suffix k t) (lookup k d)

  add_quote-unwanted :
      (k : Text) (wanted : List Text) (base : Option Text) (price : Option F) (d : Dict Text F)
      → contains wanted k ≡ false
      → lookup k (add_quote wanted base price d) ≡ lookup k d
  unfolding add_quote
  add_quote-unwanted k wanted none price d h = refl
  add_quote-unwanted k wanted (some b) price d h = elim (Bool-cases (contains wanted b)) [
    | inl has ↦
        let apart : (k == b) ≡ false = ground (arith, text_beq_iff k b) in
        rw has (lookup-put k b price d ∙ rw apart refl)
    | inr hasnt ↦ rw hasnt refl
  ]

  read_quotes-unwanted :
      (k suffix : Text) (wanted : List Text) (ts : List (Ticker F)) (d : Dict Text F)
      → contains wanted k ≡ false
      → lookup k (read_quotes suffix wanted ts d) ≡ lookup k d
  unfolding read_quotes
  read_quotes-unwanted k suffix wanted [] d h = refl
  read_quotes-unwanted k suffix wanted (t ∷ ts) d h =
      read_quotes-unwanted k suffix wanted ts
        (add_quote wanted (cut_suffix suffix t.symbol) t.price d) h
      ∙ add_quote-unwanted k wanted (cut_suffix suffix t.symbol) t.price d h

  -- An asset that was asked for has the price of the last row of its market that has one, and no
  -- other asset has a price.
  get_ticker_prices-lookup :
      (k suffix : Text) (assets : List Text) (ts : List (Ticker F))
      → lookup k (get_ticker_prices suffix assets (some ts))
        ≡ (if contains (map upper assets) k then last_quote suffix k ts else none)
  unfolding get_ticker_prices lookup
  get_ticker_prices-lookup k suffix [] ts = refl
  get_ticker_prices-lookup k suffix (a ∷ assets) ts =
      elim (Bool-cases (contains (map upper (a ∷ assets)) k)) [
        | inl wanted ↦ rw wanted (
            lookup-read_quotes k suffix (map upper (a ∷ assets)) ts [] wanted
            ∙ first_of-none (last_quote suffix k ts))
        | inr other ↦ rw other (read_quotes-unwanted k suffix (map upper (a ∷ assets)) ts [] other)
      ]
