-- ===== src/Adapters/Binance/Complete.antt =====
-- A paged history is fetched whole, unless the budget ends (backend/app/exchanges/binance.py).
use coin_hq.Base.{
  ℕ, suc, ◌+◌, ◌≤◌, ◌<◌, true, false, List, [], ◌∷◌, ◌++◌, append_assoc, Option, none, some, ◌≡◌,
  refl, sym, ap, subst, ◌∙◌, ◌⊎◌, inl, inr, arith, map, keep-keep, take, drop, take-drop,
  take-short, length, leb, ltb, Bool-cases,
}
use coin_hq.Adapters.Binance.Walk.{
  Row, rows, Walk, fill_page_limit, last_id, fills_of, add_rows, turn_page, receive,
}
use coin_hq.Adapters.Binance.Trades.{
  Trades, row, IsAscending, since, fills_in, last_of, last_id-row, fills_of-append,
  since-IsAscending, since-floor, since-last, last_of-some, last_above,
}

map-append_rows : {F : Type 0} (ts us : Trades F) → map row (ts ++ us) ≡ map row ts ++ map row us
map-append_rows [] us = refl
map-append_rows (t ∷ ts) us = ap (◌∷◌ (row t)) (map-append_rows ts us)

length-map-row : {F : Type 0} (ts : Trades F) → length (map row ts) ≡ length ts
length-map-row [] = refl
length-map-row (t ∷ ts) = ap suc (length-map-row ts)

below_of : (a b : ℕ) → ltb a b ≡ true → a < b
below_of a b h = ground arith

not_below : (a b : ℕ) → ltb a b ≡ false → b ≤ a
not_below a b h = ground arith

module _ {F : Type 0} where
  fills_in-append : (ts us : Trades F) → fills_in (ts ++ us) ≡ fills_in ts ++ fills_in us
  fills_in-append ts us =
      ap fills_of (map-append_rows ts us) ∙ fills_of-append (map row ts) (map row us)

  -- The page that the exchange documents: the oldest trades from an id on.
  abbrev pub page : Trades F → ℕ → List (Row F)
  page ts from_id = map row (take fill_page_limit (since from_id ts))

  -- A walk is on its way through a history: what it has and what is to come are all of it.
  abbrev pub IsAlong : Trades F → Walk F → Type 0
  IsAlong ts w = w.out ++ fills_in (since w.from_id ts) ≡ fills_in ts

  -- A walk that is done has all fills, and one that waits is on its way.
  abbrev pub Advances : Trades F → Walk F → Option (Walk F) → Type 0
  Advances ts w none = ⊥
  Advances ts w (some w') =
      (w'.base ≡ w.base)
      × (w'.quote ≡ w.quote)
      × (((w'.is_done ≡ true) × (w'.out ≡ fills_in ts))
          ⊎ ((w'.is_done ≡ w.is_done) × IsAlong ts w'))

  -- A full page and what follows it.
  next-IsAlong :
      (n i : ℕ) (ts : Trades F) (w : Walk F)
      → IsAscending ts
      → IsAlong ts w
      → last_of (take n (since w.from_id ts)) ≡ some i
      → (w.out ++ fills_in (take n (since w.from_id ts))) ++ fills_in (since (suc i) ts)
        ≡ fills_in ts
  next-IsAlong n i ts w a h last =
      let here = since w.from_id ts in
      let above : w.from_id ≤ i = last_above w.from_id n i here (since-floor w.from_id ts) last in
      let rest : since (suc i) ts ≡ drop n here =
        sym (keep-keep (λ t. leb w.from_id t.0) (λ t. leb (suc i) t.0) (λ t b. ground arith) ts)
        ∙ since-last n i here (since-IsAscending w.from_id ts a) last in
      append_assoc w.out (fills_in (take n here)) (fills_in (since (suc i) ts))
      ∙ ap (λ fs. w.out ++ fs)
          (sym (fills_in-append (take n here) (since (suc i) ts))
            ∙ ap fills_in (ap (λ us. take n here ++ us) rest ∙ take-drop n here))
      ∙ h

  pub receive-Advances :
      (ts : Trades F) (w : Walk F)
      → IsAscending ts
      → IsAlong ts w
      → Advances ts w (receive (rows (page ts w.from_id)) w)
  unfolding receive
  receive-Advances ts w a h =
      let here = take fill_page_limit (since w.from_id ts) in
      let long : length (page ts w.from_id) ≡ length here = length-map-row here in
      elim (Bool-cases (ltb (length (page ts w.from_id)) fill_page_limit)) [
        | inl short ↦
            let below =
              subst (λ m. m < fill_page_limit) long
                (below_of (length (page ts w.from_id)) fill_page_limit short) in
            let whole = take-short fill_page_limit (since w.from_id ts) below in
            rw short (refl, refl, inl (refl, ap (λ us. w.out ++ fills_in us) whole ∙ h))
        | inr full ↦
            let above =
              subst (λ m. fill_page_limit ≤ m) long
                (not_below (length (page ts w.from_id)) fill_page_limit full) in
            let (i, last) =
              last_of-some fill_page_limit (since w.from_id ts) (omega (arith, above)) in
            let at : last_id (page ts w.from_id) ≡ some i = last_id-row here ∙ last in
            let next : i + 1 ≡ suc i = omega arith in
            let along = next-IsAlong fill_page_limit i ts w a h last in
            rw full (
              subst (λ o. Advances ts w (some (turn_page o (add_rows (page ts w.from_id) w))))
                (sym at)
                (
                  refl,
                  refl,
                  inr (
                    refl,
                    subst (λ k. (w.out ++ fills_in here) ++ fills_in (since k ts) ≡ fills_in ts)
                        (sym next) along,
                  ),
                ))
      ]
