-- ===== src/Share/Patches.antt =====
-- What the body of an update does to the fields of a share link (backend/app/api/v1/share.py).
use coin_hq.Base.{
  ℕ, refl, List, Option, not, keep, change, Bool-cases, true, false, ◌≡◌, ◌⊎◌, inl, inr, [], ◌∷◌,
  none, some, arith, find, ◌==◌, nat_eq,
}
use coin_hq.Base.Text.{text_eq}
use coin_hq.Store.{ShareLink}
use coin_hq.Share.{
  ShareLinkUpdate, apply_update, breaks_not_null, Patch, unset, null, put, patch, is_null,
  patch_option,
}

module _ {A : Type 0} where
  -- What a field of the body does to a column that takes no null.
  abbrev pub Sets : Patch A → A → A → Type 0
  Sets unset old new = new ≡ old
  Sets null old new = ⊥
  Sets (put x) old new = new ≡ x

  -- And to a column that may be null.
  abbrev pub SetsOption : Patch A → Option A → Option A → Type 0
  SetsOption unset old new = new ≡ old
  SetsOption null old new = new ≡ none
  SetsOption (put x) old new = new ≡ some x

  is_null-null : (p : Patch A) → is_null p ≡ true → p ≡ null
  is_null-null unset h = absurd cc
  is_null-null null h = refl
  is_null-null (put x) h = absurd cc

  patch-Sets : (p : Patch A) (old : A) → is_null p ≡ false → Sets p old (patch p old)
  patch-Sets unset old h = refl
  patch-Sets null old h = absurd cc
  patch-Sets (put x) old h = refl

  patch_option-SetsOption : (p : Patch A) (old : Option A) → SetsOption p old (patch_option p old)
  patch_option-SetsOption unset old = refl
  patch_option-SetsOption null old = refl
  patch_option-SetsOption (put x) old = refl

module _ {F : Type 0} where
  -- Each field that the body gives is set, every other is as it was.
  pub record IsUpdated (u : ShareLinkUpdate F) (old new : ShareLink F) : Type 0 where
    pub show_total_value : Sets u.show_total_value old.show_total_value new.show_total_value
    pub show_coin_amounts : Sets u.show_coin_amounts old.show_coin_amounts new.show_coin_amounts
    pub show_exchange_names :
        Sets u.show_exchange_names old.show_exchange_names new.show_exchange_names
    pub show_allocation_pct :
        Sets u.show_allocation_pct old.show_allocation_pct new.show_allocation_pct
    pub show_avg_buy_price : Sets u.show_avg_buy_price old.show_avg_buy_price new.show_avg_buy_price
    pub allow_follow : Sets u.allow_follow old.allow_follow new.allow_follow
    pub can_trade : Sets u.can_trade old.can_trade new.can_trade
    pub trade_direction : Sets u.trade_direction old.trade_direction new.trade_direction
    pub expires_at : SetsOption u.expires_at old.expires_at new.expires_at
    pub label : SetsOption u.label old.label new.label
    pub trade_allowed_coins :
        SetsOption u.trade_allowed_coins old.trade_allowed_coins new.trade_allowed_coins
    pub trade_max_per_order_usd :
        SetsOption u.trade_max_per_order_usd old.trade_max_per_order_usd new.trade_max_per_order_usd
    pub trade_daily_limit_usd :
        SetsOption u.trade_daily_limit_usd old.trade_daily_limit_usd new.trade_daily_limit_usd
    pub id : new.id ≡ old.id
    pub profile_id : new.profile_id ≡ old.profile_id
    pub token : new.token ≡ old.token
    pub is_active : new.is_active ≡ old.is_active
    pub view_count : new.view_count ≡ old.view_count
    pub last_viewed_at : new.last_viewed_at ≡ old.last_viewed_at
    pub created_at : new.created_at ≡ old.created_at

  pub apply_update-IsUpdated :
      (u : ShareLinkUpdate F) (l : ShareLink F)
      → breaks_not_null u ≡ false
      → IsUpdated u l (apply_update u l)
  unfolding breaks_not_null apply_update
  apply_update-IsUpdated u l h = record {
    show_total_value = patch-Sets u.show_total_value l.show_total_value (ground (arith, h));
    show_coin_amounts = patch-Sets u.show_coin_amounts l.show_coin_amounts (ground (arith, h));
    show_exchange_names =
        patch-Sets u.show_exchange_names l.show_exchange_names (ground (arith, h));
    show_allocation_pct =
        patch-Sets u.show_allocation_pct l.show_allocation_pct (ground (arith, h));
    show_avg_buy_price = patch-Sets u.show_avg_buy_price l.show_avg_buy_price (ground (arith, h));
    allow_follow = patch-Sets u.allow_follow l.allow_follow (ground (arith, h));
    can_trade = patch-Sets u.can_trade l.can_trade (ground (arith, h));
    trade_direction = patch-Sets u.trade_direction l.trade_direction (ground (arith, h));
    expires_at = patch_option-SetsOption u.expires_at l.expires_at;
    label = patch_option-SetsOption u.label l.label;
    trade_allowed_coins = patch_option-SetsOption u.trade_allowed_coins l.trade_allowed_coins;
    trade_max_per_order_usd =
        patch_option-SetsOption u.trade_max_per_order_usd l.trade_max_per_order_usd;
    trade_daily_limit_usd = patch_option-SetsOption u.trade_daily_limit_usd l.trade_daily_limit_usd;
    id = refl;
    profile_id = refl;
    token = refl;
    is_active = refl;
    view_count = refl;
    last_viewed_at = refl;
    created_at = refl;
  }

  -- A `null` for a column that takes none.
  abbrev pub GivesNull : ShareLinkUpdate F → Type 0
  GivesNull u =
      (u.show_total_value ≡ null)
      ⊎ (u.show_coin_amounts ≡ null)
      ⊎ (u.show_exchange_names ≡ null)
      ⊎ (u.show_allocation_pct ≡ null)
      ⊎ (u.show_avg_buy_price ≡ null)
      ⊎ (u.allow_follow ≡ null)
      ⊎ (u.can_trade ≡ null)
      ⊎ (u.trade_direction ≡ null)

  pub find_updated :
      (i : ℕ) (u : ShareLinkUpdate F) (ls : List (ShareLink F)) (old : ShareLink F)
      → find (λ l. l.id == i) ls ≡ some old
      → find (λ l. l.id == i) (change (λ l. l.id == i) (apply_update u) ls)
        ≡ some (apply_update u old)
  unfolding apply_update
  find_updated i u [] old h = absurd cc
  find_updated i u (l ∷ ls) old h = elim (Bool-cases (l.id == i)) [
    | inl is ↦ ground (arith, is, h)
    | inr isnt ↦ ground (arith, isnt, h, find_updated i u ls old)
  ]

  pub others_kept :
      (i : ℕ) (u : ShareLinkUpdate F) (ls : List (ShareLink F))
      → keep (λ l. not (l.id == i)) (change (λ l. l.id == i) (apply_update u) ls)
        ≡ keep (λ l. not (l.id == i)) ls
  unfolding apply_update
  others_kept i u [] = refl
  others_kept i u (l ∷ ls) = ground (arith, others_kept i u ls)

  pub breaks_not_null-GivesNull : (u : ShareLinkUpdate F) → breaks_not_null u ≡ true → GivesNull u
  unfolding breaks_not_null
  breaks_not_null-GivesNull u h = ground (
    arith,
    is_null-null u.show_total_value,
    is_null-null u.show_coin_amounts,
    is_null-null u.show_exchange_names,
    is_null-null u.show_allocation_pct,
    is_null-null u.show_avg_buy_price,
    is_null-null u.allow_follow,
    is_null-null u.can_trade,
    is_null-null u.trade_direction,
  )
