-- ===== src/Adapters/Permissions.antt =====
-- Which keys the adapters accept: `validate_key` and `validate_trade_key` of
-- backend/app/exchanges/*.py, of what the exchange tells about a key. Log lines are left out.
use coin_hq.Base.{
  ℕ, Bool, true, false, ◌&&◌, ◌||◌, not, List, [], ◌∷◌, ◌≡◌, ◌≢◌, ◌⊎◌, inl, ◌↔◌, arith, any,
  if◌then◌else◌, ◌==◌, nat_beq,
}
use coin_hq.Base.Text.{Text, text, text_eq, text_beq_iff, lower, starts_with}
use coin_hq.Exchanges.{Adapter, demo, binance, bybit, okx, coinbase, kraken, binancetr, gateio}

-- The key is accepted, refused with a `ValueError`, or the call ends in another exception.
pub data Verdict : Type 0 where
  accepted : Verdict
  refused : Verdict
  broken : Verdict

-- `p in s`
unfoldable pub is_infix : Text → Text → Bool
is_infix p [] = starts_with [] p
is_infix p (c ∷ s) = starts_with (c ∷ s) p || is_infix p s

-- What an exchange answers, as far as it is read: a failure of the call, a status that is no
-- success, or a body. A field that is absent has the value of the code's default.
pub data KeyAnswer : Type 0 where
  failure : KeyAnswer
  status : ℕ → KeyAnswer
  -- enableWithdrawals, enableInternalTransfer and canTrade
  binance_account : Bool → Bool → Bool → KeyAnswer
  -- readOnly as a text, permissions.Withdraw, and whether permissions.Spot holds anything
  bybit_key : Text → Bool → Bool → KeyAnswer
  -- perm
  okx_user : Text → KeyAnswer
  -- error
  kraken_token : List Text → KeyAnswer
  -- whether the code is one of success
  binancetr_account : Bool → KeyAnswer
  -- a success whose body is not read
  accounts : KeyAnswer
  -- no call: the paper exchange looks at the key
  demo_key : Text → KeyAnswer

abbrev pub verdict : Bool → Verdict
verdict true = accepted
verdict false = refused

abbrev pub binance_key : KeyAnswer → Verdict
binance_key (binance_account withdrawals transfers can_trade) =
    verdict (not (withdrawals || transfers))
binance_key _ = broken

abbrev pub binance_trade_key : KeyAnswer → Verdict
binance_trade_key (binance_account withdrawals transfers can_trade) =
    if withdrawals || transfers then refused else verdict can_trade
binance_trade_key _ = broken

abbrev pub bybit_key_check : KeyAnswer → Verdict
bybit_key_check (bybit_key read_only withdraw spot) = verdict (not (read_only == text "0"))
bybit_key_check _ = broken

abbrev pub bybit_trade_key : KeyAnswer → Verdict
bybit_trade_key (bybit_key read_only withdraw spot) =
    if withdraw then refused else verdict (not (not (read_only == text "0") && not spot))
bybit_trade_key _ = broken

abbrev pub okx_key : KeyAnswer → Verdict
okx_key (okx_user perm) = verdict (not (is_infix (text "trade") (lower perm)))
okx_key _ = broken

abbrev pub okx_trade_key : KeyAnswer → Verdict
okx_trade_key (okx_user perm) =
    if is_infix (text "withdraw") (lower perm)
    then refused
    else verdict (is_infix (text "trade") (lower perm))
okx_trade_key _ = broken

-- Coinbase, Kraken, Binance TR and Gate.io check a trade key as any key.
abbrev pub coinbase_key : KeyAnswer → Verdict
coinbase_key (status s) = if nat_beq s 401 then refused else broken
coinbase_key accounts = accepted
coinbase_key _ = broken

abbrev pub kraken_key : KeyAnswer → Verdict
kraken_key (status s) = if nat_beq s 403 then refused else broken
kraken_key (kraken_token []) = accepted
kraken_key (kraken_token (e ∷ errors)) =
    verdict (any (is_infix (text "Permission denied")) (e ∷ errors))
kraken_key _ = broken

abbrev pub binancetr_key : KeyAnswer → Verdict
binancetr_key (binancetr_account success) = verdict success
binancetr_key _ = broken

abbrev pub gateio_key : KeyAnswer → Verdict
gateio_key (status s) = if nat_beq s 401 || nat_beq s 403 then refused else broken
gateio_key accounts = accepted
gateio_key _ = broken

abbrev pub demo_key_check : KeyAnswer → Verdict
demo_key_check (demo_key key) = verdict (not (is_infix (text "write") (lower key)))
demo_key_check _ = broken

abbrev pub demo_trade_key : KeyAnswer → Verdict
demo_trade_key (demo_key key) = verdict (not (is_infix (text "withdraw") (lower key)))
demo_trade_key _ = broken

-- The method of the adapter.
unfoldable pub validate_key : Adapter → KeyAnswer → Verdict
validate_key binance = binance_key
validate_key bybit = bybit_key_check
validate_key okx = okx_key
validate_key coinbase = coinbase_key
validate_key kraken = kraken_key
validate_key binancetr = binancetr_key
validate_key gateio = gateio_key
validate_key demo = demo_key_check

unfoldable pub validate_trade_key : Adapter → KeyAnswer → Verdict
validate_trade_key binance = binance_trade_key
validate_trade_key bybit = bybit_trade_key
validate_trade_key okx = okx_trade_key
validate_trade_key coinbase = coinbase_key
validate_trade_key kraken = kraken_key
validate_trade_key binancetr = binancetr_key
validate_trade_key gateio = gateio_key
validate_trade_key demo = demo_trade_key

-- What the answer says of the key: it moves funds off the account.
abbrev pub moves_funds : KeyAnswer → Bool
moves_funds (binance_account withdrawals transfers can_trade) = withdrawals || transfers
moves_funds (bybit_key read_only withdraw spot) = withdraw
moves_funds (okx_user perm) = is_infix (text "withdraw") (lower perm)
moves_funds (demo_key key) = is_infix (text "withdraw") (lower key)
moves_funds _ = false

-- What the answer says of the key: it places spot orders. A key of Bybit does if it is not
-- read-only and has a permission for spot. The paper exchange trades with any key.
abbrev pub can_trade : KeyAnswer → Bool
can_trade (binance_account withdrawals transfers can) = can
can_trade (bybit_key read_only withdraw spot) = read_only == text "0" && spot
can_trade (okx_user perm) = is_infix (text "trade") (lower perm)
can_trade (demo_key key) = true
can_trade _ = false

-- The adapters that read the permissions of a key.
abbrev pub reads_permissions : Adapter → Bool
reads_permissions binance = true
reads_permissions bybit = true
reads_permissions okx = true
reads_permissions demo = true
reads_permissions _ = false

-- A key of Bybit that has one of the two permissions that trading takes, and not the other.
abbrev pub IsHalfAble : Adapter → KeyAnswer → Type 0
IsHalfAble bybit (bybit_key read_only withdraw spot) =
    ((read_only ≡ text "0") × (spot ≡ false)) ⊎ ((read_only ≢ text "0") × (spot ≡ true))
IsHalfAble _ _ = ⊥

-- Binance, Bybit, OKX and the paper exchange, where the check does not end in another exception,
-- accept a trade key just if the answer says that the key moves no funds off the account and that
-- it places spot orders; but for the keys of Bybit that have one of the two permissions that
-- trading takes and not the other, which are accepted though they cannot trade.
pub validate_trade_key-verdict :
    (a : Adapter) (answer : KeyAnswer)
    → reads_permissions a ≡ true
    → validate_trade_key a answer ≢ broken
    → ((validate_trade_key a answer ≡ accepted)
        ↔ ((moves_funds answer ≡ false) × (can_trade answer ≡ true)))
      ⊎ (IsHalfAble a answer
          × (moves_funds answer ≡ false)
          × (can_trade answer ≡ false)
          × (validate_trade_key a answer ≡ accepted))
unfolding validate_trade_key
validate_trade_key-verdict binance (binance_account w t c) h b = inl (ground arith)
validate_trade_key-verdict bybit (bybit_key r w s) h b = ground (arith, text_beq_iff r (text "0"))
validate_trade_key-verdict okx (okx_user perm) h b = inl (ground arith)
validate_trade_key-verdict demo (demo_key key) h b = inl (ground arith)
validate_trade_key-verdict _ _ h b = inl (ground arith)
