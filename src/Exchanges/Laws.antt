-- ===== src/Exchanges/Laws.antt =====
-- The exchanges that the API accepts are those that have an adapter (backend/app/exchanges/factory.py).
use coin_hq.Base.{Bool, true, false, ◌≡◌, ◌≢◌, ◌↔◌, none, arith, contains}
use coin_hq.Base.Text.{Text, text_eq, lower}
use coin_hq.Exchanges.{get_adapter, supported_exchanges}

-- An exchange, in lower case, is on the list of supported ones exactly when `get_adapter` finds
-- an adapter for it, in demo mode or not.
pub get_adapter_iff :
    (demo_mode : Bool) (name : Text)
    → (contains (supported_exchanges demo_mode) (lower name) ≡ true)
      ↔ (get_adapter demo_mode name ≢ none)
unfolding get_adapter supported_exchanges
get_adapter_iff true name = ground arith
get_adapter_iff false name = ground arith
