-- ===== src/Tests/Accounts.antt =====
-- Profiles, keys and tiers at concrete inputs.
use coin_hq.Base.{◌≤◌, false, arith, length, some}
use coin_hq.Base.Text.{text, text_eq, text_beq}
use coin_hq.Base.Int.{ℤ}
use coin_hq.Profiles.{delete_profile}
use coin_hq.Profiles.Deletion.{Deletes, delete_profile-Deletes}
use coin_hq.Keys.{Vault, KeyRequest, valid, distinct, exchanges_of, add_key}
use coin_hq.Keys.Laws.{add_key_within_tier}
use coin_hq.Tests.Fixtures.{alice, db}

abbrev vault : Vault
vault = record {
  encrypt = λ t. some t;
  validate_key = λ exchange key secret. valid;
  validate_trade_key = λ exchange key secret. valid;
}

abbrev kraken_request : KeyRequest
kraken_request = record {
  exchange = text "Kraken";
  api_key = text "k";
  api_secret = text "s";
  key_type = text "read_only";
}

delete_profile-Deletes_example : Deletes {F = ℤ} 10 11 alice db (delete_profile 10 alice db)
delete_profile-Deletes_example =
    delete_profile-Deletes 10 11 alice db (λ e. absurd (omega (arith, e)))

add_key_within_tier_example :
    length (distinct (exchanges_of {F = ℤ} 10 (add_key false vault 10 kraken_request alice db).1))
    ≤ 2
unfolding distinct text_beq
add_key_within_tier_example =
    add_key_within_tier false vault 10 kraken_request alice db (ground arith) (ground arith)
