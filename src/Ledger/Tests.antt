-- ===== src/Ledger/Tests.antt =====
-- Entries that balance, and entries that do not.
use trade_alpha.Base.{◌≡◌, ◌↔◌, refl, List, [], ◌∷◌, All, String}
use trade_alpha.Int.{ℤ, pos, ◌+ℤ◌, ◌-ℤ◌}
use trade_alpha.Store.Rows.{user_cash, platform_cash}
use trade_alpha.Store.Tx.{ok, err, ledger_imbalance}
use trade_alpha.Ledger.{NewLedgerEntry, asset_key, tally, check_balances, validate_entries}
use trade_alpha.Ledger.Balance.{net, IsNonnegative, validate_entries_iff}

abbrev paid_in : ℤ → List NewLedgerEntry
paid_in amount =
    record {
      account_id = user_cash 1;
      asset_type = "FIAT";
      asset_symbol = "USD";
      debit = pos 5;
      credit = pos 0;
    }
    ∷ record {
      account_id = platform_cash;
      asset_type = "FIAT";
      asset_symbol = "USD";
      debit = pos 0;
      credit = amount;
    }
    ∷ []

balanced_test : validate_entries (paid_in (pos 5)) ≡ ok tt
unfolding validate_entries tally check_balances asset_key ◌+ℤ◌ ◌-ℤ◌
balanced_test = refl

imbalance_test : validate_entries (paid_in (pos 4)) ≡ err (ledger_imbalance "FIAT:USD")
unfolding validate_entries tally check_balances asset_key ◌+ℤ◌ ◌-ℤ◌
imbalance_test = refl

validate_entries_iff_example : (validate_entries (paid_in (pos 5)) ≡ ok tt) ↔ (
    All IsNonnegative (paid_in (pos 5)) × ((asset : String) → net asset (paid_in (pos 5)) ≡ pos 0))
validate_entries_iff_example = validate_entries_iff (paid_in (pos 5))
