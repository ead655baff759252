-- ===== src/Ledger.antt =====
-- apps/api/src/services/ledger.service.ts: the double-entry ledger. Entries to be recorded count
-- units of 10^-8, so that the product of a price and a quantity is one; rows count units of 10^-4.
pub mod Balance
pub mod Stored
pub mod Tests
use trade_alpha.Base.{
  ℕ, Bool, true, false, ◌||◌, ◌&&◌, ◌==◌, Option, none, some, List, [], ◌∷◌, map, String, str_eq,
  if◌then◌else◌,
}
use Prim.Native.String.{◌++◌ as join}
use mathlib.Core.Option.{get_or}
use trade_alpha.Int.{ℤ, pos, ◌+ℤ◌, ◌-ℤ◌, ltb_ℤ, eqb_ℤ}
use trade_alpha.Column.{Column}
use trade_alpha.Dict.{Dict, lookup, insert}
use trade_alpha.Store.Rows.{
  Store, Account, user_cash, user_sec, platform_cash, platform_sec, LedgerEntry, LedgerTransaction,
  Portfolio, Position,
}
use trade_alpha.Store.Tx.{
  Tx, Result, Error, ok, err, modify, negative_ledger_entry, ledger_imbalance, symbol_mismatch,
}

pub record NewLedgerEntry : Type 0 where
  pub account_id : Account
  pub asset_type : String
  pub asset_symbol : String
  pub debit : ℤ
  pub credit : ℤ

unfoldable pub asset_key : NewLedgerEntry → String
asset_key e = join e.asset_type (join ":" e.asset_symbol)

-- The first loop of `validateEntries`.
unfoldable pub tally : Dict ℤ → List NewLedgerEntry → Result (Dict ℤ)
tally balances [] = ok balances
tally balances (e ∷ es) =
    if ltb_ℤ e.debit (pos 0) || ltb_ℤ e.credit (pos 0)
    then err negative_ledger_entry
    else tally
        (insert (asset_key e)
          (get_or (lookup (asset_key e) balances) (pos 0) +ℤ e.debit -ℤ e.credit) balances)
        es

-- The second loop.
unfoldable pub check_balances : Dict ℤ → Result (Unit {0})
check_balances [] = ok tt
check_balances ((asset, balance) ∷ m) =
    if eqb_ℤ balance (pos 0) then check_balances m else err (ledger_imbalance asset)

unfoldable pub validate_entries : List NewLedgerEntry → Result (Unit {0})
unfolding tally check_balances
validate_entries entries = elim (tally [] entries) [
  | err e ↦ err e
  | ok balances ↦ check_balances balances
]

module _ (c : Column) where
  -- The row that `create` makes of an entry.
  abbrev pub entry_row : NewLedgerEntry → LedgerEntry
  entry_row e = record {
    account_id = e.account_id;
    asset_type = e.asset_type;
    asset_symbol = e.asset_symbol;
    debit = c.write e.debit (pos 10_000);
    credit = c.write e.credit (pos 10_000);
  }

  unfoldable pub record_transaction : String → ℕ → List NewLedgerEntry → Tx (Unit {0})
  record_transaction reference_type reference_id entries s = elim (validate_entries entries) [
    | err e ↦ err e
    | ok _ ↦
        modify
          (λ s. record s {
            ledger =
                record {
                  reference_type = reference_type;
                  reference_id = reference_id;
                  entries = map entry_row entries;
                }
                ∷ s.ledger;
          })
          s
  ]

-- Same account. The templates of different accounts give different strings.
abbrev pub account_eq : Account → Account → Bool
account_eq (user_cash u) (user_cash v) = u == v
account_eq (user_sec u s) (user_sec v t) = u == v && str_eq s t
account_eq platform_cash platform_cash = true
account_eq (platform_sec s) (platform_sec t) = str_eq s t
account_eq _ _ = false

-- SUM(credit) - SUM(debit) over the entries that a query selects, in a loop over the entries.
unfoldable pub sum_entries : (LedgerEntry → Bool) → List LedgerEntry → ℤ → ℤ
sum_entries selects [] acc = acc
sum_entries selects (e ∷ es) acc =
    sum_entries selects es (if selects e then acc +ℤ e.credit -ℤ e.debit else acc)

-- The entries of one transaction after another.
unfoldable pub sum_ledger : (LedgerEntry → Bool) → List LedgerTransaction → ℤ → ℤ
unfolding sum_entries
sum_ledger selects [] acc = acc
sum_ledger selects (t ∷ ts) acc = sum_ledger selects ts (sum_entries selects t.entries acc)

abbrev pub is_cash_entry : Account → LedgerEntry → Bool
is_cash_entry account e = account_eq e.account_id account && str_eq e.asset_type "FIAT"

abbrev pub is_security_entry : Account → String → LedgerEntry → Bool
is_security_entry account symbol e =
    account_eq e.account_id account
    && str_eq e.asset_type "SECURITY"
    && str_eq e.asset_symbol symbol

pub record Reconciliation : Type 0 where
  pub is_balanced : Bool
  pub ledger_amount : ℤ
  pub held_amount : ℤ

abbrev compare_amounts : ℤ → ℤ → Reconciliation
compare_amounts ledger held = record {
  is_balanced = eqb_ℤ ledger held;
  ledger_amount = ledger;
  held_amount = held;
}

unfoldable pub reconcile_portfolio_cash : Store → Portfolio → Account → Reconciliation
unfolding sum_ledger
reconcile_portfolio_cash s portfolio account =
    compare_amounts (sum_ledger (is_cash_entry account) s.ledger (pos 0)) portfolio.total_cash

unfoldable pub reconcile_position : Store → Position → Account → String → Result Reconciliation
unfolding sum_ledger
reconcile_position s position account symbol =
    if str_eq position.symbol symbol
    then ok (
        compare_amounts (sum_ledger (is_security_entry account symbol) s.ledger (pos 0))
          position.quantity)
    else err symbol_mismatch
