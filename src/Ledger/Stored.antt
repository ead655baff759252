-- ===== src/Ledger/Stored.antt =====
-- What a recorded transaction leaves in the ledger.
use trade_alpha.Base.{ℕ, ◌≡◌, List, ◌∷◌, map, String, arith}
use trade_alpha.Column.{Column}
use trade_alpha.Store.Rows.{Store, LedgerTransaction}
use trade_alpha.Store.Tx.{ok}
use trade_alpha.Ledger.{NewLedgerEntry, entry_row, record_transaction, validate_entries}

-- The row of a transaction.
abbrev pub transaction_row : Column → String → ℕ → List NewLedgerEntry → LedgerTransaction
transaction_row c reference_type reference_id entries = record {
  reference_type = reference_type;
  reference_id = reference_id;
  entries = map (entry_row c) entries;
}

pub record_transaction_effect :
    (c : Column) (reference_type : String) (reference_id : ℕ) (entries : List NewLedgerEntry)
    (s s' : Store) (u : Unit {0})
    → record_transaction c reference_type reference_id entries s ≡ ok (u, s')
    → (validate_entries entries ≡ ok tt)
      × (s'
          ≡ record s { ledger = transaction_row c reference_type reference_id entries ∷ s.ledger })
unfolding record_transaction
record_transaction_effect c reference_type reference_id entries s s' u h = ground arith
