-- ===== src/Ledger/Balance.antt =====
-- `validateEntries` against the sums of each asset.
use trade_alpha.Base.{
  ◌||◌, ◌≡◌, ◌↔◌, refl, List, [], ◌∷◌, String, str_eq, str_eq_iff, if◌then◌else◌, arith, All, ap,
  inl, inr, Bool-cases,
}
use mathlib.Core.Option.{get_or}
use trade_alpha.Int.{ℤ, pos, ◌+ℤ◌, ◌-ℤ◌, ◌≤ℤ◌, ltb_ℤ}
use trade_alpha.Int.Ring.{int_laws, parts, eq_of_parts}
use trade_alpha.Dict.{Dict, lookup, insert, lookup-insert, IsMap, insert-IsMap}
use trade_alpha.Store.Tx.{ok, Result-cases}
use trade_alpha.Ledger.{NewLedgerEntry, asset_key, tally, check_balances, validate_entries}

-- What the entries move for one asset: its debits less its credits.
abbrev pub net : String → List NewLedgerEntry → ℤ
net asset [] = pos 0
net asset (e ∷ es) =
    (if str_eq (asset_key e) asset then e.debit -ℤ e.credit else pos 0) +ℤ net asset es

abbrev pub IsNonnegative : NewLedgerEntry → Type 0
IsNonnegative e = (pos 0 ≤ℤ e.debit) × (pos 0 ≤ℤ e.credit)

abbrev balance_of : String → Dict ℤ → ℤ
balance_of asset m = get_or (lookup asset m) (pos 0)

-- What the first loop gives: the old balance of every asset with what the entries move.
record Tallied (m : Dict ℤ) (es : List NewLedgerEntry) (m' : Dict ℤ) : Type 0 where
  moved : (asset : String) → balance_of asset m' ≡ balance_of asset m +ℤ net asset es
  is_map : IsMap m'
  nonnegative : All IsNonnegative es

balance_of-insert :
    (k a : String) (v : ℤ) (m : Dict ℤ)
    → balance_of a (insert k v m) ≡ (if str_eq k a then v else balance_of a m)
balance_of-insert k a v m = ground (arith, lookup-insert k a v m)

-- One entry: what it adds to its asset is what `net` counts for it.
moved_step :
    (m m' : Dict ℤ) (e : NewLedgerEntry) (es : List NewLedgerEntry)
    → let k = asset_key e in
      let v = balance_of k m +ℤ e.debit -ℤ e.credit in
      ((a : String) → balance_of a m' ≡ balance_of a (insert k v m) +ℤ net a es)
      → (a : String) → balance_of a m' ≡ balance_of a m +ℤ net a (e ∷ es)
moved_step m m' e es h a = elim (Bool-cases (str_eq (asset_key e) a)) [
  | inl same ↦
      rw (h a, balance_of-insert (asset_key e) a _ m, same)
        (omega (int_laws, parts (ap (λ t. balance_of t m) ((str_eq_iff (asset_key e) a).0 same))))
  | inr other ↦ rw (h a, balance_of-insert (asset_key e) a _ m, other) (omega int_laws)
]

tally-Tallied :
    (m : Dict ℤ) (es : List NewLedgerEntry) {m' : Dict ℤ}
    → IsMap m
    → tally m es ≡ ok m'
    → Tallied m es m'
unfolding tally
tally-Tallied m [] h e = record {
  moved =
      λ a. ground (arith, eq_of_parts (balance_of a m) (balance_of a m +ℤ pos 0) (omega int_laws));
  is_map = ground arith;
  nonnegative = tt;
}
tally-Tallied m (e ∷ es) {m'} h run =
    elim (Bool-cases (ltb_ℤ e.debit (pos 0) || ltb_ℤ e.credit (pos 0))) [
      | inl bad ↦ ground arith
      | inr good ↦
          let rest =
            tally-Tallied
              (insert (asset_key e) (balance_of (asset_key e) m +ℤ e.debit -ℤ e.credit) m) es
              {m' = m'} (insert-IsMap (asset_key e) _ m h) (ground arith) in
          record {
            moved = moved_step m m' e es rest.moved;
            is_map = rest.is_map;
            nonnegative = ((ground arith, ground arith), rest.nonnegative);
          }
    ]

tally_total :
    (m : Dict ℤ) (es : List NewLedgerEntry)
    → All IsNonnegative es
    → (m' : Dict ℤ) × (tally m es ≡ ok m')
unfolding tally
tally_total m [] h = (m, refl)
tally_total m (e ∷ es) h = ground (
  arith,
  tally_total (insert (asset_key e) (balance_of (asset_key e) m +ℤ e.debit -ℤ e.credit) m) es h.1,
)

check_balances_sound : (m : Dict ℤ) (a : String) → check_balances m ≡ ok tt → balance_of a m ≡ pos 0
unfolding check_balances
check_balances_sound [] a h = refl
check_balances_sound ((k, v) ∷ m) a h =
    ground (arith, check_balances_sound m a, eq_of_parts v (pos 0))

check_balances_complete :
    (m : Dict ℤ) → IsMap m → ((a : String) → balance_of a m ≡ pos 0) → check_balances m ≡ ok tt
unfolding check_balances
check_balances_complete [] h z = refl
check_balances_complete ((k, v) ∷ m) h z = ground (
  arith,
  z k,
  str_eq_iff k k,
  check_balances_complete m h.1 (λ a. ground (arith, z a, str_eq_iff k a)),
)

-- `validateEntries` accepts entries exactly if no debit and no credit is negative, and for every
-- asset the debits and the credits have the same sum.
pub validate_entries_iff :
    (es : List NewLedgerEntry)
    → (validate_entries es ≡ ok tt)
      ↔ (All IsNonnegative es × ((asset : String) → net asset es ≡ pos 0))
unfolding validate_entries
validate_entries_iff es = (accepted, balanced)
  where
    accepted :
        validate_entries es ≡ ok tt → All IsNonnegative es × ((a : String) → net a es ≡ pos 0)
    accepted h = elim (Result-cases (tally [] es)) [
      | inl (e, failed) ↦ ground arith
      | inr (m, run) ↦
          let t = tally-Tallied [] es {m' = m} tt run in
          let sound : check_balances m ≡ ok tt = ground arith in
          (
            t.nonnegative,
            λ a.
                eq_of_parts _ _
                  (omega (int_laws, parts (t.moved a), parts (check_balances_sound m a sound))),
          )
    ]

    balanced :
        All IsNonnegative es × ((a : String) → net a es ≡ pos 0) → validate_entries es ≡ ok tt
    balanced h =
        let (m, run) = tally_total [] es h.0 in
        let t = tally-Tallied [] es {m' = m} tt run in
        rw (run, validate_entries)
          (check_balances_complete m t.is_map
            (λ a. eq_of_parts _ _ (omega (int_laws, parts (t.moved a), parts (h.1 a)))))
