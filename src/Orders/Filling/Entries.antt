-- ===== src/Orders/Filling/Entries.antt =====
-- The ledger entries of a fill.
use trade_alpha.Base.{◌≡◌, inl, inr, arith, Bool, true, false, if◌then◌else◌}
use trade_alpha.Int.{ℤ, pos, ◌+ℤ◌, ◌-ℤ◌, ◌*ℤ◌, ◌≤ℤ◌}
use trade_alpha.Int.Ring.{int_laws, mul_laws}
use trade_alpha.Store.Rows.{Order}
use trade_alpha.Store.Tx.{ok}
use trade_alpha.Ledger.{asset_key, validate_entries}
use trade_alpha.Ledger.Balance.{validate_entries_iff}
use trade_alpha.Orders.Filling.{fill_entries}
use trade_alpha.Orders.Filling.Effects.{side-cases}

-- A pair of assets, each with one amount on both sides.
buy_cancels :
    (x y : Bool) (a b : ℤ)
    → (if x then a -ℤ pos 0 else pos 0)
        +ℤ ((if x then pos 0 -ℤ a else pos 0)
            +ℤ ((if y then b -ℤ pos 0 else pos 0) +ℤ ((if y then pos 0 -ℤ b else pos 0) +ℤ pos 0)))
      ≡ pos 0
buy_cancels true true a b = omega int_laws
buy_cancels true false a b = omega int_laws
buy_cancels false true a b = omega int_laws
buy_cancels false false a b = omega int_laws

sell_cancels :
    (x y : Bool) (a b : ℤ)
    → (if x then pos 0 -ℤ a else pos 0)
        +ℤ ((if x then a -ℤ pos 0 else pos 0)
            +ℤ ((if y then pos 0 -ℤ b else pos 0) +ℤ ((if y then b -ℤ pos 0 else pos 0) +ℤ pos 0)))
      ≡ pos 0
sell_cancels true true a b = omega int_laws
sell_cancels true false a b = omega int_laws
sell_cancels false true a b = omega int_laws
sell_cancels false false a b = omega int_laws

-- The ledger entries of a fill of either side pass `validateEntries`, if its cost and its quantity
-- are not negative.
pub fill_entries_valid :
    (order : Order) (cost quantity : ℤ)
    → pos 0 ≤ℤ cost
    → pos 0 ≤ℤ quantity
    → validate_entries (fill_entries order cost quantity) ≡ ok tt
unfolding fill_entries asset_key
fill_entries_valid order cost quantity h k =
    let shares : pos 0 ≤ℤ quantity *ℤ pos 10_000 = omega mul_laws in
    elim (side-cases order.side) [
      | inl e ↦ rw e (
          (validate_entries_iff _).1 (
            (
              (h, omega arith),
              ((omega arith, h), ((shares, omega arith), ((omega arith, shares), tt))),
            ),
            λ asset. buy_cancels _ _ cost (quantity *ℤ pos 10_000),
          ))
      | inr e ↦ rw e (
          (validate_entries_iff _).1 (
            (
              (omega arith, h),
              ((h, omega arith), ((omega arith, shares), ((shares, omega arith), tt))),
            ),
            λ asset. sell_cancels _ _ cost (quantity *ℤ pos 10_000),
          ))
    ]
