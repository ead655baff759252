-- ===== src/Orders/Steps/Invariant.antt =====
-- The invariant of the orders and their fills.
use trade_alpha.Base.{ℕ, ◌==◌, ◌<◌, ◌≡◌, refl, List, [], ◌∷◌, All, arith, if◌then◌else◌}
use trade_alpha.Int.{ℤ, pos, ◌+ℤ◌, ◌≤ℤ◌, ◌<ℤ◌}
use trade_alpha.Store.Rows.{
  Store, Order, OrderFill, OrderStatus, partially_filled, filled, cancelled, expired,
}
use trade_alpha.Store.Tables.{update_where}

-- How much of an order a status allows to be filled.
abbrev pub StatusFits : OrderStatus → ℤ → ℤ → Type 0
StatusFits filled done requested = done ≡ requested
StatusFits partially_filled done requested = (pos 0 <ℤ done) × (done <ℤ requested)
StatusFits cancelled done requested = done <ℤ requested
StatusFits expired done requested = done <ℤ requested
StatusFits _ done requested = done ≡ pos 0

pub record IsConsistent (o : Order) : Type 0 where
  pub requested_pos : pos 0 <ℤ o.requested_quantity
  pub filled_nonneg : pos 0 ≤ℤ o.filled_quantity
  pub status_fits : StatusFits o.status o.filled_quantity o.requested_quantity

-- What the recorded fills of an order add up to.
unfoldable pub filled_total : ℕ → List OrderFill → ℤ
filled_total id [] = pos 0
filled_total id (f ∷ fs) = (if f.order_id == id then f.quantity else pos 0) +ℤ filled_total id fs

abbrev pub IsRecorded : List OrderFill → Order → Type 0
IsRecorded fills o = o.filled_quantity ≡ filled_total o.id fills

-- Every order is consistent, and its filled quantity is what its recorded fills add up to. The
-- identifiers in use are below the next one.
pub record IsSound (s : Store) : Type 0 where
  pub consistent : All IsConsistent s.orders
  pub recorded : All (IsRecorded s.fills) s.orders
  pub order_ids : All (λ o. o.id < s.next_id) s.orders
  pub fill_orders : All (λ f. f.order_id < s.next_id) s.fills

-- The profit of a fill is written later, and moves no quantity.
pub filled_total-write_pnl :
    (id n : ℕ) (pnl : ℤ) (fs : List OrderFill)
    → filled_total id (update_where (λ f. f.id == n) (λ f. record f { realized_pnl = pnl }) fs)
      ≡ filled_total id fs
unfolding filled_total update_where
filled_total-write_pnl id n pnl [] = refl
filled_total-write_pnl id n pnl (f ∷ fs) = ground (arith, filled_total-write_pnl id n pnl fs)

-- No fill belongs to an order that is not there yet.
pub filled_total_new :
    (id : ℕ) (fs : List OrderFill) → All (λ f. f.order_id < id) fs → filled_total id fs ≡ pos 0
unfolding filled_total ◌+ℤ◌
filled_total_new id [] h = refl
filled_total_new id (f ∷ fs) h = ground (arith, filled_total_new id fs h.1)
