-- ===== src/Orders/Steps.antt =====
-- The calls of the order service as steps of the database. A transaction locks the rows that it
-- changes (`SELECT … FOR UPDATE`), so calls interleave one transaction at a time, in any order.
pub mod Invariant
pub mod Rewrite
pub mod Sound
pub mod Calls
pub mod Frozen
pub mod Service
use trade_alpha.Base.{ℕ, ◌≡◌, ◌⊎◌, String, false}
use trade_alpha.Int.{pos, leb_ℤ}
use trade_alpha.Column.{Column}
use trade_alpha.Store.Rows.{Store, Order, OrderStatus, cancelled, expired}
use trade_alpha.Store.Tx.{ok}
use trade_alpha.Orders.Placing.{PlaceOrderDto, check_request, place_body}
use trade_alpha.Orders.Pending.{pending_body, activate_body}
use trade_alpha.Orders.Filling.{FillOrderDto, fill_body}
use trade_alpha.Orders.Closing.{close_body}

-- A transaction that has committed.
pub data Step (c : Column) (s s' : Store) : Type 0 where
  placed :
      (dto : PlaceOrderDto) (o : Order)
      → check_request dto s ≡ ok (tt, s)
      → place_body c dto s ≡ ok (o, s')
      → Step c s s'
  made_pending : (now id : ℕ) (o : Order) → pending_body now id s ≡ ok (o, s') → Step c s s'
  activated : (id : ℕ) (o : Order) → activate_body id s ≡ ok (o, s') → Step c s s'
  executed :
      (dto : FillOrderDto) (o : Order)
      → leb_ℤ dto.quantity (pos 0) ≡ false
      → fill_body c dto s ≡ ok (o, s')
      → Step c s s'
  was_closed :
      (target : OrderStatus) (event_type : String) (id : ℕ) (o : Order)
      → (target ≡ cancelled) ⊎ (target ≡ expired)
      → close_body c target event_type id s ≡ ok (o, s')
      → Step c s s'

-- Any number of committed transactions.
pub data Run (c : Column) (s : Store) : Store → Type 0 where
  start : Run c s s
  after : {t u : Store} → Run c s t → Step c t u → Run c s u
