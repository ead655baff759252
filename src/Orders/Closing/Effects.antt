-- ===== src/Orders/Closing/Effects.antt =====
-- What cancelling and expiring an order leave in the database.
use trade_alpha.Base.{ℕ, ◌≤◌, ◌≡◌, true, some, String, arith, inl, inr, Option-cases, Bool-cases}
use trade_alpha.Int.{ℤ, pos, ◌-ℤ◌, ltb_ℤ}
use trade_alpha.Column.{Column}
use trade_alpha.Store.Rows.{Store, Order, OrderStatus}
use trade_alpha.Store.Tables.{find, update_where}
use trade_alpha.Store.Tx.{ok, Result-cases}
use trade_alpha.Orders.Status.{is_valid_transition}
use trade_alpha.Orders.Rows.{has_order_id}
use trade_alpha.Orders.Placing.Effects.{LockFrame}
use trade_alpha.Orders.Closing.{close_body, release_locks}

module _ (c : Column) where
  pub release_locks-LockFrame :
      (order : Order) (remaining : ℤ) (s s' : Store) (u : Unit {0})
      → release_locks c order remaining s ≡ ok (u, s')
      → LockFrame s s'
  unfolding release_locks
  release_locks-LockFrame order remaining s s' u h = ground arith

  pub record CloseEffect (target : OrderStatus) (id : ℕ) (o : Order) (s s' : Store) : Type 0 where
    pub order : Order
    pub found : find (has_order_id id) s.orders ≡ some order
    pub valid : is_valid_transition order.status target ≡ true
    pub result : o ≡ record order { status = target }
    pub orders : s'.orders ≡ update_where (has_order_id order.id) (λ _. o) s.orders
    pub fills : s'.fills ≡ s.fills
    pub ledger : s'.ledger ≡ s.ledger
    pub next_id : s.next_id ≤ s'.next_id

  -- If the transaction of `cancelOrder` or `expireOrder` succeeds, the order was found in a status
  -- from which the target may be reached; only its row changes among the orders, to the target
  -- status, and fills and ledger are left.
  pub close_body-CloseEffect :
      (target : OrderStatus) (event_type : String) (id : ℕ) (o : Order) (s s' : Store)
      → close_body c target event_type id s ≡ ok (o, s')
      → CloseEffect target id o s s'
  unfolding close_body
  close_body-CloseEffect target event_type id o s s' h =
      elim (Option-cases (find (has_order_id id) s.orders)) [
        | inl missing ↦ ground arith
        | inr (order, found) ↦
            let remaining = order.requested_quantity -ℤ order.filled_quantity in
            elim (Bool-cases (ltb_ℤ (pos 0) remaining)) [
              | inr none_left ↦ record {
                order = order;
                found = found;
                valid = ground arith;
                result = ground arith;
                orders = ground arith;
                fills = ground arith;
                ledger = ground arith;
                next_id = ground arith;
              }
              | inl left ↦ elim (Result-cases (release_locks c order remaining s)) [
                | inl (e, failed) ↦ ground arith
                | inr ((u, s₁), done) ↦
                    let f = release_locks-LockFrame order remaining s s₁ u done in
                    record {
                      order = order;
                      found = found;
                      valid = ground arith;
                      result = ground arith;
                      orders = ground (arith, f.orders);
                      fills = ground (arith, f.fills);
                      ledger = ground (arith, f.ledger);
                      next_id = ground (arith, f.next_id);
                    }
              ]
            ]
      ]
