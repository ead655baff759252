-- ===== src/Orders/Pending/Moves.antt =====
-- What `markOrderPending` and `activateStopLimit` leave in the database.
use trade_alpha.Base.{ℕ, ◌≡◌, true, some, arith, inl, inr, ◌⊎◌, Option-cases}
use trade_alpha.Store.Rows.{Store, Order, pending}
use trade_alpha.Store.Tables.{find, update_where}
use trade_alpha.Store.Tx.{ok}
use trade_alpha.Session.{is_open}
use trade_alpha.Orders.Status.{is_valid_transition}
use trade_alpha.Orders.Rows.{has_order_id}
use trade_alpha.Orders.Pending.{pending_body, activate_body}

-- One order row is written, and nothing else but an event.
pub record RowEffect (order o : Order) (s s' : Store) : Type 0 where
  pub orders : s'.orders ≡ update_where (has_order_id order.id) (λ _. o) s.orders
  pub fills : s'.fills ≡ s.fills
  pub portfolios : s'.portfolios ≡ s.portfolios
  pub positions : s'.positions ≡ s.positions
  pub ledger : s'.ledger ≡ s.ledger
  pub next_id : s'.next_id ≡ s.next_id

pub record PendingEffect (now id : ℕ) (o : Order) (s s' : Store) : Type 0 where
  pub order : Order
  pub found : find (has_order_id id) s.orders ≡ some order
  pub valid : is_valid_transition order.status pending ≡ true
  pub open_session : is_open now ≡ true
  pub result : o ≡ record order { status = pending }
  pub row : RowEffect order o s s'

pub pending_body-PendingEffect :
    (now id : ℕ) (o : Order) (s s' : Store)
    → pending_body now id s ≡ ok (o, s')
    → PendingEffect now id o s s'
unfolding pending_body
pending_body-PendingEffect now id o s s' h = elim (Option-cases (find (has_order_id id) s.orders)) [
  | inl missing ↦ ground arith
  | inr (order, found) ↦ record {
    order = order;
    found = found;
    valid = ground arith;
    open_session = ground arith;
    result = ground arith;
    row = ground arith;
  }
]

pub record ActivateEffect (id : ℕ) (o : Order) (s s' : Store) : Type 0 where
  pub order : Order
  pub found : find (has_order_id id) s.orders ≡ some order
  pub was_pending : order.status ≡ pending
  pub result : o ≡ record order { is_activated = true }
  pub changed : (s' ≡ s) ⊎ RowEffect order o s s'

pub activate_body-ActivateEffect :
    (id : ℕ) (o : Order) (s s' : Store) → activate_body id s ≡ ok (o, s') → ActivateEffect id o s s'
unfolding activate_body
activate_body-ActivateEffect id o s s' h = elim (Option-cases (find (has_order_id id) s.orders)) [
  | inl missing ↦ ground arith
  | inr (order, found) ↦ record {
    order = order;
    found = found;
    was_pending = ground arith;
    result = ground arith;
    changed = ground arith;
  }
]
