-- ===== src/Orders/Pending.antt =====
-- `markOrderPending` and `activateStopLimit`.
pub mod Moves
use trade_alpha.Base.{ℕ, Bool, true, false, not, if◌then◌else◌}
use trade_alpha.Column.{Column}
use trade_alpha.Store.Rows.{Store, Order, pending, status_eq, order_moved, order_activated}
use trade_alpha.Store.Tx.{
  Tx, Result, ok, err, pure, throw, throw_if, transaction, ◌>>=◌, ◌>>◌, invalid_state_transition,
  market_closed, cannot_activate,
}
use trade_alpha.Session.{is_open}
use trade_alpha.Positions.{emit}
use trade_alpha.Orders.Status.{is_valid_transition}
use trade_alpha.Orders.Rows.{find_order, write_order}
use trade_alpha.Orders.Closing.{expire_order}

-- The transaction; `now` is the time at its second look at the session.
unfoldable pub pending_body : ℕ → ℕ → Tx Order
pending_body now order_id = do
  order ← find_order order_id
  throw_if (not (is_valid_transition order.status pending))
      (invalid_state_transition order.status pending)
  throw_if (not (is_open now)) market_closed
  updated ← write_order (record order { status = pending })
  emit (record {
    event_type = "ORDER_PENDING";
    aggregate_type = "Order";
    aggregate_id = order.id;
    payload = order_moved order.id order.portfolio_id;
  })
  pure updated

-- The call, with the times of its first and its second look at the session.
unfoldable pub mark_order_pending : Column → ℕ → ℕ → ℕ → Store → Result Order × Store
mark_order_pending c first second order_id s =
    if not (is_open first)
    then expire_order c order_id s
    else transaction (pending_body second order_id) s

unfoldable pub activate_body : ℕ → Tx Order
activate_body order_id = do
  order ← find_order order_id
  throw_if (not (status_eq order.status pending)) (cannot_activate order.status)
  if order.is_activated then pure order else (do
    updated ← write_order (record order { is_activated = true })
    emit (record {
      event_type = "ORDER_ACTIVATED";
      aggregate_type = "Order";
      aggregate_id = order.id;
      payload = order_activated order.id order.order_type order.portfolio_id;
    })
    pure updated)

unfoldable pub activate_stop_limit : ℕ → Store → Result Order × Store
activate_stop_limit order_id = transaction (activate_body order_id)
