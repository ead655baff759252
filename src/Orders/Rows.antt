-- ===== src/Orders/Rows.antt =====
-- The queries of the order service on single rows.
use trade_alpha.Base.{ℕ, ◌+◌, ◌==◌, Bool, ◌&&◌, none, some, String, str_eq, ◌∷◌}
use trade_alpha.Int.{ℤ, pos}
use trade_alpha.Store.Rows.{Portfolio, Order, OrderFill}
use trade_alpha.Store.Tables.{find, update_where}
use trade_alpha.Store.Tx.{
  Tx, or_throw, not_found, ok, err, unique_violation, orders_user_idempotency,
  fills_execution_idempotency,
}

abbrev pub has_order_id : ℕ → Order → Bool
has_order_id id o = o.id == id

-- The unique key `idx_orders_user_idempotency`.
abbrev pub has_user_key : ℕ → String → Order → Bool
has_user_key user_id key o = o.user_id == user_id && str_eq o.idempotency_key key

-- The unique key of `order_fills`.
abbrev pub has_execution_key : ℕ → String → OrderFill → Bool
has_execution_key order_id key f = f.order_id == order_id && str_eq f.execution_idempotency_key key

abbrev pub find_order : ℕ → Tx Order
find_order id s = or_throw (find (has_order_id id) s.orders) not_found s

-- `tx.order.update({ where: { id } })`, with the row that the update leaves.
abbrev pub write_order : Order → Tx Order
write_order new s =
    ok (new, record s { orders = update_where (has_order_id new.id) (λ _. new) s.orders })

abbrev pub write_portfolio : Portfolio → Tx Portfolio
write_portfolio new s =
    ok (new, record s { portfolios = update_where (λ p. p.id == new.id) (λ _. new) s.portfolios })

-- `tx.order.create`: the row gets the identifier, and the unique index guards it.
abbrev pub create_order : Order → Tx Order
create_order o s = elim (find (has_user_key o.user_id o.idempotency_key) s.orders) [
  | some _ ↦ err (unique_violation orders_user_idempotency)
  | none ↦
      let row : Order = record o { id = s.next_id } in
      ok (row, record s { orders = row ∷ s.orders; next_id = s.next_id + 1 })
]

-- `tx.orderFill.create`, with no profit yet.
abbrev pub create_fill : ℕ → ℤ → ℤ → String → Tx OrderFill
create_fill order_id price quantity key s = elim (find (has_execution_key order_id key) s.fills) [
  | some _ ↦ err (unique_violation fills_execution_idempotency)
  | none ↦
      let row : OrderFill = record {
        id = s.next_id;
        order_id = order_id;
        price = price;
        quantity = quantity;
        execution_idempotency_key = key;
        realized_pnl = pos 0;
      } in
      ok (row, record s { fills = row ∷ s.fills; next_id = s.next_id + 1 })
]
