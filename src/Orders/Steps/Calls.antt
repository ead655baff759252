-- ===== src/Orders/Steps/Calls.antt =====
-- The calls of the order service as their callers see them.
use trade_alpha.Base.{
  ℕ, ◌≡◌, refl, some, str_eq_iff, arith, inl, inr, ◌⊎◌, Bool-cases, Option-cases, ap,
}
use trade_alpha.Int.{pos, leb_ℤ}
use trade_alpha.Column.{Column}
use trade_alpha.Store.Rows.{Store, Order, OrderFill, cancelled, expired}
use trade_alpha.Store.Tables.{find, update_where, find_sound}
use trade_alpha.Store.Tx.{ok, Result-cases, transaction-cases}
use trade_alpha.Session.{is_open}
use trade_alpha.Orders.Rows.{has_order_id, has_execution_key}
use trade_alpha.Orders.Pending.{
  mark_order_pending, activate_stop_limit, pending_body, activate_body,
}
use trade_alpha.Orders.Filling.{FillOrderDto, process_fill, fill_body, execute_fill}
use trade_alpha.Orders.Filling.Effects.{execute_fill-FillEffect}
use trade_alpha.Orders.Closing.{cancel_order, expire_order, close_body}
use trade_alpha.Orders.Steps.{Step, made_pending, activated, executed, was_closed}
use trade_alpha.Orders.Steps.Sound.{fill_body_cases}

module _ (c : Column) (s : Store) where
  -- `processFill` commits one transaction of the step relation, or leaves the database as it was.
  pub process_fill-Step :
      (dto : FillOrderDto) → ((process_fill c dto s).1 ≡ s) ⊎ Step c s (process_fill c dto s).1
  unfolding process_fill
  process_fill-Step dto = elim (Bool-cases (leb_ℤ dto.quantity (pos 0))) [
    | inl none_left ↦ inl (rw none_left)
    | inr positive ↦ rw positive (elim (Result-cases (fill_body c dto s)) [
      | inl (e, failed) ↦ inl (ground arith)
      | inr ((o, s'), run) ↦ inr (rw run (executed dto o positive run))
    ])
  ]

  pub expire_order-Step :
      (id : ℕ) → ((expire_order c id s).1 ≡ s) ⊎ Step c s (expire_order c id s).1
  unfolding expire_order
  expire_order-Step id = elim (transaction-cases (close_body c expired "ORDER_EXPIRED" id) s) [
    | inl same ↦ inl same
    | inr (o, run) ↦ inr (was_closed expired "ORDER_EXPIRED" id o (inr refl) run)
  ]

  pub cancel_order-Step :
      (id : ℕ) → ((cancel_order c id s).1 ≡ s) ⊎ Step c s (cancel_order c id s).1
  unfolding cancel_order
  cancel_order-Step id = elim (transaction-cases (close_body c cancelled "ORDER_CANCELLED" id) s) [
    | inl same ↦ inl same
    | inr (o, run) ↦ inr (was_closed cancelled "ORDER_CANCELLED" id o (inl refl) run)
  ]

  -- `markOrderPending`, which expires the order outside of the session, commits one transaction of
  -- the step relation, or leaves the database as it was.
  pub mark_order_pending-Step :
      (first second id : ℕ)
      → ((mark_order_pending c first second id s).1 ≡ s)
        ⊎ Step c s (mark_order_pending c first second id s).1
  unfolding mark_order_pending
  mark_order_pending-Step first second id = elim (Bool-cases (is_open first)) [
    | inr shut ↦ rw shut (expire_order-Step id)
    | inl open_now ↦ rw open_now (elim (transaction-cases (pending_body second id) s) [
      | inl same ↦ inl same
      | inr (o, run) ↦ inr (made_pending second id o run)
    ])
  ]

  pub activate_stop_limit-Step :
      (id : ℕ) → ((activate_stop_limit id s).1 ≡ s) ⊎ Step c s (activate_stop_limit id s).1
  unfolding activate_stop_limit
  activate_stop_limit-Step id = elim (transaction-cases (activate_body id) s) [
    | inl same ↦ inl same
    | inr (o, run) ↦ inr (activated id o run)
  ]

module _ (c : Column) where
  -- What a fill does when its key is recorded.
  used_key_no_fill :
      (dto : FillOrderDto) (s : Store) (f : OrderFill)
      → find (has_execution_key dto.order_id dto.fill_idempotency_key) s.fills ≡ some f
      → (process_fill c dto s).1 ≡ s
  unfolding process_fill fill_body
  used_key_no_fill dto s f used = elim (Result-cases (fill_body c dto s)) [
    | inl (e, failed) ↦ ground arith
    | inr ((o, s'), run) ↦ elim (Option-cases (find (has_order_id dto.order_id) s.orders)) [
      | inl missing ↦ ground arith
      | inr (order, found) ↦ elim (fill_body_cases c dto order o s s' found run) [
        | inl same ↦ ground arith
        | inr done ↦
            let e = execute_fill-FillEffect c dto order o s s' done in
            let same_id = find_sound (has_order_id dto.order_id) s.orders found in
            ground (arith, e.key_new)
      ]
    ]
  ]

  -- The key of an executed fill is recorded.
  executed_key_used :
      (dto : FillOrderDto) (order o : Order) (s s' : Store)
      → find (has_order_id dto.order_id) s.orders ≡ some order
      → execute_fill c dto order s ≡ ok (o, s')
      → (f : OrderFill) × (find (has_execution_key dto.order_id dto.fill_idempotency_key) s'.fills
          ≡ some f)
  unfolding find update_where
  executed_key_used dto order o s s' found done =
      let e = execute_fill-FillEffect c dto order o s s' done in
      let same_id = find_sound (has_order_id dto.order_id) s.orders found in
      let fill : OrderFill = record {
        id = s.next_id;
        order_id = order.id;
        price = dto.price;
        quantity = dto.quantity;
        execution_idempotency_key = dto.fill_idempotency_key;
        realized_pnl = e.pnl;
      } in
      (fill, ground (arith, e.fills, str_eq_iff dto.fill_idempotency_key dto.fill_idempotency_key))

  -- A call leaves the database as it is, or records its key.
  fill_or_key :
      (dto : FillOrderDto) (s : Store)
      → ((process_fill c dto s).1 ≡ s)
        ⊎ ((f : OrderFill) × (find
                (has_execution_key dto.order_id dto.fill_idempotency_key)
                (process_fill c dto s).1.fills
              ≡ some f))
  unfolding process_fill fill_body
  fill_or_key dto s = elim (Bool-cases (leb_ℤ dto.quantity (pos 0))) [
    | inl none_left ↦ inl (rw none_left)
    | inr positive ↦ rw positive (elim (Result-cases (fill_body c dto s)) [
      | inl (e, failed) ↦ inl (ground arith)
      | inr ((o, s'), run) ↦ elim (Option-cases (find (has_order_id dto.order_id) s.orders)) [
        | inl missing ↦ inl (ground arith)
        | inr (order, found) ↦ elim (fill_body_cases c dto order o s s' found run) [
          | inl same ↦ inl (ground arith)
          | inr done ↦ inr (rw run (executed_key_used dto order o s s' found done))
        ]
      ]
    ])
  ]

  -- Whatever a first `processFill` has done, a second one with the same data leaves the database
  -- as it is.
  pub process_fill_twice :
      (dto : FillOrderDto) (s : Store)
      → let s' = (process_fill c dto s).1 in (process_fill c dto s').1 ≡ s'
  process_fill_twice dto s = elim (fill_or_key dto s) [
    | inl same ↦ ap (λ t. (process_fill c dto t).1) same
    | inr (f, used) ↦ used_key_no_fill dto _ f used
  ]
