-- ===== src/EodSweep/Expiry.antt =====
-- The expiry of one order.
use trade_alpha.Base.{ℕ, ◌≡◌, ◌∙◌, ap, true, Option, some, arith}
use trade_alpha.Column.{Column}
use trade_alpha.Store.Rows.{Store, Order, OrderStatus, expired}
use trade_alpha.Store.Tables.{find, find_sound, find_written}
use trade_alpha.Store.Tx.{ok}
use trade_alpha.Orders.Status.{is_valid_transition, valid_transitions, includes}
use trade_alpha.Orders.Rows.{has_order_id}
use trade_alpha.Orders.Closing.{close_body}
use trade_alpha.Orders.Closing.Effects.{close_body-CloseEffect}
use trade_alpha.EodSweep.{is_sweepable}

abbrev pub row_of : ℕ → Store → Option Order
row_of id s = find (has_order_id id) s.orders

active_expires :
    (from : OrderStatus) → is_valid_transition from expired ≡ true → is_sweepable from ≡ true
unfolding is_valid_transition valid_transitions includes
active_expires from h = ground arith

module _ (c : Column) where
  pub expired_row :
      (id : ℕ) (o : Order) (s s' : Store)
      → close_body c expired "ORDER_EXPIRED" id s ≡ ok (o, s')
      → (order : Order) × (row_of id s ≡ some order)
        × (is_sweepable order.status ≡ true)
        × (row_of id s' ≡ some (record order { status = expired }))
  expired_row id o s s' run =
      let e = close_body-CloseEffect c expired "ORDER_EXPIRED" id o s s' run in
      let hit = find_sound (has_order_id id) s.orders e.found in
      let same : e.order.id ≡ id = ground arith in
      let new_hit : has_order_id id o ≡ true = ground (arith, e.result) in
      let written : row_of id s' ≡ some o =
        rw (e.orders, same) (find_written (has_order_id id) o s.orders new_hit e.found) in
      (e.order, e.found, active_expires e.order.status e.valid, written ∙ ap some e.result)
