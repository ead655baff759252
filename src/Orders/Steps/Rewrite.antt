-- ===== src/Orders/Steps/Rewrite.antt =====
-- The invariant, where one order row is rewritten.
use native.Mathlib.Nat.{le_trans}
use trade_alpha.Base.{
  ℕ, ◌≤◌, ◌<◌, ◌≡◌, sym, subst, true, some, All, arith, inl, inr, ◌⊎◌, Bool-cases,
}
use trade_alpha.Int.{ℤ, pos, ◌+ℤ◌, ◌≤ℤ◌, ◌<ℤ◌, eqb_ℤ}
use trade_alpha.Int.Ring.{int_laws, parts, eq_of_parts}
use trade_alpha.Store.Rows.{
  Store, Order, OrderStatus, accepted, pending, partially_filled, cancelled, expired,
}
use trade_alpha.Store.Tables.{find, find-All, update_where, update_where-All, All-map}
use trade_alpha.Orders.Status.{is_valid_transition}
use trade_alpha.Orders.Rows.{has_order_id}
use trade_alpha.Orders.Filling.{FillOrderDto, filled_status}
use trade_alpha.Orders.Steps.Invariant.{IsConsistent, IsSound, IsRecorded, StatusFits}

-- What the invariant says of one order.
pub record IsSoundOrder (s : Store) (o : Order) : Type 0 where
  pub consistent : IsConsistent o
  pub recorded : IsRecorded s.fills o
  pub id_below : o.id < s.next_id

pub found-IsSoundOrder :
    (s : Store) (id : ℕ) (o : Order)
    → find (has_order_id id) s.orders ≡ some o
    → IsSound s
    → IsSoundOrder s o
found-IsSoundOrder s id o found h = record {
  consistent = find-All IsConsistent (has_order_id id) s.orders h.consistent found;
  recorded = find-All (IsRecorded s.fills) (has_order_id id) s.orders h.recorded found;
  id_below = find-All (λ o. o.id < s.next_id) (has_order_id id) s.orders h.order_ids found;
}

-- An order row is rewritten, and no fill is.
pub rewrite_row :
    (s s' : Store) (id : ℕ) (o : Order)
    → s'.orders ≡ update_where (has_order_id id) (λ _. o) s.orders
    → s'.fills ≡ s.fills
    → s.next_id ≤ s'.next_id
    → IsSoundOrder s o
    → IsSound s
    → IsSound s'
rewrite_row s s' id o orders fills next good h = record {
  consistent =
      subst (All IsConsistent) (sym orders)
        (update_where-All IsConsistent _ _ s.orders (λ x hit p. good.consistent) h.consistent);
  recorded =
      rw (orders, fills)
        (update_where-All (IsRecorded s.fills) _ _ s.orders (λ x hit p. good.recorded) h.recorded);
  order_ids = subst (All (λ o. o.id < s'.next_id)) (sym orders) (
      update_where-All (λ o. o.id < s'.next_id) _ _ s.orders
        (λ x hit p. le_trans good.id_below next)
        (All-map (λ o. o.id < s.next_id) _ s.orders (λ x p. le_trans p next) h.order_ids));
  fill_orders =
      rw fills
        (All-map (λ f. f.order_id < s.next_id) _ s.fills (λ f p. le_trans p next) h.fill_orders);
}

pub closable :
    (from to : OrderStatus) (done requested : ℤ)
    → (to ≡ cancelled) ⊎ (to ≡ expired)
    → is_valid_transition from to ≡ true
    → pos 0 <ℤ requested
    → StatusFits from done requested
    → done <ℤ requested
unfolding is_valid_transition
closable accepted to done requested t v p f = ground (arith, parts f)
closable pending to done requested t v p f = ground (arith, parts f)
closable partially_filled to done requested t v p f = f.1
closable _ to done requested t v p f = ground arith

pub pendable :
    (from : OrderStatus) (done requested : ℤ)
    → is_valid_transition from pending ≡ true
    → StatusFits from done requested
    → done ≡ pos 0
unfolding is_valid_transition
pendable accepted done requested v f = f
pendable _ done requested v f = ground arith

pub filled-IsConsistent :
    (dto : FillOrderDto) (order : Order)
    → IsConsistent order
    → pos 0 <ℤ dto.quantity
    → order.filled_quantity +ℤ dto.quantity ≤ℤ order.requested_quantity
    → IsConsistent (record order {
      filled_quantity = order.filled_quantity +ℤ dto.quantity;
      status = filled_status (order.filled_quantity +ℤ dto.quantity) order.requested_quantity;
    })
filled-IsConsistent dto order h positive fits =
    let done = order.filled_quantity +ℤ dto.quantity in
    let more : pos 0 <ℤ done = omega (int_laws, h.filled_nonneg) in
    record {
      requested_pos = h.requested_pos;
      filled_nonneg = omega (arith, more);
      status_fits = elim (Bool-cases (eqb_ℤ done order.requested_quantity)) [
        | inl all ↦ rw all (eq_of_parts _ _ (ground arith))
        | inr part ↦ rw part (more, ground arith)
      ];
    }
