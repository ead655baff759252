-- ===== src/Orders/Steps/Sound.antt =====
-- The invariant, for each kind of committed transaction and for runs of them.
use native.Mathlib.Nat.{le_trans}
use trade_alpha.Base.{
  ℕ, ◌==◌, ◌<◌, ◌≡◌, sym, subst, false, some, All, arith, inl, inr, ◌⊎◌, Option-cases,
  if◌then◌else◌,
}
use trade_alpha.Int.{pos, ◌+ℤ◌, ◌<ℤ◌, leb_ℤ}
use trade_alpha.Int.Ring.{+ℤ_comm, zero-+ℤ}
use trade_alpha.Column.{Column}
use trade_alpha.Store.Rows.{Store, Order, OrderFill, OrderStatus, cancelled, expired}
use trade_alpha.Store.Tables.{find, update_where-All, update_where-All_cases, All-map}
use trade_alpha.Store.Tx.{ok}
use trade_alpha.Orders.Rows.{has_order_id}
use trade_alpha.Orders.Placing.{PlaceOrderDto, check_request, order_data}
use trade_alpha.Orders.Placing.Effects.{PlaceEffect, place_body-PlaceEffect}
use trade_alpha.Orders.Pending.Moves.{
  PendingEffect, ActivateEffect, pending_body-PendingEffect, activate_body-ActivateEffect,
}
use trade_alpha.Orders.Filling.{FillOrderDto, fill_body, execute_fill}
use trade_alpha.Orders.Filling.Effects.{FillEffect, execute_fill-FillEffect}
use trade_alpha.Orders.Closing.Effects.{CloseEffect, close_body-CloseEffect}
use trade_alpha.Orders.Steps.{
  Step, placed, made_pending, activated, executed, was_closed, Run, start, after,
}
use trade_alpha.Orders.Steps.Invariant.{
  IsConsistent, IsSound, IsRecorded, filled_total, filled_total-write_pnl, filled_total_new,
}
use trade_alpha.Orders.Steps.Rewrite.{
  found-IsSoundOrder, rewrite_row, closable, pendable, filled-IsConsistent,
}

module _ (c : Column) where
  close-IsSound :
      (target : OrderStatus) (id : ℕ) (o : Order) (s s' : Store)
      → (target ≡ cancelled) ⊎ (target ≡ expired)
      → CloseEffect c target id o s s'
      → IsSound s
      → IsSound s'
  close-IsSound target id o s s' t e h =
      let g = found-IsSoundOrder s id e.order e.found h in
      let left =
        closable e.order.status target e.order.filled_quantity e.order.requested_quantity t e.valid
          g.consistent.requested_pos g.consistent.status_fits in
      rewrite_row s s' e.order.id o e.orders e.fills e.next_id
        (record {
          consistent =
              ground
                (arith, e.result, left, g.consistent.filled_nonneg, g.consistent.requested_pos);
          recorded = ground (arith, e.result, g.recorded);
          id_below = ground (arith, e.result, g.id_below);
        })
        h

  pending-IsSound :
      (now id : ℕ) (o : Order) (s s' : Store) → PendingEffect now id o s s' → IsSound s → IsSound s'
  pending-IsSound now id o s s' e h =
      let g = found-IsSoundOrder s id e.order e.found h in
      let was_unfilled =
        pendable e.order.status e.order.filled_quantity e.order.requested_quantity e.valid
          g.consistent.status_fits in
      rewrite_row s s' e.order.id o e.row.orders e.row.fills (omega (arith, e.row.next_id))
        (record {
          consistent = ground (
            arith, e.result, was_unfilled, g.consistent.filled_nonneg, g.consistent.requested_pos,
          );
          recorded = ground (arith, e.result, g.recorded);
          id_below = ground (arith, e.result, g.id_below);
        })
        h

  activate-IsSound :
      (id : ℕ) (o : Order) (s s' : Store) → ActivateEffect id o s s' → IsSound s → IsSound s'
  activate-IsSound id o s s' e h = elim e.changed [
    | inl same ↦ subst IsSound (sym same) h
    | inr row ↦
        let g = found-IsSoundOrder s id e.order e.found h in
        rewrite_row s s' e.order.id o row.orders row.fills (omega (arith, row.next_id))
          (record {
            consistent = ground (arith, e.result, g.consistent);
            recorded = ground (arith, e.result, g.recorded);
            id_below = ground (arith, e.result, g.id_below);
          })
          h
  ]

  place-IsSound :
      (dto : PlaceOrderDto) (o : Order) (s s' : Store)
      → pos 0 <ℤ dto.requested_quantity
      → PlaceEffect c dto o s s'
      → IsSound s
      → IsSound s'
  unfolding order_data
  place-IsSound dto o s s' positive e h =
      let below =
        All-map (λ (f : OrderFill). f.order_id < s.next_id) (λ f. f.order_id < o.id) s.fills
          (λ f p. le_trans p e.id_new) h.fill_orders in
      record {
        consistent = rw e.orders (ground (arith, e.result), h.consistent);
        recorded = rw e.orders (
          ground (arith, e.result, e.fills, filled_total_new o.id s.fills below),
          subst (λ fs. All (IsRecorded fs) s.orders) (sym e.fills) h.recorded,
        );
        order_ids = rw e.orders (
          e.id_used,
          All-map (λ o. o.id < s.next_id) _ s.orders (λ x p. omega (arith, e.id_new, e.id_used))
              h.order_ids,
        );
        fill_orders = rw e.fills (
            All-map (λ f. f.order_id < s.next_id) _ s.fills
              (λ f p. omega (arith, e.id_new, e.id_used)) h.fill_orders);
      }

  -- A new fill counts for its own order, and for no other.
  total_after :
      (dto : FillOrderDto) (order o : Order) (s s' : Store) (id : ℕ)
      → FillEffect c dto order o s s'
      → filled_total id s'.fills
        ≡ (if order.id == id then dto.quantity else pos 0) +ℤ filled_total id s.fills
  unfolding filled_total
  total_after dto order o s s' id e = rw e.fills (filled_total-write_pnl id s.next_id e.pnl _)

  execute-IsSound :
      (dto : FillOrderDto) (order o : Order) (s s' : Store)
      → find (has_order_id dto.order_id) s.orders ≡ some order
      → pos 0 <ℤ dto.quantity
      → FillEffect c dto order o s s'
      → IsSound s
      → IsSound s'
  execute-IsSound dto order o s s' found positive e h =
      let g = found-IsSoundOrder s dto.order_id order found h in
      let total = λ (id : ℕ). total_after dto order o s s' id e in
      let good : IsConsistent o =
        rw e.result (filled-IsConsistent dto order g.consistent positive e.fits) in
      record {
        consistent =
            subst (All IsConsistent) (sym e.orders)
              (update_where-All IsConsistent _ _ s.orders (λ x hit p. good) h.consistent);
        recorded = subst (All (IsRecorded s'.fills)) (sym e.orders) (
            update_where-All_cases (IsRecorded s.fills) (IsRecorded s'.fills) _ _ s.orders
              (λ x hit p. ground (
                arith,
                e.result,
                total o.id,
                g.recorded,
                +ℤ_comm order.filled_quantity dto.quantity,
              ))
              (λ x miss p. ground (arith, total x.id, zero-+ℤ (filled_total x.id s.fills)))
              h.recorded);
        order_ids = subst (All (λ o. o.id < s'.next_id)) (sym e.orders) (
            update_where-All (λ o. o.id < s'.next_id) _ _ s.orders
              (λ x hit p. ground (arith, e.result, g.id_below, e.next_id))
              (All-map (λ o. o.id < s.next_id) _ s.orders (λ x p. omega (arith, e.next_id))
                h.order_ids));
        fill_orders = rw e.fills (
            update_where-All (λ f. f.order_id < s'.next_id) _ _ _ (λ f hit p. p)
              (
                omega (arith, e.next_id, g.id_below),
                All-map (λ f. f.order_id < s.next_id) _ s.fills (λ x p. omega (arith, e.next_id))
                    h.fill_orders,
              ));
      }

  -- A fill is executed, or it changes nothing.
  pub fill_body_cases :
      (dto : FillOrderDto) (order o : Order) (s s' : Store)
      → find (has_order_id dto.order_id) s.orders ≡ some order
      → fill_body c dto s ≡ ok (o, s')
      → (s' ≡ s) ⊎ (execute_fill c dto order s ≡ ok (o, s'))
  unfolding fill_body
  fill_body_cases dto order o s s' found run = ground arith

  fill-IsSound :
      (dto : FillOrderDto) (o : Order) (s s' : Store)
      → leb_ℤ dto.quantity (pos 0) ≡ false
      → fill_body c dto s ≡ ok (o, s')
      → IsSound s
      → IsSound s'
  unfolding fill_body
  fill-IsSound dto o s s' positive run h =
      elim (Option-cases (find (has_order_id dto.order_id) s.orders)) [
        | inl missing ↦ ground arith
        | inr (order, found) ↦ elim (fill_body_cases dto order o s s' found run) [
          | inl same ↦ subst IsSound (sym same) h
          | inr done ↦
              execute-IsSound dto order o s s' found (ground arith)
                (execute_fill-FillEffect c dto order o s s' done) h
        ]
      ]

  pub Step-IsSound : {s s' : Store} → Step c s s' → IsSound s → IsSound s'
  unfolding check_request
  Step-IsSound {s} {s'} (placed dto o checked run) h =
      place-IsSound dto o s s' (ground arith) (place_body-PlaceEffect c dto o s s' run) h
  Step-IsSound {s} {s'} (made_pending now id o run) h =
      pending-IsSound now id o s s' (pending_body-PendingEffect now id o s s' run) h
  Step-IsSound {s} {s'} (activated id o run) h =
      activate-IsSound id o s s' (activate_body-ActivateEffect id o s s' run) h
  Step-IsSound {s} {s'} (executed dto o positive run) h = fill-IsSound dto o s s' positive run h
  Step-IsSound {s} {s'} (was_closed target event_type id o t run) h =
      close-IsSound target id o s s' t (close_body-CloseEffect c target event_type id o s s' run) h

  -- From a database whose orders are sound, any run of committed transactions of the order
  -- service, in whatever order they interleave, leads to a database whose orders are sound: the
  -- status of an order fits what is filled of it, and that is what its recorded fills add up to.
  pub Run-IsSound : (s s' : Store) → IsSound s → Run c s s' → IsSound s'
  Run-IsSound s s' h start = h
  Run-IsSound s s' h (after {t = t} r st) = Step-IsSound st (Run-IsSound s t h r)
