-- ===== src/Liquidation/System.antt =====
-- The invariant of the orders, with the liquidation worker among the calls of the order service.
use trade_alpha.Base.{ℕ, ◌<◌, ◌≡◌, refl, sym, subst, true, List, [], ◌∷◌, All, arith}
use trade_alpha.Int.{ℤ, pos, ◌<ℤ◌}
use trade_alpha.Int.Ring.{parts}
use trade_alpha.Column.{Column}
use trade_alpha.Store.Rows.{
  Store, Portfolio, Order, OrderFill, OrderStatus, received, validated, accepted, pending,
  partially_filled, cancelled, order_moved,
}
use trade_alpha.Store.Tables.{filter_where-All, All-map, update_where}
use trade_alpha.Store.Tx.{ok}
use trade_alpha.Orders.Rows.{has_order_id}
use trade_alpha.Orders.Steps.{Step}
use trade_alpha.Orders.Steps.Invariant.{
  IsConsistent, IsSound, IsRecorded, StatusFits, filled_total_new,
}
use trade_alpha.Orders.Steps.Rewrite.{IsSoundOrder, rewrite_row}
use trade_alpha.Orders.Steps.Sound.{Step-IsSound}
use trade_alpha.Liquidation.{
  Surroundings, is_active, is_active_liquidation, cancel_all, liquidation_order, evaluate_body,
}
use trade_alpha.Liquidation.Effects.{
  PlacedEffect, EvaluateEffect, unchanged, recovered, placed_one, evaluate_body-EvaluateEffect,
}

-- A committed transaction of the order service or of the liquidation worker.
pub data SystemStep (c : Column) (w : Surroundings) (s s' : Store) : Type 0 where
  served : Step c s s' → SystemStep c w s s'
  evaluated : (id : ℕ) → evaluate_body c w id s ≡ ok (tt, s') → SystemStep c w s s'

pub data SystemRun (c : Column) (w : Surroundings) (s : Store) : Store → Type 0 where
  begin : SystemRun c w s s
  go_on : {t u : Store} → SystemRun c w s t → SystemStep c w t u → SystemRun c w s u

-- An order whose status is active is not filled completely.
active_open :
    (status : OrderStatus) (done requested : ℤ)
    → is_active status ≡ true
    → pos 0 <ℤ requested
    → StatusFits status done requested
    → done <ℤ requested
active_open partially_filled done requested a p f = f.1
active_open received done requested a p f = ground (arith, parts f)
active_open validated done requested a p f = ground (arith, parts f)
active_open accepted done requested a p f = ground (arith, parts f)
active_open pending done requested a p f = ground (arith, parts f)
active_open _ done requested a p f = ground arith

-- What is needed of an order that is cancelled.
record IsCancellable (s : Store) (o : Order) : Type 0 where
  sound : IsSoundOrder s o
  active : is_active o.status ≡ true

cancelled-IsSoundOrder :
    (s : Store) (o : Order) → IsCancellable s o → IsSoundOrder s (record o { status = cancelled })
cancelled-IsSoundOrder s o h = record {
  consistent = record {
    requested_pos = h.sound.consistent.requested_pos;
    filled_nonneg = h.sound.consistent.filled_nonneg;
    status_fits =
        active_open o.status o.filled_quantity o.requested_quantity h.active
          h.sound.consistent.requested_pos h.sound.consistent.status_fits;
  };
  recorded = h.sound.recorded;
  id_below = h.sound.id_below;
}

cancel_all-IsSound :
    (os : List Order) (s s' : Store)
    → cancel_all os s ≡ ok (tt, s')
    → All (IsCancellable s) os
    → IsSound s
    → IsSound s'
unfolding cancel_all
cancel_all-IsSound [] s s' run all h = subst IsSound (ground arith) h
cancel_all-IsSound (o ∷ os) s s' run all h =
    let row : Order = record o { status = cancelled } in
    let s₁ : Store = record s {
      orders = update_where (has_order_id o.id) (λ _. row) s.orders;
      outbox =
          record {
            event_type = "ORDER_CANCELLED";
            aggregate_type = "Order";
            aggregate_id = o.id;
            payload = order_moved o.id o.portfolio_id;
          }
          ∷ s.outbox;
    } in
    cancel_all-IsSound os s₁ s' run
      (All-map (IsCancellable s) (IsCancellable s₁) os
        (λ x k. record {
          sound = record {
            consistent = k.sound.consistent;
            recorded = k.sound.recorded;
            id_below = k.sound.id_below;
          };
          active = k.active;
        })
        all.1)
      (rewrite_row s s₁ o.id row refl refl (omega arith) (cancelled-IsSoundOrder s o all.0) h)

sound_orders :
    (s : Store) (os : List Order)
    → All IsConsistent os
    → All (IsRecorded s.fills) os
    → All (λ o. o.id < s.next_id) os
    → All (IsSoundOrder s) os
sound_orders s [] a b d = tt
sound_orders s (o ∷ os) a b d =
    (record { consistent = a.0; recorded = b.0; id_below = d.0 }, sound_orders s os a.1 b.1 d.1)

module _ (c : Column) (w : Surroundings) where
  pub placed-IsSound :
      (portfolio : Portfolio) (s s' : Store)
      → PlacedEffect c w portfolio s s'
      → IsSound s
      → IsSound s'
  unfolding liquidation_order
  placed-IsSound portfolio s s' e h =
      let below =
        All-map (λ (f : OrderFill). f.order_id < s.next_id) (λ f. f.order_id < s.next_id) s.fills
          (λ f p. p) h.fill_orders in
      record {
        consistent = rw e.orders (
          record {
            requested_pos = e.quantity_pos;
            filled_nonneg = omega arith;
            status_fits = refl;
          },
          h.consistent,
        );
        recorded = rw e.orders (
          ground (arith, e.fills, filled_total_new s.next_id s.fills below),
          subst (λ fs. All (IsRecorded fs) s.orders) (sym e.fills) h.recorded,
        );
        order_ids = rw e.orders (
          omega (arith, e.next_id),
          All-map (λ (o : Order). o.id < s.next_id) _ s.orders (λ x p. omega (arith, e.next_id))
              h.order_ids,
        );
        fill_orders = rw e.fills (
            All-map (λ (f : OrderFill). f.order_id < s.next_id) _ s.fills
              (λ f p. omega (arith, e.next_id)) h.fill_orders);
      }

  evaluated-IsSound : (s s' : Store) → EvaluateEffect c w s s' → IsSound s → IsSound s'
  evaluated-IsSound s s' (unchanged same) h = subst IsSound (sym same) h
  evaluated-IsSound s s' (recovered portfolio run) h =
      cancel_all-IsSound _ s s' run
        (All-map (λ o. (is_active_liquidation portfolio.id o ≡ true) × IsSoundOrder s o)
          (IsCancellable s) _ (λ o k. record { sound = k.1; active = ground arith })
          (filter_where-All (IsSoundOrder s) (is_active_liquidation portfolio.id) s.orders
            (sound_orders s s.orders h.consistent h.recorded h.order_ids)))
        h
  evaluated-IsSound s s' (placed_one portfolio e) h = placed-IsSound portfolio s s' e h

  -- From a database whose orders are sound, any run of committed transactions of the order service
  -- and of the liquidation worker, in whatever order they interleave, leads to a database whose
  -- orders are sound: the status of an order fits what is filled of it, and that is what its
  -- recorded fills add up to.
  pub SystemRun-IsSound : (s s' : Store) → IsSound s → SystemRun c w s s' → IsSound s'
  SystemRun-IsSound s s' h begin = h
  SystemRun-IsSound s s' h (go_on {t = t} r (served st)) =
      Step-IsSound c st (SystemRun-IsSound s t h r)
  SystemRun-IsSound s s' h (go_on {t = t} r (evaluated id run)) =
      evaluated-IsSound t s' (evaluate_body-EvaluateEffect c w id t s' tt run)
        (SystemRun-IsSound s t h r)
