-- ===== src/Orders/Steps/Frozen.antt =====
-- An order that was received, or has expired, under the calls of the order service.
use trade_alpha.Base.{
  ℕ, ◌≤◌, ◌<◌, ◌≡◌, ◌≢◌, refl, sym, subst, ◌∙◌, true, some, List, [], ◌∷◌, arith, inl, inr, ◌⊎◌,
  Option-cases,
}
use trade_alpha.Column.{Column}
use trade_alpha.Store.Rows.{Store, Order, OrderStatus, received, cancelled, expired, pending}
use trade_alpha.Store.Tables.{find, find_sound, update_where, find-All}
use trade_alpha.Store.Tx.{ok}
use trade_alpha.Orders.Status.{is_valid_transition, valid_transitions, includes}
use trade_alpha.Orders.Rows.{has_order_id}
use trade_alpha.Orders.Placing.Effects.{place_body-PlaceEffect}
use trade_alpha.Orders.Pending.Moves.{pending_body-PendingEffect, activate_body-ActivateEffect}
use trade_alpha.Orders.Filling.{FillOrderDto, fill_body}
use trade_alpha.Orders.Filling.Effects.{execute_fill-FillEffect}
use trade_alpha.Orders.Closing.Effects.{close_body-CloseEffect}
use trade_alpha.Orders.Steps.{
  Step, placed, made_pending, activated, executed, was_closed, Run, start, after,
}
use trade_alpha.Orders.Steps.Invariant.{IsSound}
use trade_alpha.Orders.Steps.Sound.{Run-IsSound, fill_body_cases}

-- The database has the order, as it was received.
pub record HasReceived (o : Order) (s : Store) : Type 0 where
  pub found : find (has_order_id o.id) s.orders ≡ some o
  pub is_received : o.status ≡ received

-- No call moves an order from such a status.
abbrev pub IsFrozen : OrderStatus → Type 0
IsFrozen status = (status ≡ received) ⊎ (status ≡ expired)

-- The database has the order, as it is, with such a status.
pub record HasFrozen (o : Order) (s : Store) : Type 0 where
  pub found : find (has_order_id o.id) s.orders ≡ some o
  pub frozen : IsFrozen o.status

-- Another row is rewritten.
pub find-update_other :
    (id other : ℕ) (new : Order) (xs : List Order)
    → new.id ≡ other
    → other ≢ id
    → find (has_order_id id) (update_where (has_order_id other) (λ _. new) xs)
      ≡ find (has_order_id id) xs
unfolding find update_where
find-update_other id other new [] e h = refl
find-update_other id other new (x ∷ xs) e h = ground (arith, find-update_other id other new xs e h)

module _ (o : Order) (s s' : Store) (h : HasFrozen o s) where
  -- A call rewrites one row, of an order that was found with another status.
  other_row_keeps :
      (id : ℕ) (order new : Order)
      → find (has_order_id id) s.orders ≡ some order
      → ¬ IsFrozen order.status
      → new.id ≡ order.id
      → s'.orders ≡ update_where (has_order_id order.id) (λ _. new) s.orders
      → HasFrozen o s'
  other_row_keeps id order new found moved same_id orders =
      let here = find_sound (has_order_id id) s.orders found in
      let other : order.id ≢ o.id = λ e.
        let same : id ≡ o.id = ground arith in
        let again = subst (λ k. find (has_order_id k) s.orders ≡ some order) same found in
        let same_order : order ≡ o = ground (arith, again, h.found) in
        moved (subst (λ (x : Order). IsFrozen x.status) (sym same_order) h.frozen) in
      record {
        found = rw orders (find-update_other o.id order.id new s.orders same_id other) ∙ h.found;
        frozen = h.frozen;
      }

  placed_keeps :
      (new : Order)
      → o.id < s.next_id
      → s.next_id ≤ new.id
      → s'.orders ≡ new ∷ s.orders
      → HasFrozen o s'
  unfolding find
  placed_keeps new below above orders = record {
    found = rw orders (ground (arith, h.found));
    frozen = h.frozen;
  }

  moved_from :
      (order : Order) (target : OrderStatus)
      → is_valid_transition order.status target ≡ true
      → (target ≡ pending) ⊎ ((target ≡ cancelled) ⊎ (target ≡ expired))
      → ¬ IsFrozen order.status
  unfolding is_valid_transition valid_transitions includes
  moved_from order target valid t (inl e) = ground arith
  moved_from order target valid t (inr e) = ground arith

module _ (c : Column) (o : Order) where
  fill_keeps :
      (dto : FillOrderDto) (o' : Order) (s s' : Store)
      → fill_body c dto s ≡ ok (o', s')
      → HasFrozen o s
      → HasFrozen o s'
  unfolding fill_body
  fill_keeps dto o' s s' run h = elim (Option-cases (find (has_order_id dto.order_id) s.orders)) [
    | inl missing ↦ ground arith
    | inr (order, found) ↦ elim (fill_body_cases c dto order o' s s' found run) [
      | inl same ↦ subst (HasFrozen o) (sym same) h
      | inr done ↦
          let e = execute_fill-FillEffect c dto order o' s s' done in
          other_row_keeps o s s' h dto.order_id order o' found
            (λ f. elim f [ inl was ↦ ground arith | inr was ↦ ground arith ])
            (ground (arith, e.result)) e.orders
    ]
  ]

  Step-keeps : (s s' : Store) → o.id < s.next_id → HasFrozen o s → Step c s s' → HasFrozen o s'
  Step-keeps s s' below h (placed dto new checked run) =
      let e = place_body-PlaceEffect c dto new s s' run in
      placed_keeps o s s' h new below e.id_new e.orders
  Step-keeps s s' below h (made_pending now id new run) =
      let e = pending_body-PendingEffect now id new s s' run in
      other_row_keeps o s s' h id e.order new e.found
        (moved_from o s s' h e.order pending e.valid (inl refl)) (ground (arith, e.result))
        e.row.orders
  Step-keeps s s' below h (activated id new run) =
      let e = activate_body-ActivateEffect id new s s' run in
      elim e.changed [
        | inl same ↦ subst (HasFrozen o) (sym same) h
        | inr row ↦
            other_row_keeps o s s' h id e.order new e.found
              (λ f. elim f [
                | inl was ↦ ground (arith, e.was_pending)
                | inr was ↦ ground (arith, e.was_pending)
              ])
              (ground (arith, e.result)) row.orders
      ]
  Step-keeps s s' below h (executed dto new positive run) = fill_keeps dto new s s' run h
  Step-keeps s s' below h (was_closed target event_type id new t run) =
      let e = close_body-CloseEffect c target event_type id new s s' run in
      other_row_keeps o s s' h id e.order new e.found
        (moved_from o s s' h e.order target e.valid (inr t)) (ground (arith, e.result)) e.orders

  -- No transaction of the order service changes such an order.
  pub frozen_stays : (s s' : Store) → IsSound s → HasFrozen o s → Run c s s' → HasFrozen o s'
  frozen_stays s s' sound h start = h
  frozen_stays s s' sound h (after {t = t} r st) =
      let here = frozen_stays s t sound h r in
      let below =
        find-All (λ (x : Order). x.id < t.next_id) (has_order_id o.id) t.orders
          (Run-IsSound c s t sound r).order_ids here.found in
      Step-keeps t s' below here st

  pub received_stays : (s s' : Store) → IsSound s → HasReceived o s → Run c s s' → HasReceived o s'
  received_stays s s' sound h r =
      let kept =
        frozen_stays s s' sound (record { found = h.found; frozen = inl h.is_received }) r in
      record { found = kept.found; is_received = h.is_received }
