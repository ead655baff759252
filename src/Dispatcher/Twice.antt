-- ===== src/Dispatcher/Twice.antt =====
-- The event of an accepted order, delivered again.
use trade_alpha.Base.{
  ℕ, ◌≡◌, refl, subst, true, false, some, List, [], ◌∷◌, ◌++◌, arith, inl, inr, Bool-cases,
}
use trade_alpha.Column.{Column}
use trade_alpha.Store.Rows.{Store, Order, OrderStatus, pending, expired, order_accepted}
use trade_alpha.Store.Tables.{find, find_sound, find_written}
use trade_alpha.Store.Tx.{ok, err, invalid_state_transition, Result-cases}
use trade_alpha.Session.{is_open}
use trade_alpha.Orders.Status.{is_valid_transition, valid_transitions, includes}
use trade_alpha.Orders.Rows.{has_order_id}
use trade_alpha.Orders.Pending.{pending_body, mark_order_pending}
use trade_alpha.Orders.Pending.Moves.{pending_body-PendingEffect}
use trade_alpha.Orders.Closing.{close_body, expire_order}
use trade_alpha.EodSweep.Expiry.{expired_row}
use trade_alpha.Dispatcher.{
  EventJob, WebhookSubscription, webhook_jobs, webhooks_of, broadcast_event, process_job,
}
use trade_alpha.Dispatcher.Closed.{IsSilent, sent-IsNoRoute}

-- The order can no longer become pending.
IsPast : ℕ → Store → Type 0
IsPast id s =
    (row : Order) × (find (has_order_id id) s.orders ≡ some row)
    × (is_valid_transition row.status pending ≡ false)

pending_again :
    (now id : ℕ) (s : Store)
    → IsPast id s
    → (from : OrderStatus) × (pending_body now id s ≡ err (invalid_state_transition from pending))
unfolding IsPast pending_body
pending_again now id s (row, found, invalid) = (row.status, ground arith)

made_pending :
    (now id : ℕ) (o : Order) (s s' : Store) → pending_body now id s ≡ ok (o, s') → IsPast id s'
unfolding IsPast is_valid_transition valid_transitions includes
made_pending now id o s s' run =
    let e = pending_body-PendingEffect now id o s s' run in
    let hit = find_sound (has_order_id id) s.orders e.found in
    let same : e.order.id ≡ id = ground arith in
    let new_hit : has_order_id id o ≡ true = ground (arith, e.result) in
    let written : find (has_order_id id) s'.orders ≡ some o =
      rw (e.row.orders, same) (find_written (has_order_id id) o s.orders new_hit e.found) in
    (o, written, rw e.result refl)

module _ (c : Column) where
  was_expired :
      (id : ℕ) (o : Order) (s s' : Store)
      → close_body c expired "ORDER_EXPIRED" id s ≡ ok (o, s')
      → IsPast id s'
  unfolding IsPast is_valid_transition valid_transitions includes
  was_expired id o s s' run =
      let (order, found, active, written) = expired_row c id o s s' run in
      (record order { status = expired }, written, refl)

  after_success :
      (first second id : ℕ) (o : Order) (s s' : Store)
      → mark_order_pending c first second id s ≡ (ok o, s')
      → IsPast id s'
  unfolding mark_order_pending expire_order
  after_success first second id o s s' h = elim (Bool-cases (is_open first)) [
    | inl opened ↦ elim (Result-cases (pending_body second id s)) [
      | inl (e, failed) ↦ ground arith
      | inr ((o', t), run) ↦ subst (IsPast id) (ground arith) (made_pending second id o' s t run)
    ]
    | inr shut ↦ elim (Result-cases (close_body c expired "ORDER_EXPIRED" id s)) [
      | inl (e, failed) ↦ ground arith
      | inr ((o', t), run) ↦ subst (IsPast id) (ground arith) (was_expired id o' s t run)
    ]
  ]

  mark_again :
      (first second id : ℕ) (s : Store)
      → is_open first ≡ true
      → IsPast id s
      → (from : OrderStatus) × (mark_order_pending c first second id s
          ≡ (err (invalid_state_transition from pending), s))
  unfolding mark_order_pending
  mark_again first second id s opened past =
      let (from, again) = pending_again second id s past in (from, ground arith)

  -- After `markOrderPending` has succeeded for an order, the event of its acceptance, delivered
  -- again while the session is open, succeeds, leaves the database as it is, and sends no route to
  -- an engine.
  pub accepted_twice :
      (now first second later_first later_second event_id id user_id portfolio_id : ℕ)
      (hooks : List WebhookSubscription) (o : Order) (s s' : Store)
      → mark_order_pending c first second id s ≡ (ok o, s')
      → is_open later_first ≡ true
      → IsSilent c now later_first later_second event_id hooks s' (record {
        event_id = event_id;
        event_type = "ORDER_ACCEPTED";
        payload = order_accepted id user_id portfolio_id;
      })
  unfolding IsSilent process_job
  accepted_twice now first second later_first later_second event_id id user_id portfolio_id hooks o
        s s' run opened =
      let job : EventJob = record {
        event_id = event_id;
        event_type = "ORDER_ACCEPTED";
        payload = order_accepted id user_id portfolio_id;
      } in
      let hooked = webhooks_of c (some user_id) hooks in
      let (from, again) =
        mark_again later_first later_second id s' opened
          (after_success first second id o s s' run) in
      (
        webhook_jobs c job hooked ++ (broadcast_event c job ∷ []),
        rw (again, again, process_job) refl,
        sent-IsNoRoute c job hooked,
      )
