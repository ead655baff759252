-- ===== src/Dispatcher/Closed.antt =====
-- The events of orders that are cancelled or expire.
use trade_alpha.Base.{
  ℕ, ◌≡◌, refl, some, List, [], ◌∷◌, ◌++◌, All, String, arith, inl, inr, ◌⊎◌, Bool-cases,
  Option-cases,
}
use trade_alpha.Int.{pos, ◌-ℤ◌, ltb_ℤ}
use trade_alpha.Column.{Column}
use trade_alpha.Store.Rows.{Store, Order, OrderStatus, OutboxEvent, order_moved}
use trade_alpha.Store.Tables.{find}
use trade_alpha.Store.Tx.{ok, Result-cases}
use trade_alpha.Orders.Rows.{has_order_id}
use trade_alpha.Orders.Closing.{close_body, release_locks}
use trade_alpha.Dispatcher.{
  EventJob, Message, engine_route, WebhookSubscription, webhook_jobs, webhooks_of, actual_user,
  subscribes, broadcast_event, process_job,
}

-- The message does not tell an engine of an order.
abbrev pub IsNoRoute : Message → Type 0
IsNoRoute (engine_route _ _) = ⊥
IsNoRoute _ = Unit

-- An event of the outbox as the queue hands it over.
abbrev pub job_of : ℕ → OutboxEvent → EventJob
job_of event_id e = record { event_id = event_id; event_type = e.event_type; payload = e.payload }

module _ (c : Column) where
  close_body_announces :
      (target : OrderStatus) (event_type : String) (id : ℕ) (o : Order) (s s' : Store)
      → close_body c target event_type id s ≡ ok (o, s')
      → (event : OutboxEvent) × (rest : List OutboxEvent) × (s'.outbox ≡ event ∷ rest)
        × (event.event_type ≡ event_type)
        × (event.payload ≡ order_moved o.id o.portfolio_id)
  unfolding close_body
  close_body_announces target event_type id o s s' h =
      elim (Option-cases (find (has_order_id id) s.orders)) [
        | inl missing ↦ ground arith
        | inr (order, found) ↦
            let event : OutboxEvent = record {
              event_type = event_type;
              aggregate_type = "Order";
              aggregate_id = order.id;
              payload = order_moved order.id order.portfolio_id;
            } in
            let remaining = order.requested_quantity -ℤ order.filled_quantity in
            elim (Bool-cases (ltb_ℤ (pos 0) remaining)) [
              | inr none_left ↦ (event, s.outbox, ground arith, refl, ground arith)
              | inl left ↦ elim (Result-cases (release_locks c order remaining s)) [
                | inl (e, failed) ↦ ground arith
                | inr ((u, s₁), done) ↦ (event, s₁.outbox, ground arith, refl, ground arith)
              ]
            ]
      ]

  webhook_jobs-IsNoRoute :
      (job : EventJob) (hooks : List WebhookSubscription) → All IsNoRoute (webhook_jobs c job hooks)
  unfolding webhook_jobs
  webhook_jobs-IsNoRoute job [] = tt
  webhook_jobs-IsNoRoute job (h ∷ hs) =
      let rest = webhook_jobs-IsNoRoute job hs in
      elim (Bool-cases (subscribes c job.event_type h.events)) [
        | inl hit ↦ rw hit (tt, rest)
        | inr miss ↦ rw miss rest
      ]

  pub append-IsNoRoute :
      (xs ys : List Message) → All IsNoRoute xs → All IsNoRoute ys → All IsNoRoute (xs ++ ys)
  append-IsNoRoute [] ys h k = k
  append-IsNoRoute (x ∷ xs) ys h k = (h.0, append-IsNoRoute xs ys h.1 k)

  -- What follows the routing is no route.
  pub sent-IsNoRoute :
      (job : EventJob) (hooks : List WebhookSubscription)
      → All IsNoRoute (webhook_jobs c job hooks ++ (broadcast_event c job ∷ []))
  sent-IsNoRoute job hooks =
      append-IsNoRoute (webhook_jobs c job hooks) _ (webhook_jobs-IsNoRoute job hooks) (tt, tt)

  module _ (now first second event_id : ℕ) (hooks : List WebhookSubscription) (later : Store) where
    -- The job is done, changes nothing, and tells no engine.
    unfoldable pub IsSilent : EventJob → Type 0
    IsSilent job =
        (messages : List Message) × (process_job c now first second hooks (some job) later
          ≡ (ok messages, later))
        × All IsNoRoute messages

    moved-IsSilent :
        (type : String) (event : OutboxEvent) (id portfolio_id : ℕ)
        → (type ≡ "ORDER_CANCELLED") ⊎ (type ≡ "ORDER_EXPIRED")
        → event.event_type ≡ type
        → event.payload ≡ order_moved id portfolio_id
        → IsSilent (job_of event_id event)
    unfolding IsSilent process_job
    moved-IsSilent type event id portfolio_id t same_type same_payload =
        let job : EventJob = record {
          event_id = event_id;
          event_type = type;
          payload = order_moved id portfolio_id;
        } in
        let hooked = webhooks_of c (actual_user c (order_moved id portfolio_id) later) hooks in
        (
          webhook_jobs c job hooked ++ (broadcast_event c job ∷ []),
          elim t [
            | inl e ↦ rw (same_payload, same_type, e) refl
            | inr e ↦ rw (same_payload, same_type, e) refl
          ],
          sent-IsNoRoute job hooked,
        )

    -- The event that the cancellation or the expiry of an order writes, when it is dispatched,
    -- succeeds, leaves the database as it is, and sends no route to an engine.
    pub closing_not_routed :
        (target : OrderStatus) (event_type : String) (id : ℕ) (o : Order) (s s' : Store)
        → (event_type ≡ "ORDER_CANCELLED") ⊎ (event_type ≡ "ORDER_EXPIRED")
        → close_body c target event_type id s ≡ ok (o, s')
        → (event : OutboxEvent) × (rest : List OutboxEvent) × (s'.outbox ≡ event ∷ rest)
          × IsSilent (job_of event_id event)
    closing_not_routed target event_type id o s s' t run =
        let (event, rest, written, type, payload) =
          close_body_announces target event_type id o s s' run in
        (event, rest, written, moved-IsSilent event_type event o.id o.portfolio_id t type payload)
