-- ===== src/Dispatcher.antt =====
-- apps/api/src/workers/domain-event-dispatcher.worker.ts: where an event goes once the queue hands
-- it over. Instants are those of Session. What the worker sends is a list: the jobs of the webhooks
-- in their order, then the broadcast that came before them, then the messages of the routing, which
-- came first, the last one of them at the head. The queues and the emitter take what they are given; traces are left out.
pub mod Twice
pub mod Closed
pub mod Tests
use trade_alpha.Base.{
  ℕ, ◌==◌, Bool, true, false, ◌&&◌, ◌||◌, Option, none, some, List, [], ◌∷◌, ◌++◌, String, str_eq,
  if◌then◌else◌,
}
use trade_alpha.Column.{Column}
use trade_alpha.Store.Rows.{
  Store, Order, Portfolio, Position, Payload, OutboxEvent, order_accepted, order_placed,
  order_moved, order_activated, order_filled, position_changed,
}
use trade_alpha.Store.Tables.{find, filter_where}
use trade_alpha.Store.Tx.{Error, Result, ok, err, invalid_state_transition}
use trade_alpha.Positions.{has_portfolio_id}
use trade_alpha.Orders.Pending.{mark_order_pending}

-- A row of `webhook_subscriptions`.
pub record WebhookSubscription : Type 0 where
  pub id : ℕ
  pub user_id : ℕ
  pub url : String
  pub secret : String
  pub events : List String
  pub active : Bool

-- A job of the queue of events.
pub record EventJob : Type 0 where
  pub event_id : ℕ
  pub event_type : String
  pub payload : Payload

pub data Message : Type 0 where
  engine_route : (symbol : String) (order_id : ℕ) → Message
  evaluate_risk : (portfolio_id second : ℕ) → Message
  broadcast : (portfolio_id event_id : ℕ) (event_type : String) → Message
  dispatch_webhook : (webhook_id event_id : ℕ) → Message

-- The fields of the business payload.
abbrev pub order_id_of : Payload → Option ℕ
order_id_of (order_accepted id _ _) = some id
order_id_of (order_placed id _ _ _) = some id
order_id_of (order_moved id _) = some id
order_id_of (order_activated id _ _) = some id
order_id_of (order_filled id _ _ _) = some id
order_id_of (position_changed _) = none

abbrev pub symbol_of : Payload → Option String
symbol_of (order_placed _ symbol _ _) = some symbol
symbol_of (order_filled _ symbol _ _) = some symbol
symbol_of (position_changed p) = some p.symbol
symbol_of _ = none

abbrev pub portfolio_id_of : Payload → ℕ
portfolio_id_of (order_accepted _ _ portfolio_id) = portfolio_id
portfolio_id_of (order_placed _ _ _ portfolio_id) = portfolio_id
portfolio_id_of (order_moved _ portfolio_id) = portfolio_id
portfolio_id_of (order_activated _ _ portfolio_id) = portfolio_id
portfolio_id_of (order_filled _ _ _ portfolio_id) = portfolio_id
portfolio_id_of (position_changed p) = p.portfolio_id

abbrev pub user_id_of : Payload → Option ℕ
user_id_of (order_accepted _ user_id _) = some user_id
user_id_of _ = none

abbrev pub is_fill : String → Bool
is_fill type = str_eq type "ORDER_FILLED" || str_eq type "ORDER_PARTIALLY_FILLED"

abbrev pub is_routed : String → Bool
is_routed type =
    is_fill type
    || str_eq type "ORDER_REJECTED"
    || str_eq type "ORDER_CANCELLED"
    || str_eq type "ORDER_EXPIRED"

-- What `markOrderPending` has answered: a duplicate is ignored, another error ends the job.
abbrev pub after_pending : Result Order × Store → Result (List Message) × Store
after_pending (ok order, s) = (ok (engine_route order.symbol order.id ∷ []), s)
after_pending (err (invalid_state_transition _ _), s) = (ok [], s)
after_pending (err e, s) = (err e, s)

abbrev pub risk_of : ℕ → EventJob → List Message
risk_of now job =
    if is_fill job.event_type then evaluate_risk (portfolio_id_of job.payload) now ∷ [] else []

abbrev pub route_of : ℕ → Option String → List Message
route_of order_id none = []
route_of order_id (some symbol) = engine_route symbol order_id ∷ []

module _ (c : Column) where
  -- 1. The routing. The session is looked at twice when an order is marked as pending.
  abbrev pub route_event : ℕ → ℕ → ℕ → EventJob → Store → Result (List Message) × Store
  route_event now first second job s = elim (order_id_of job.payload) [
    | none ↦ (ok [], s)
    | some order_id ↦
        if str_eq job.event_type "ORDER_ACCEPTED"
        then after_pending (mark_order_pending c first second order_id s)
        else if is_routed job.event_type
        then (ok (route_of order_id (symbol_of job.payload) ++ risk_of now job), s)
        else (ok [], s)
  ]

  -- 2. The broadcast.
  abbrev pub broadcast_event : EventJob → Message
  broadcast_event job = broadcast (portfolio_id_of job.payload) job.event_id job.event_type

  -- 3. The webhooks of the user, who is read from the portfolio if the payload does not say.
  abbrev pub actual_user : Payload → Store → Option ℕ
  actual_user payload s = elim (user_id_of payload) [
    | some user_id ↦ some user_id
    | none ↦ elim (find (has_portfolio_id (portfolio_id_of payload)) s.portfolios) [
      | none ↦ none
      | some portfolio ↦ some portfolio.user_id
    ]
  ]

  abbrev pub subscribes : String → List String → Bool
  subscribes type [] = false
  subscribes type (e ∷ es) = str_eq e type || str_eq e "*" || subscribes type es

  unfoldable pub webhook_jobs : EventJob → List WebhookSubscription → List Message
  webhook_jobs job [] = []
  webhook_jobs job (h ∷ hs) =
      let rest = webhook_jobs job hs in
      if subscribes job.event_type h.events then dispatch_webhook h.id job.event_id ∷ rest else rest

  abbrev pub webhooks_of : Option ℕ → List WebhookSubscription → List WebhookSubscription
  webhooks_of none hooks = []
  webhooks_of (some user_id) hooks = filter_where (λ h. h.user_id == user_id && h.active) hooks

  -- `now` is the second of the call. An envelope that is not one is skipped.
  unfoldable pub process_job :
      ℕ → ℕ → ℕ → List WebhookSubscription → Option EventJob → Store → Result (List Message) × Store
  process_job now first second hooks none s = (ok [], s)
  process_job now first second hooks (some job) s =
      let (routed, s') = route_event now first second job s in
      let jobs = webhook_jobs job (webhooks_of (actual_user job.payload s') hooks) in
      elim routed [
        | err e ↦ (err e, s')
        | ok routes ↦ (ok (jobs ++ (broadcast_event job ∷ routes)), s')
      ]
