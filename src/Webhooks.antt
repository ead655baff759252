-- ===== src/Webhooks.antt =====
-- apps/api/src/controllers/webhooks.controller.ts and apps/api/src/workers/webhook.worker.ts: the
-- subscriptions of a user and the delivery of an event. The signature, the random secret and what
-- the address answers are parameters. The last row of a table stands first. A query that fails, which
-- answers 500, is left out.
pub mod Events
pub mod Deleted
pub mod Tests
use text.Mathlib.Text.{starts_with}
use trade_alpha.Base.{
  ℕ, ◌+◌, ◌==◌, leb, ltb, Bool, true, false, not, ◌&&◌, ◌||◌, Option, none, some, List, [], ◌∷◌,
  String, str_eq, if◌then◌else◌,
}
use trade_alpha.Store.Tables.{find, filter_where}
use trade_alpha.Engine.{contains}
use trade_alpha.Dispatcher.{WebhookSubscription}
use trade_alpha.PortfolioApi.{Response, denied, answered}

abbrev pub valid_events : List String
valid_events =
    "ORDER_ACCEPTED" ∷ "ORDER_FILLED" ∷ "ORDER_PARTIALLY_FILLED" ∷ "ORDER_REJECTED"
    ∷ "ORDER_CANCELLED" ∷ "*" ∷ []

unfoldable pub is_valid_event : String → Bool
is_valid_event e = contains valid_events e

-- What is not an array counts as none.
abbrev pub asked_events : Option (List String) → List String
asked_events none = []
asked_events (some events) = events

abbrev pub or_all : List String → List String
or_all [] = "*" ∷ []
or_all (e ∷ es) = e ∷ es

unfoldable pub final_events : Option (List String) → List String
unfolding is_valid_event
final_events events = or_all (filter_where is_valid_event (asked_events events))

-- The table and the next identifier.
pub record Subscriptions : Type 0 where
  pub hooks : List WebhookSubscription
  pub next_id : ℕ

-- A url that is no text counts as none, and the empty one does not start with `http`.
unfoldable pub create_webhook :
    Option ℕ
    → Option String
    → Option (List String)
    → String
    → Subscriptions
    → Response WebhookSubscription × Subscriptions
unfolding final_events
create_webhook none url events secret t = (denied 401, t)
create_webhook (some user_id) none events secret t = (denied 400, t)
create_webhook (some user_id) (some url) events secret t =
    let hook : WebhookSubscription = record {
      id = t.next_id;
      user_id = user_id;
      url = url;
      secret = secret;
      events = final_events events;
      active = true;
    } in
    if not (starts_with url "http")
    then (denied 400, t)
    else (answered hook, record { hooks = hook ∷ t.hooks; next_id = t.next_id + 1 })

unfoldable pub list_webhooks : Option ℕ → Subscriptions → Response (List WebhookSubscription)
list_webhooks none t = denied 401
list_webhooks (some user_id) t = answered (filter_where (λ h. h.user_id == user_id) t.hooks)

abbrev pub has_hook_id : ℕ → WebhookSubscription → Bool
has_hook_id id h = h.id == id

unfoldable pub delete_webhook : Option ℕ → ℕ → Subscriptions → Response (Unit {0}) × Subscriptions
delete_webhook none id t = (denied 401, t)
delete_webhook (some user_id) id t = elim (find (has_hook_id id) t.hooks) [
  | none ↦ (denied 404, t)
  | some hook ↦
      if not (hook.user_id == user_id)
      then (denied 404, t)
      else (answered tt, record t { hooks = filter_where (λ h. not (has_hook_id id h)) t.hooks })
]

-- A job of the queue of webhooks.
pub record WebhookJob : Type 0 where
  pub webhook_id : ℕ
  pub event_type : String
  pub body : String

pub record Post : Type 0 where
  pub url : String
  pub signature : String
  pub event_type : String
  pub body : String

-- Nothing is sent, or the post went out, and the job ends or throws, which queues it again.
pub data Delivery : Type 0 where
  skipped : Delivery
  delivered failed : (post : Post) → Delivery

-- `response.ok`; no answer is an error or the end of five seconds.
abbrev pub is_ok : Option ℕ → Bool
is_ok none = false
is_ok (some status) = leb 200 status && ltb status 300

unfoldable pub deliver :
    (String → String → String)
    → (Post → Option ℕ)
    → WebhookJob
    → List WebhookSubscription
    → Delivery
deliver hmac send job hooks = elim (find (has_hook_id job.webhook_id) hooks) [
  | none ↦ skipped
  | some hook ↦
      let post : Post = record {
        url = hook.url;
        signature = hmac hook.secret job.body;
        event_type = job.event_type;
        body = job.body;
      } in
      if not hook.active then skipped else if is_ok (send post) then delivered post else failed post
]
