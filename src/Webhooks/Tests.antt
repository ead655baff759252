-- ===== src/Webhooks/Tests.antt =====
-- Subscriptions of one user.
use trade_alpha.Base.{ℕ, ◌≡◌, refl, true, not, ◌&&◌, ◌||◌, Option, some, List, [], ◌∷◌, String}
use trade_alpha.Column.HalfAway.{nearest}
use trade_alpha.Store.Tables.{find, filter_where}
use trade_alpha.Engine.{contains}
use trade_alpha.Dispatcher.{WebhookSubscription, subscribes}
use trade_alpha.PortfolioApi.{answered}
use trade_alpha.Webhooks.{
  Subscriptions, create_webhook, delete_webhook, is_valid_event, Post, WebhookJob,
}
use trade_alpha.Webhooks.Events.{created_subscribes, any_valid}

abbrev empty_table : Subscriptions
empty_table = record { hooks = []; next_id = 4 }

-- An event that the handler does not know.
abbrev asked : List String
asked = "ORDER_EXPIRED" ∷ []

abbrev hook : WebhookSubscription
hook = record {
  id = 4;
  user_id = 7;
  url = "http://localhost";
  secret = "s";
  events = "*" ∷ [];
  active = true;
}

created :
    (create_webhook (some 7) (some "http://localhost") (some asked) "s" empty_table).0
    ≡ answered hook
unfolding create_webhook filter_where contains
created = refl

created_subscribes_example : subscribes nearest "ORDER_FILLED" hook.events ≡ (
    contains asked "*"
    || (is_valid_event "ORDER_FILLED" && contains asked "ORDER_FILLED")
    || not (any_valid asked))
created_subscribes_example =
    created_subscribes nearest 7 "http://localhost" "s" "ORDER_FILLED" (some asked) empty_table hook
      created

abbrev one_hook : Subscriptions
one_hook = record { hooks = hook ∷ []; next_id = 5 }

abbrev job : WebhookJob
job = record { webhook_id = 4; event_type = "ORDER_FILLED"; body = "{}" }

abbrev hmac : String → String → String
hmac secret body = secret

abbrev send : Post → Option ℕ
send post = some 200

was_deleted : (delete_webhook (some 7) 4 one_hook).0 ≡ answered tt
unfolding delete_webhook find
was_deleted = refl
