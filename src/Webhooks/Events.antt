-- ===== src/Webhooks/Events.antt =====
-- Which events a new subscription gets.
use trade_alpha.Base.{
  ◌≡◌, refl, Bool, true, false, not, ◌&&◌, ◌||◌, Option, some, List, [], ◌∷◌, String, str_eq_iff,
  arith, Bool-cases, inl, inr, ℕ, subst, sym,
}
use trade_alpha.Column.{Column}
use trade_alpha.Store.Tables.{filter_where}
use trade_alpha.Engine.{contains}
use trade_alpha.Dispatcher.{WebhookSubscription, subscribes}
use trade_alpha.PortfolioApi.{answered}
use trade_alpha.Webhooks.{
  Subscriptions, create_webhook, final_events, or_all, is_valid_event, asked_events,
}

-- One of the events is a valid one.
pub any_valid : List String → Bool
any_valid [] = false
any_valid (e ∷ es) = is_valid_event e || any_valid es

star_valid : is_valid_event "*" ≡ true
unfolding is_valid_event contains
star_valid = refl

module _ (c : Column) where
  kept_subscribes :
      (type : String) (es : List String)
      → subscribes c type (filter_where is_valid_event es)
        ≡ (contains es "*" || (is_valid_event type && contains es type))
  unfolding filter_where contains
  kept_subscribes type [] = ground arith
  kept_subscribes type (e ∷ es) =
      ground (arith, kept_subscribes type es, str_eq_iff e type, str_eq_iff e "*", star_valid)

  kept_none : (es : List String) → any_valid es ≡ false → filter_where is_valid_event es ≡ []
  unfolding filter_where any_valid
  kept_none [] h = refl
  kept_none (e ∷ es) h = ground (arith, kept_none es)

  kept_some :
      (es : List String)
      → any_valid es ≡ true
      → or_all (filter_where is_valid_event es) ≡ filter_where is_valid_event es
  unfolding filter_where any_valid
  kept_some [] h = cc
  kept_some (e ∷ es) h = elim (Bool-cases (is_valid_event e)) [
    | inl hit ↦ ground (arith, hit)
    | inr miss ↦ ground (arith, miss, kept_some es)
  ]

  final_subscribes :
      (type : String) (es : List String)
      → subscribes c type (or_all (filter_where is_valid_event es))
        ≡ (contains es "*" || (is_valid_event type && contains es type) || not (any_valid es))
  final_subscribes type es = elim (Bool-cases (any_valid es)) [
    | inl some_valid ↦ rw (kept_some es some_valid) (ground (arith, kept_subscribes type es))
    | inr no_valid ↦ rw (kept_none es no_valid) (ground (arith, str_eq_iff "*" "*"))
  ]

  -- A webhook that is created gets the events of a type if and only if all events were asked for,
  -- or that type is valid and was asked for, or no valid type was asked for at all.
  pub created_subscribes :
      (user_id : ℕ) (url secret type : String) (events : Option (List String)) (t : Subscriptions)
      (hook : WebhookSubscription)
      → (create_webhook (some user_id) (some url) events secret t).0 ≡ answered hook
      → let asked = asked_events events in
        subscribes c type hook.events ≡ (
          contains asked "*"
          || (is_valid_event type && contains asked type)
          || not (any_valid asked))
  unfolding create_webhook final_events
  created_subscribes user_id url secret type events t hook h =
      let made : hook.events ≡ or_all (filter_where is_valid_event (asked_events events)) =
        ground arith in
      subst
        (λ es. subscribes c type es ≡ (
          contains (asked_events events) "*"
          || (is_valid_event type && contains (asked_events events) type)
          || not (any_valid (asked_events events))))
        (sym made) (final_subscribes type (asked_events events))
