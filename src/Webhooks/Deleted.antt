-- ===== src/Webhooks/Deleted.antt =====
-- What becomes of the jobs of a subscription that is gone.
use trade_alpha.Base.{
  ℕ, ◌≡◌, refl, ◌==◌, false, not, Option, none, some, List, [], ◌∷◌, String, arith, Option-cases,
  Bool-cases, inl, inr, if◌then◌else◌,
}
use trade_alpha.Store.Tables.{find, filter_where}
use trade_alpha.Dispatcher.{WebhookSubscription}
use trade_alpha.PortfolioApi.{answered}
use trade_alpha.Webhooks.{
  Subscriptions, has_hook_id, delete_webhook, Post, WebhookJob, deliver, skipped,
}

not_found_after :
    (id : ℕ) (hooks : List WebhookSubscription)
    → find (has_hook_id id) (filter_where (λ h. not (has_hook_id id h)) hooks) ≡ none
unfolding find filter_where
not_found_after id [] = refl
not_found_after id (h ∷ hs) = ground (arith, not_found_after id hs)

others_stay :
    (id other : ℕ) (hooks : List WebhookSubscription)
    → (other == id) ≡ false
    → find (has_hook_id other) (filter_where (λ h. not (has_hook_id id h)) hooks)
      ≡ find (has_hook_id other) hooks
unfolding find filter_where
others_stay id other [] apart = refl
others_stay id other (h ∷ hs) apart = ground (arith, others_stay id other hs)

module _ (hmac : String → String → String) (send : Post → Option ℕ) where
  pub deleted_skipped :
      (user_id id : ℕ) (job : WebhookJob) (t : Subscriptions)
      → let after = delete_webhook (some user_id) id t in
        after.0 ≡ answered tt
        → deliver hmac send job after.1.hooks
          ≡ (if job.webhook_id == id then skipped else deliver hmac send job t.hooks)
  unfolding delete_webhook deliver
  deleted_skipped user_id id job t h = elim (Option-cases (find (has_hook_id id) t.hooks)) [
    | inl missing ↦ ground arith
    | inr (hook, found) ↦ elim (Bool-cases (hook.user_id == user_id)) [
      | inr foreign ↦ ground arith
      | inl own ↦ elim (Bool-cases (job.webhook_id == id)) [
        | inl same ↦ ground (arith, not_found_after id t.hooks)
        | inr apart ↦ ground (arith, others_stay id job.webhook_id t.hooks apart)
      ]
    ]
  ]
