-- ===== src/OrderApi/Cancelled.antt =====
-- Who may cancel an order.
use trade_alpha.Base.{
  ℕ, ◌≡◌, refl, sym, subst, ◌⊎◌, inl, inr, Bool, some, ◌==◌, arith, Option-cases, Bool-cases,
  if◌then◌else◌,
}
use trade_alpha.Column.{Column}
use trade_alpha.Store.Rows.{Store, Order, cancelled}
use trade_alpha.Store.Tables.{find}
use trade_alpha.Store.Tx.{Error, Result-cases}
use trade_alpha.Orders.Rows.{has_order_id}
use trade_alpha.Orders.Closing.{close_body, cancel_order}
use trade_alpha.Orders.Closing.Effects.{CloseEffect, close_body-CloseEffect}
use trade_alpha.PortfolioApi.{Response, denied, answered}
use trade_alpha.OrderApi.{cancel, is_bad_cancel}

-- The order of a request is there and belongs to the user.
pub record IsOwn (user_id order_id : ℕ) (s : Store) : Type 0 where
  pub order : Order
  pub found : find (has_order_id order_id) s.orders ≡ some order
  pub owner : order.user_id ≡ user_id

module _ (c : Column) where
  -- What a response of the handler means.
  abbrev pub Cancels : ℕ → ℕ → (Store → Store) → Store → Response Order → Store → Type 0
  Cancels user_id order_id interim s (denied status) s' = (s' ≡ s) ⊎ (s' ≡ interim s)
  Cancels user_id order_id interim s (answered o) s' =
      IsOwn user_id order_id s × CloseEffect c cancelled order_id o (interim s) s'

  -- A cancellation that answers with an order was asked for by the user that the order belonged
  -- to, and has had the effect of the service on the database as other calls have left it; one
  -- that is denied leaves the database as it was, or as other calls have left it.
  pub cancel-Cancels :
      (says : Error → Bool) (user_id order_id : ℕ) (interim : Store → Store) (s : Store)
      → let after = cancel c says (some user_id) order_id interim s in
        Cancels user_id order_id interim s after.0 after.1
  unfolding cancel cancel_order
  cancel-Cancels says user_id order_id interim s =
      let Goal : Response Order × Store → Type 0 =
        λ r. Cancels user_id order_id interim s r.0 r.1 in
      let after = cancel c says (some user_id) order_id interim s in
      elim (Option-cases (find (has_order_id order_id) s.orders)) [
        | inl missing ↦
            let ends : after ≡ (denied 404, s) = ground arith in subst Goal (sym ends) (inl refl)
        | inr (order, found) ↦ elim (Bool-cases (order.user_id == user_id)) [
          | inr foreign ↦
              let ends : after ≡ (denied 403, s) = ground arith in subst Goal (sym ends) (inl refl)
          | inl own ↦
              let body = close_body c cancelled "ORDER_CANCELLED" order_id in
              elim (Result-cases (body (interim s))) [
                | inl (e, failed) ↦
                    let ends : after
                        ≡ (denied (if is_bad_cancel says e then 400 else 500), interim s) =
                      ground arith in
                    subst Goal (sym ends) (inr refl)
                | inr ((o, s'), run) ↦
                    let ends : after ≡ (answered o, s') = ground arith in
                    let mine : IsOwn user_id order_id s = record {
                      order = order;
                      found = found;
                      owner = ground arith;
                    } in
                    subst Goal (sym ends) (
                      mine,
                      close_body-CloseEffect c cancelled "ORDER_CANCELLED" order_id o (interim s) s'
                          run,
                    )
              ]
        ]
      ]
