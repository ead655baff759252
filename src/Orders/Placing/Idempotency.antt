-- ===== src/Orders/Placing/Idempotency.antt =====
-- `placeOrder` called again with the same data.
use trade_alpha.Base.{◌≡◌, some, arith, inl, inr, ℕ, str_eq_iff, Option-cases}
use trade_alpha.Column.{Column}
use trade_alpha.Store.Rows.{Store, Order}
use trade_alpha.Store.Tables.{find}
use trade_alpha.Store.Tx.{Error, ok, Result-cases, unique_violation, ◌>>◌}
use trade_alpha.Session.{assert_open}
use trade_alpha.Orders.Rows.{has_user_key}
use trade_alpha.Orders.Placing.{
  PlaceOrderDto, place_order, place_body, check_request, recover, order_data,
}
use trade_alpha.Orders.Placing.Effects.{place_body-PlaceEffect}

-- The checks before the first query read nothing from the database.
checks_read_nothing :
    (dto : PlaceOrderDto) (now : ℕ) (s s' t : Store) (u : Unit {0})
    → (check_request dto >> assert_open now) s ≡ ok (u, s')
    → (check_request dto >> assert_open now) t ≡ ok (u, t)
unfolding check_request assert_open
checks_read_nothing dto now s s' t u h = ground arith

module _ (c : Column) (dto : PlaceOrderDto) where
  placed_is_found :
      (o : Order) (s s' : Store)
      → place_body c dto s ≡ ok (o, s')
      → find (has_user_key dto.user_id dto.idempotency_key) s'.orders ≡ some o
  unfolding find order_data
  placed_is_found o s s' run =
      let e = place_body-PlaceEffect c dto o s s' run in
      ground (arith, e.orders, e.result, str_eq_iff dto.idempotency_key dto.idempotency_key)

  recovered_is_found :
      (e : Error) (o : Order) (s : Store)
      → recover dto e s ≡ ok o
      → find (has_user_key dto.user_id dto.idempotency_key) s.orders ≡ some o
  recovered_is_found (unique_violation i) o s h = ground arith
  recovered_is_found e o s h = cc

  -- If `placeOrder` answers with an order, then repeated with the same data at the same time it
  -- answers with that order again and changes nothing, whatever other calls do between the first
  -- look for the order and the transaction.
  pub place_order_twice :
      (now : ℕ) (interim interim' : Store → Store) (s : Store) (o : Order)
      → (place_order c now interim dto s).0 ≡ ok o
      → let s' = (place_order c now interim dto s).1 in
        place_order c now interim' dto s' ≡ (ok o, s')
  unfolding place_order
  place_order_twice now interim interim' s o h =
      let key = has_user_key dto.user_id dto.idempotency_key in
      elim (Result-cases ((check_request dto >> assert_open now) s)) [
        | inl (e, failed) ↦ ground arith
        | inr ((u, t), passed) ↦
            let repeat = λ (s' : Store). checks_read_nothing dto now s t s' u passed in
            elim (Option-cases (find key s.orders)) [
              | inr (existing, found) ↦ ground (arith, repeat s)
              | inl missing ↦ elim (Result-cases (place_body c dto (interim s))) [
                | inr ((row, s₁), run) ↦
                    ground (arith, repeat s₁, placed_is_found row (interim s) s₁ run)
                | inl (e, failed) ↦
                    ground (arith, repeat (interim s), recovered_is_found e o (interim s))
              ]
            ]
      ]
