-- ===== src/Orders/Placing/Effects.antt =====
-- What the transaction of `placeOrder` leaves in the database.
use trade_alpha.Base.{
  ◌≤◌, ◌<◌, ◌≡◌, none, ◌∷◌, arith, inl, inr, Option-cases, Bool-cases, if◌then◌else◌,
}
use trade_alpha.Int.{ℤ}
use trade_alpha.Column.{Column}
use trade_alpha.Store.Rows.{Store, Portfolio, Order}
use trade_alpha.Store.Tables.{find}
use trade_alpha.Store.Tx.{Tx, ok, Result-cases}
use trade_alpha.Positions.{has_portfolio_id, lock_position}
use trade_alpha.Positions.Frame.{lock_position-PositionFrame}
use trade_alpha.Orders.Rows.{has_user_key}
use trade_alpha.Orders.Placing.{
  PlaceOrderDto, place_body, reserve_margin, reserve_cash, order_data, lock_margin, lock_for_sale,
}

-- Only portfolios, positions, events and the next identifier may differ.
pub record LockFrame (s s' : Store) : Type 0 where
  pub orders : s'.orders ≡ s.orders
  pub fills : s'.fills ≡ s.fills
  pub ledger : s'.ledger ≡ s.ledger
  pub next_id : s.next_id ≤ s'.next_id

module _ (c : Column) (dto : PlaceOrderDto) where
  lock_margin-LockFrame :
      (portfolio : Portfolio) (reserved : ℤ) (s s' : Store) (u : Unit {0})
      → lock_margin c portfolio reserved s ≡ ok (u, s')
      → LockFrame s s'
  unfolding lock_margin
  lock_margin-LockFrame portfolio reserved s s' u h = ground arith

  reserve_margin-LockFrame :
      (portfolio : Portfolio) (s s' : Store) (u : Unit {0})
      → reserve_margin c dto portfolio s ≡ ok (u, s')
      → LockFrame s s'
  unfolding reserve_margin
  reserve_margin-LockFrame portfolio s s' u h = grind (arith, lock_margin-LockFrame)

  reserve_cash-LockFrame :
      (portfolio : Portfolio) (s s' : Store) (u : Unit {0})
      → reserve_cash c dto portfolio s ≡ ok (u, s')
      → LockFrame s s'
  unfolding reserve_cash
  reserve_cash-LockFrame portfolio s s' u h = ground arith

  lock_for_sale-LockFrame :
      (s s' : Store) (u : Unit {0}) → lock_for_sale dto s ≡ ok (u, s') → LockFrame s s'
  lock_for_sale-LockFrame s s' u h =
      elim (Result-cases (lock_position dto.portfolio_id dto.symbol dto.requested_quantity s)) [
        | inl (e, failed) ↦ ground arith
        | inr ((r, s₁), done) ↦
            let f =
              lock_position-PositionFrame dto.portfolio_id dto.symbol dto.requested_quantity s s₁ r
                done in
            ground (arith, f.orders, f.fills, f.ledger, f.next_id)
      ]

  -- The order that is placed, in the database that it leaves.
  pub record PlaceEffect (o : Order) (s s' : Store) : Type 0 where
    pub result : o ≡ record (order_data c dto) { id = o.id }
    pub key_new : find (has_user_key dto.user_id dto.idempotency_key) s.orders ≡ none
    pub orders : s'.orders ≡ o ∷ s.orders
    pub fills : s'.fills ≡ s.fills
    pub ledger : s'.ledger ≡ s.ledger
    pub id_new : s.next_id ≤ o.id
    pub id_used : o.id < s'.next_id

  -- If the transaction of `placeOrder` succeeds, its idempotency key was not used; the accepted
  -- order has a new identifier and is added to the orders, and fills and ledger are left.
  pub place_body-PlaceEffect :
      (o : Order) (s s' : Store) → place_body c dto s ≡ ok (o, s') → PlaceEffect o s s'
  unfolding place_body
  place_body-PlaceEffect o s s' h =
      elim (Option-cases (find (has_portfolio_id dto.portfolio_id) s.portfolios)) [
        | inl missing ↦ ground arith
        | inr (portfolio, found) ↦
            let reserve : Tx (Unit {0}) =
              if portfolio.is_margin_enabled
              then reserve_margin c dto portfolio
              else reserve_cash c dto portfolio in
            elim (Result-cases (reserve s)) [
              | inl (e, failed) ↦ ground arith
              | inr ((u, s₁), reserved) ↦ elim (Result-cases (lock_for_sale dto s₁)) [
                | inl (e, failed) ↦ ground arith
                | inr ((v, s₂), locked) ↦
                    let f : LockFrame s s₁ = elim (Bool-cases portfolio.is_margin_enabled) [
                      | inl margin ↦ reserve_margin-LockFrame portfolio s s₁ u (ground arith)
                      | inr cash ↦ reserve_cash-LockFrame portfolio s s₁ u (ground arith)
                    ] in
                    let g = lock_for_sale-LockFrame s₁ s₂ v locked in
                    elim (Option-cases
                      (find (has_user_key dto.user_id dto.idempotency_key) s₂.orders)) [
                        | inr (other, used) ↦ ground arith
                        | inl new ↦ record {
                          result = ground arith;
                          key_new = rw (← f.orders, ← g.orders) new;
                          orders = ground (arith, f.orders, g.orders);
                          fills = ground (arith, f.fills, g.fills);
                          ledger = ground (arith, f.ledger, g.ledger);
                          id_new = ground (arith, f.next_id, g.next_id);
                          id_used = ground (arith, f.next_id, g.next_id);
                        }
                      ]
              ]
            ]
      ]
