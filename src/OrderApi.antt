-- ===== src/OrderApi.antt =====
-- apps/api/src/controllers/order.controller.ts: what the handlers of orders answer to a user, who is
-- the one of the token. `parseInt` is applied before: a query parameter is a number or none. Whether
-- the text of an error of Prisma contains one of the words that the handlers look for is a
-- parameter. The dates of a query, and a body that is no order, are left out.
pub mod Placed
pub mod Cancelled
pub mod Listed
pub mod Tests
use trade_alpha.Base.{
  ℕ, zero, suc, ◌==◌, Bool, true, false, not, ◌&&◌, ◌||◌, Option, none, some, List, [], ◌∷◌, String,
  str_eq, length, if◌then◌else◌,
}
use trade_alpha.Int.{ℤ, pos, ◌-ℤ◌, ◌*ℤ◌, min_ℤ}
use trade_alpha.Column.{Column}
use trade_alpha.Store.Rows.{
  Store, Portfolio, Order, OrderStatus, OrderSide, OrderType, status_eq, side_eq, market, limit,
  stop, stop_limit,
}
use trade_alpha.Store.Tables.{find, filter_where}
use trade_alpha.Store.Tx.{
  Result, Error, ok, err, quantity_not_positive, limit_price_required, stop_price_required,
  both_prices_required, market_closed, unauthorized, insufficient_free_margin, insufficient_funds,
  no_position_found, insufficient_quantity, insufficient_locked_quantity, invalid_state_transition,
  not_found, unique_violation,
}
use trade_alpha.Orders.Rows.{has_order_id}
use trade_alpha.Orders.Placing.{PlaceOrderDto, place_order}
use trade_alpha.Orders.Closing.{cancel_order}
use trade_alpha.PortfolioApi.{Response, denied, answered}

-- The words that `placeOrder` of the controller looks for in a message.
abbrev pub is_bad_request : (Error → Bool) → Error → Bool
is_bad_request says quantity_not_positive = true
is_bad_request says limit_price_required = true
is_bad_request says stop_price_required = true
is_bad_request says both_prices_required = true
is_bad_request says market_closed = true
is_bad_request says unauthorized = true
is_bad_request says insufficient_free_margin = true
is_bad_request says insufficient_funds = true
is_bad_request says no_position_found = true
is_bad_request says insufficient_quantity = true
is_bad_request says insufficient_locked_quantity = true
is_bad_request says not_found = says not_found
is_bad_request says (unique_violation i) = says (unique_violation i)
is_bad_request says _ = false

-- The words that `cancelOrder` of the controller looks for.
abbrev pub is_bad_cancel : (Error → Bool) → Error → Bool
is_bad_cancel says (invalid_state_transition _ _) = true
is_bad_cancel says not_found = says not_found
is_bad_cancel says (unique_violation i) = says (unique_violation i)
is_bad_cancel says _ = false

abbrev pub respond : (Error → Bool) → Result Order → Response Order
respond bad (ok order) = answered order
respond bad (err e) = denied (if bad e then 400 else 500)

-- The body of a request; `request` holds a user and a portfolio that are overwritten.
pub record PlaceOrderBody : Type 0 where
  pub request : PlaceOrderDto
  pub portfolio_id : Option ℕ

-- The portfolio of the body, or the first one of the user.
unfoldable pub chosen_portfolio : ℕ → Option ℕ → Store → Option ℕ
chosen_portfolio user_id (some id) s = some id
chosen_portfolio user_id none s =
    elim (find (λ (p : Portfolio). p.user_id == user_id) s.portfolios) [
      | none ↦ none
      | some p ↦ some p.id
    ]

-- The query of `getOrders`.
pub record OrderQuery : Type 0 where
  pub page : Option ℤ
  pub limit : Option ℤ
  pub statuses : Option (List OrderStatus)
  pub symbol : Option String
  pub side : Option OrderSide
  pub order_type : Option OrderType

pub record OrderPage : Type 0 where
  pub orders : List Order
  pub total_records : ℕ
  pub current_page : ℤ
  pub page_size : ℤ

-- `parsed || fallback`
abbrev pub or_default : ℤ → Option ℤ → ℤ
or_default fallback none = fallback
or_default fallback (some (pos zero)) = fallback
or_default fallback (some n) = n

abbrev pub type_eq : OrderType → OrderType → Bool
type_eq market market = true
type_eq limit limit = true
type_eq stop stop = true
type_eq stop_limit stop_limit = true
type_eq _ _ = false

abbrev pub is_among : List OrderStatus → OrderStatus → Bool
is_among [] status = false
is_among (x ∷ xs) status = status_eq x status || is_among xs status

-- A condition that is only there with its parameter.
abbrev pub where_given {ℓ} : {A : Type ℓ} → Option A → (A → Bool) → Bool
where_given none test = true
where_given (some a) test = test a

unfoldable pub matches : ℕ → OrderQuery → Order → Bool
matches user_id q o =
    o.user_id == user_id
    && where_given q.statuses (λ xs. is_among xs o.status)
    && where_given q.symbol (λ x. str_eq x o.symbol)
    && where_given q.side (λ x. side_eq x o.side)
    && where_given q.order_type (λ x. type_eq x o.order_type)

module _ (c : Column) (says : Error → Bool) where
  unfoldable pub place :
      Option ℕ → ℕ → (Store → Store) → PlaceOrderBody → Store → Response Order × Store
  place none now interim body s = (denied 401, s)
  place (some user_id) now interim body s = elim (chosen_portfolio user_id body.portfolio_id s) [
    | none ↦ (denied 400, s)
    | some portfolio_id ↦
        let dto : PlaceOrderDto = record body.request {
          user_id = user_id;
          portfolio_id = portfolio_id;
        } in
        let (result, s') = place_order c now interim dto s in
        (respond (is_bad_request says) result, s')
  ]

  -- Between the look for the order and its cancellation other calls run: `interim`.
  unfoldable pub cancel : Option ℕ → ℕ → (Store → Store) → Store → Response Order × Store
  cancel none order_id interim s = (denied 401, s)
  cancel (some user_id) order_id interim s = elim (find (has_order_id order_id) s.orders) [
    | none ↦ (denied 404, s)
    | some order ↦
        if not (order.user_id == user_id)
        then (denied 403, s)
        else (let (result, s') = cancel_order c order_id (interim s) in
            (respond (is_bad_cancel says) result, s'))
  ]

-- The query with `skip` and `take` is a parameter, which tells what a negative number does: it may
-- throw.
unfoldable pub get_orders :
    (ℤ → ℤ → List Order → Option (List Order)) → Option ℕ → OrderQuery → Store → Response OrderPage
unfolding matches
get_orders find_many none q s = denied 401
get_orders find_many (some user_id) q s =
    let page = or_default (pos 1) q.page in
    let size = min_ℤ (or_default (pos 20) q.limit) (pos 100) in
    let rows = filter_where (matches user_id q) s.orders in
    elim (find_many ((page -ℤ pos 1) *ℤ size) size rows) as (λ _. Response OrderPage) [
      | none ↦ denied 500
      | some orders ↦ answered (record {
        orders = orders;
        total_records = length rows;
        current_page = page;
        page_size = size;
      })
    ]
