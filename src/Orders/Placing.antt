-- ===== src/Orders/Placing.antt =====
-- `placeOrder`: validation, the reservation of cash or margin, and the new order. The price that is
-- reserved counts units of 10^-6 (a market price times 1.05 or 0.95), the cash 10^-10, the margin
-- 10^-12.
pub mod Effects
pub mod Reservation
pub mod Idempotency
use trade_alpha.Base.{
  ℕ, ◌==◌, Bool, true, false, not, Option, none, some, List, String, if◌then◌else◌,
}
use trade_alpha.Int.{ℤ, pos, ◌+ℤ◌, ◌-ℤ◌, ◌*ℤ◌, ltb_ℤ, leb_ℤ, abs, max_ℤ}
use trade_alpha.Column.{Column}
use trade_alpha.Store.Rows.{
  Store, Portfolio, Position, Order, OrderSide, OrderType, buy, sell, market, limit, stop,
  stop_limit, accepted, order_accepted,
}
use trade_alpha.Store.Tables.{find, filter_where}
use trade_alpha.Store.Tx.{
  Tx, Result, Error, Index, ok, err, pure, throw, gets, throw_if, from_result, transaction, ◌>>=◌,
  ◌>>◌, quantity_not_positive, limit_price_required, stop_price_required, both_prices_required,
  unauthorized, insufficient_free_margin, insufficient_funds, unique_violation,
}
use trade_alpha.Session.{assert_open}
use trade_alpha.Valuation.{get_valuation}
use trade_alpha.Positions.{find_portfolio, find_position, lock_position, emit}
use trade_alpha.Orders.Rows.{has_user_key, write_portfolio, create_order}

-- A request whose decimals have at most four places; nothing in the code refuses others. A price that
-- is missing, or the number 0, counts as missing and is none.
pub record PlaceOrderDto : Type 0 where
  pub user_id : ℕ
  pub portfolio_id : ℕ
  pub symbol : String
  pub side : OrderSide
  pub order_type : OrderType
  pub requested_quantity : ℤ
  pub limit_price : Option ℤ
  pub stop_price : Option ℤ
  pub current_market_price : ℤ
  pub idempotency_key : String

-- The prices that a type of order requires.
abbrev pub check_prices : OrderType → Option ℤ → Option ℤ → Tx (Unit {0})
check_prices market _ _ = pure tt
check_prices limit none _ = throw limit_price_required
check_prices limit (some _) _ = pure tt
check_prices stop _ none = throw stop_price_required
check_prices stop _ (some _) = pure tt
check_prices stop_limit _ none = throw both_prices_required
check_prices stop_limit none (some _) = throw both_prices_required
check_prices stop_limit (some _) (some _) = pure tt

unfoldable pub check_request : PlaceOrderDto → Tx (Unit {0})
check_request dto = do
  throw_if (leb_ℤ dto.requested_quantity (pos 0)) quantity_not_positive
  check_prices dto.order_type dto.limit_price dto.stop_price

abbrev from_limit : Option ℤ → ℤ
from_limit none = pos 0
from_limit (some price) = price *ℤ pos 100

-- In units of 10^-6.
unfoldable pub reservation_price_of : PlaceOrderDto → ℤ
reservation_price_of dto =
    let at_market : ℤ = elim dto.side [
      | buy ↦ dto.current_market_price *ℤ pos 105
      | sell ↦ dto.current_market_price *ℤ pos 95
    ] in
    elim dto.order_type [
      | limit ↦ from_limit dto.limit_price
      | stop_limit ↦ from_limit dto.limit_price
      | market ↦ at_market
      | stop ↦ at_market
    ]

-- How much of an order adds to the exposure of a position.
unfoldable pub exposure_increasing : OrderSide → ℤ → ℤ → ℤ
exposure_increasing buy current requested =
    if leb_ℤ (pos 0) current then requested else max_ℤ (pos 0) (requested -ℤ abs current)
exposure_increasing sell current requested =
    if leb_ℤ current (pos 0) then requested else max_ℤ (pos 0) (requested -ℤ current)

abbrev quantity_or_zero : Option Position → ℤ
quantity_or_zero none = pos 0
quantity_or_zero (some p) = p.quantity

abbrev pub lock_for_sale : PlaceOrderDto → Tx (Unit {0})
lock_for_sale dto = elim dto.side [
  | buy ↦ pure tt
  | sell ↦ lock_position dto.portfolio_id dto.symbol dto.requested_quantity >> pure tt
]

-- The answer when the transaction has failed: a violated unique index means that the order is
-- there, if it can be found.
abbrev pub recover : PlaceOrderDto → Error → Store → Result Order
recover dto (unique_violation i) s =
    elim (find (has_user_key dto.user_id dto.idempotency_key) s.orders) [
      | some existing ↦ ok existing
      | none ↦ err (unique_violation i)
    ]
recover dto e s = err e

module _ (c : Column) where
  -- The check against the free margin and the lock. The service that values the portfolio here is
  -- built without a price cache.
  unfoldable pub lock_margin : Portfolio → ℤ → Tx (Unit {0})
  lock_margin portfolio reserved = do
    positions ← gets (λ s. filter_where (λ p. p.portfolio_id == portfolio.id) s.positions)
    valuation ← from_result (get_valuation c none portfolio positions)
    throw_if (ltb_ℤ (valuation.free_margin *ℤ pos 100_000_000) reserved) insufficient_free_margin
    write_portfolio (record portfolio {
      locked_margin =
          c.write (portfolio.locked_margin *ℤ pos 100_000_000 +ℤ reserved) (pos 100_000_000);
    })
    pure tt

  unfoldable pub reserve_margin : PlaceOrderDto → Portfolio → Tx (Unit {0})
  unfolding exposure_increasing reservation_price_of lock_margin
  reserve_margin dto portfolio = do
    held ← find_position dto.portfolio_id dto.symbol
    let increasing = exposure_increasing dto.side (quantity_or_zero held) dto.requested_quantity
    let reserved = increasing *ℤ reservation_price_of dto *ℤ pos 50
    if ltb_ℤ (pos 0) increasing then lock_margin portfolio reserved else pure tt

  unfoldable pub reserve_cash : PlaceOrderDto → Portfolio → Tx (Unit {0})
  unfolding reservation_price_of
  reserve_cash dto portfolio = elim dto.side [
    | sell ↦ pure tt
    | buy ↦ do
      let required = dto.requested_quantity *ℤ reservation_price_of dto
      throw_if (ltb_ℤ ((portfolio.total_cash -ℤ portfolio.locked_cash) *ℤ pos 1_000_000) required)
          insufficient_funds
      write_portfolio (record portfolio {
        locked_cash = c.write (portfolio.locked_cash *ℤ pos 1_000_000 +ℤ required) (pos 1_000_000);
      })
      pure tt
  ]

  -- The data of `tx.order.create`; it names no reserved margin.
  unfoldable pub order_data : PlaceOrderDto → Order
  unfolding reservation_price_of
  order_data dto = record {
    id = 0;
    user_id = dto.user_id;
    portfolio_id = dto.portfolio_id;
    symbol = dto.symbol;
    side = dto.side;
    order_type = dto.order_type;
    requested_quantity = dto.requested_quantity;
    filled_quantity = pos 0;
    limit_price = dto.limit_price;
    stop_price = dto.stop_price;
    status = accepted;
    idempotency_key = dto.idempotency_key;
    reservation_price = elim dto.side [
      | buy ↦ some (c.write (reservation_price_of dto) (pos 100))
      | sell ↦ none
    ];
    reserved_margin = none;
    is_liquidation = false;
    is_activated = false;
  }

  -- The transaction.
  unfoldable pub place_body : PlaceOrderDto → Tx Order
  unfolding reserve_margin reserve_cash order_data
  place_body dto = do
    portfolio ← find_portfolio dto.portfolio_id
    throw_if (not (portfolio.user_id == dto.user_id)) unauthorized
    if portfolio.is_margin_enabled then reserve_margin dto portfolio else reserve_cash dto portfolio
    lock_for_sale dto
    order ← create_order (order_data dto)
    emit (record {
      event_type = "ORDER_ACCEPTED";
      aggregate_type = "Order";
      aggregate_id = order.id;
      payload = order_accepted order.id order.user_id order.portfolio_id;
    })
    pure order

  -- The whole call at the time `now`. Between the first look for the order and the transaction
  -- other calls run: `interim` is what they do to the store.
  unfoldable pub place_order : ℕ → (Store → Store) → PlaceOrderDto → Store → Result Order × Store
  place_order now interim dto s = elim ((check_request dto >> assert_open now) s) [
    | err e ↦ (err e, s)
    | ok _ ↦ elim (find (has_user_key dto.user_id dto.idempotency_key) s.orders) [
      | some existing ↦ (ok existing, s)
      | none ↦ elim (place_body dto (interim s)) [
        | ok (order, s') ↦ (ok order, s')
        | err e ↦ (recover dto e (interim s), interim s)
      ]
    ]
  ]
