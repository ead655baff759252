-- ===== src/Orders/Closing.antt =====
-- `cancelOrder` and `expireOrder`: the same steps up to the status and the event.
pub mod Effects
pub mod Release
use trade_alpha.Base.{ℕ, Bool, true, false, not, ◌&&◌, Option, none, some, String, if◌then◌else◌}
use trade_alpha.Int.{ℤ, pos, ◌-ℤ◌, ◌*ℤ◌, ltb_ℤ}
use trade_alpha.Column.{Column}
use trade_alpha.Store.Rows.{
  Store, Portfolio, Order, OrderStatus, buy, sell, side_eq, cancelled, expired, order_moved,
}
use trade_alpha.Store.Tx.{
  Tx, Result, pure, throw_if, or_throw, transaction, ok, err, ◌>>=◌, ◌>>◌, not_found,
  invalid_state_transition,
}
use trade_alpha.Positions.{find_portfolio, find_position, write_position, emit}
use trade_alpha.Orders.Status.{is_valid_transition}
use trade_alpha.Orders.Rows.{find_order, write_order, write_portfolio}
use trade_alpha.Orders.Filling.{or_zero}

-- The locked quantity of a sale is given back.
unfoldable pub unlock_position : Order → ℤ → Tx (Unit {0})
unlock_position order remaining = do
  found ← find_position order.portfolio_id order.symbol
  position ← or_throw found not_found
  write_position (record position { locked_quantity = position.locked_quantity -ℤ remaining })
  pure tt

module _ (c : Column) where
  abbrev release_cash : Portfolio → Order → ℤ → Portfolio
  release_cash portfolio order remaining =
      if portfolio.is_margin_enabled then portfolio else record portfolio {
        locked_cash =
            c.write
              (portfolio.locked_cash *ℤ pos 10_000 -ℤ remaining *ℤ or_zero order.reservation_price)
              (pos 10_000);
      }

  abbrev release_margin : Portfolio → Order → ℤ → Portfolio
  release_margin portfolio order remaining = elim order.reserved_margin [
    | none ↦ portfolio
    | some margin ↦
        if portfolio.is_margin_enabled
        then record portfolio {
          locked_margin =
              c.write (portfolio.locked_margin *ℤ order.requested_quantity -ℤ margin *ℤ remaining)
                order.requested_quantity;
        }
        else portfolio
  ]

  -- What the portfolio gets back of an order of which `remaining` is not filled.
  unfoldable pub released : Portfolio → Order → ℤ → Portfolio
  released portfolio order remaining = elim order.side [
    | buy ↦ release_margin (release_cash portfolio order remaining) order remaining
    | sell ↦ release_margin portfolio order remaining
  ]

  -- `Object.keys(updateData).length > 0`: there is something to give back.
  abbrev pub is_released : Portfolio → Order → Bool
  is_released portfolio order =
      if portfolio.is_margin_enabled
      then elim order.reserved_margin [ none ↦ false | some _ ↦ true ]
      else side_eq order.side buy

  unfoldable pub release_locks : Order → ℤ → Tx (Unit {0})
  unfolding unlock_position released
  release_locks order remaining = do
    portfolio ← find_portfolio order.portfolio_id
    elim order.side [ buy ↦ pure tt | sell ↦ unlock_position order remaining ]
    if is_released portfolio order
        then write_portfolio (released portfolio order remaining) >> pure tt
        else pure tt

  unfoldable pub close_body : OrderStatus → String → ℕ → Tx Order
  unfolding release_locks
  close_body target event_type order_id = do
    order ← find_order order_id
    throw_if (not (is_valid_transition order.status target))
        (invalid_state_transition order.status target)
    let remaining = order.requested_quantity -ℤ order.filled_quantity
    if ltb_ℤ (pos 0) remaining then release_locks order remaining else pure tt
    updated ← write_order (record order { status = target })
    emit (record {
      event_type = event_type;
      aggregate_type = "Order";
      aggregate_id = order.id;
      payload = order_moved order.id order.portfolio_id;
    })
    pure updated

  unfoldable pub cancel_order : ℕ → Store → Result Order × Store
  cancel_order order_id = transaction (close_body cancelled "ORDER_CANCELLED" order_id)

  unfoldable pub expire_order : ℕ → Store → Result Order × Store
  expire_order order_id = transaction (close_body expired "ORDER_EXPIRED" order_id)
