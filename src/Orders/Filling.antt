-- ===== src/Orders/Filling.antt =====
-- `processFill`: the execution of a part of an order. Costs and profits count units of 10^-8.
pub mod Entries
pub mod Effects
use trade_alpha.Base.{
  ℕ, ◌+◌, ◌==◌, Bool, true, false, ◌||◌, not, Option, none, some, List, [], ◌∷◌, String,
  if◌then◌else◌,
}
use trade_alpha.Int.{ℤ, pos, ◌+ℤ◌, ◌-ℤ◌, ◌*ℤ◌, ltb_ℤ, leb_ℤ, eqb_ℤ}
use trade_alpha.Column.{Column}
use trade_alpha.Store.Rows.{
  Store, Portfolio, Position, Order, OrderSide, OrderStatus, OrderFill, buy, sell, pending,
  partially_filled, filled, status_eq, user_cash, Account, user_sec, platform_cash, platform_sec,
  order_filled,
}
use trade_alpha.Store.Tables.{find, update_where}
use trade_alpha.Store.Tx.{
  Tx, Result, Error, Index, ok, err, pure, throw, throw_if, modify, or_throw, ◌>>=◌, ◌>>◌,
  not_found, fill_quantity_not_positive, exceeds_requested_quantity, invalid_state_transition,
  unique_violation, fills_execution_idempotency,
}
use trade_alpha.Ledger.{NewLedgerEntry, record_transaction}
use trade_alpha.Positions.{find_portfolio, adjust_on_buy, adjust_on_sell, emit}
use trade_alpha.Orders.Status.{is_valid_transition}
use trade_alpha.Orders.Rows.{has_order_id, find_order, write_order, write_portfolio, create_fill}

pub record FillOrderDto : Type 0 where
  pub order_id : ℕ
  pub price : ℤ
  pub quantity : ℤ
  pub fill_idempotency_key : String

abbrev pub or_zero : Option ℤ → ℤ
or_zero none = pos 0
or_zero (some x) = x

abbrev fiat : Account → ℤ → ℤ → NewLedgerEntry
fiat account debit credit = record {
  account_id = account;
  asset_type = "FIAT";
  asset_symbol = "USD";
  debit = debit;
  credit = credit;
}

abbrev security : String → Account → ℤ → ℤ → NewLedgerEntry
security symbol account debit credit = record {
  account_id = account;
  asset_type = "SECURITY";
  asset_symbol = symbol;
  debit = debit;
  credit = credit;
}

-- The four entries of a fill, all in units of 10^-8.
unfoldable pub fill_entries : Order → ℤ → ℤ → List NewLedgerEntry
fill_entries order cost quantity =
    let shares = quantity *ℤ pos 10_000 in
    elim order.side [
      | buy ↦
          fiat (user_cash order.user_id) cost (pos 0)
          ∷ fiat platform_cash (pos 0) cost
          ∷ security order.symbol (platform_sec order.symbol) shares (pos 0)
          ∷ security order.symbol (user_sec order.user_id order.symbol) (pos 0) shares
          ∷ []
      | sell ↦
          fiat (user_cash order.user_id) (pos 0) cost
          ∷ fiat platform_cash cost (pos 0)
          ∷ security order.symbol (platform_sec order.symbol) (pos 0) shares
          ∷ security order.symbol (user_sec order.user_id order.symbol) shares (pos 0)
          ∷ []
    ]

-- `tx.orderFill.update({ where: { id }, data: { realizedPnl } })`
abbrev pub write_pnl : ℕ → ℤ → Tx (Unit {0})
write_pnl id pnl = modify λ s. record s {
  fills = update_where (λ f. f.id == id) (λ f. record f { realized_pnl = pnl }) s.fills;
}

abbrev pub filled_status : ℤ → ℤ → OrderStatus
filled_status new_filled requested = if eqb_ℤ new_filled requested then filled else partially_filled

abbrev pub filled_event : OrderStatus → String
filled_event status = if status_eq status filled then "ORDER_FILLED" else "ORDER_PARTIALLY_FILLED"

-- The answer when the transaction has failed: a fill that was recorded before is no error.
abbrev pub recover_fill : FillOrderDto → Error → Tx Order
recover_fill dto (unique_violation fills_execution_idempotency) = find_order dto.order_id
recover_fill dto e = throw e

module _ (c : Column) where
  -- The cash and the locks of the portfolio after a purchase.
  unfoldable pub paid : Portfolio → Order → ℤ → ℤ → Portfolio
  paid portfolio order quantity cost =
      let charged = record portfolio {
        total_cash = c.write (portfolio.total_cash *ℤ pos 10_000 -ℤ cost) (pos 10_000);
      } in
      if not portfolio.is_margin_enabled
      then record charged {
        locked_cash =
            c.write
              (portfolio.locked_cash *ℤ pos 10_000 -ℤ quantity *ℤ or_zero order.reservation_price)
              (pos 10_000);
      }
      else elim order.reserved_margin [
        | none ↦ charged
        | some margin ↦ record charged {
          locked_margin =
              c.write (portfolio.locked_margin *ℤ order.requested_quantity -ℤ margin *ℤ quantity)
                order.requested_quantity;
        }
      ]

  unfoldable pub received_cash : Portfolio → ℤ → Portfolio
  received_cash portfolio cost = record portfolio {
    total_cash = c.write (portfolio.total_cash *ℤ pos 10_000 +ℤ cost) (pos 10_000);
  }

  -- The two sides of a fill, with the profit that it realizes.
  unfoldable pub settle_fill : Order → Portfolio → ℤ → ℤ → Tx ℤ
  unfolding paid received_cash
  settle_fill order portfolio quantity price = elim order.side [
    | buy ↦ do
      write_portfolio (paid portfolio order quantity (quantity *ℤ price))
      (position, pnl) ← adjust_on_buy c order.portfolio_id order.symbol quantity price
      pure pnl
    | sell ↦ do
      (position, pnl) ← adjust_on_sell c order.portfolio_id order.symbol quantity price
      write_portfolio (received_cash portfolio (quantity *ℤ price))
      pure pnl
  ]

  -- What follows once the order has been found executable.
  unfoldable pub execute_fill : FillOrderDto → Order → Tx Order
  unfolding settle_fill fill_entries
  execute_fill dto order = do
    let new_filled = order.filled_quantity +ℤ dto.quantity
    throw_if (ltb_ℤ order.requested_quantity new_filled) exceeds_requested_quantity
    let new_state = filled_status new_filled order.requested_quantity
    throw_if (not (is_valid_transition order.status new_state))
        (invalid_state_transition order.status new_state)
    updated ← write_order (record order { filled_quantity = new_filled; status = new_state })
    fill ← create_fill order.id dto.price dto.quantity dto.fill_idempotency_key
    portfolio ← find_portfolio order.portfolio_id
    pnl ← settle_fill order portfolio dto.quantity dto.price
    write_pnl fill.id (c.write pnl (pos 10_000))
    record_transaction c "ORDER_FILL" fill.id
        (fill_entries order (dto.quantity *ℤ dto.price) dto.quantity)
    emit (record {
      event_type = filled_event new_state;
      aggregate_type = "Order";
      aggregate_id = order.id;
      payload = order_filled order.id order.symbol dto.fill_idempotency_key order.portfolio_id;
    })
    pure updated

  -- The transaction. An order that cannot be filled any more is returned as it is.
  unfoldable pub fill_body : FillOrderDto → Tx Order
  unfolding execute_fill
  fill_body dto = do
    order ← find_order dto.order_id
    if not (status_eq order.status pending || status_eq order.status partially_filled)
          || leb_ℤ (order.requested_quantity -ℤ order.filled_quantity) (pos 0)
        then pure order
        else execute_fill dto order

  unfoldable pub process_fill : FillOrderDto → Store → Result Order × Store
  process_fill dto s =
      if leb_ℤ dto.quantity (pos 0)
      then (err fill_quantity_not_positive, s)
      else elim (fill_body dto s) [
        | ok (order, s') ↦ (ok order, s')
        | err e ↦ elim (recover_fill dto e s) [
          | ok (order, _) ↦ (ok order, s)
          | err e' ↦ (err e', s)
        ]
      ]
