-- ===== src/Orders/Closing/Release.antt =====
-- What a closed order gives back of what was reserved for it.
use trade_alpha.Base.{◌≡◌, arith, inl, inr, ℕ}
use trade_alpha.Int.{ℤ}
use trade_alpha.Column.{Column}
use trade_alpha.Store.Rows.{Portfolio, Order}
use trade_alpha.Orders.Placing.{PlaceOrderDto, order_data}
use trade_alpha.Orders.Filling.{paid, received_cash}
use trade_alpha.Orders.Filling.Effects.{settled, side-cases}
use trade_alpha.Orders.Closing.{released}

module _ (c : Column) (dto : PlaceOrderDto) where
  -- An order as `placeOrder` creates it never gives locked margin back: closing it, with whatever
  -- quantity remaining, and filling it, at whatever quantity and price, leave the locked margin of
  -- the portfolio.
  pub placed_keeps_margin :
      (portfolio : Portfolio) (id : ℕ) (quantity price : ℤ)
      → let order : Order = record (order_data c dto) { id = id } in
        ((released c portfolio order quantity).locked_margin ≡ portfolio.locked_margin)
        × ((settled c order portfolio quantity price).locked_margin ≡ portfolio.locked_margin)
  unfolding order_data released settled paid received_cash
  placed_keeps_margin portfolio id quantity price = elim (side-cases dto.side) [
    | inl e ↦ ground arith
    | inr e ↦ ground arith
  ]
