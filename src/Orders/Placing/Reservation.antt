-- ===== src/Orders/Placing/Reservation.antt =====
-- The cash that a purchase reserves.
use trade_alpha.Base.{◌≡◌, refl, some, arith}
use trade_alpha.Int.{pos, ◌+ℤ◌, ◌-ℤ◌, ◌*ℤ◌, ◌≤ℤ◌}
use trade_alpha.Int.Ring.{mul_laws}
use trade_alpha.Column.{Column}
use trade_alpha.Store.Rows.{Store, Portfolio, buy}
use trade_alpha.Store.Tables.{find, update_where, find_written}
use trade_alpha.Store.Tx.{ok}
use trade_alpha.Positions.{has_portfolio_id}
use trade_alpha.Orders.Placing.{PlaceOrderDto, reserve_cash, reservation_price_of}

-- The portfolio that a reservation leaves.
unfoldable pub reserved_row : Column → PlaceOrderDto → Portfolio → Portfolio
reserved_row c dto portfolio = record portfolio {
  locked_cash =
      c.write
        (portfolio.locked_cash *ℤ pos 1_000_000
          +ℤ dto.requested_quantity *ℤ reservation_price_of dto)
        (pos 1_000_000);
}

module _ (c : Column) (dto : PlaceOrderDto) (portfolio : Portfolio) (s s' : Store) where
  pub reserve_cash_effect :
      (u : Unit {0})
      → dto.side ≡ buy
      → reserve_cash c dto portfolio s ≡ ok (u, s')
      → (dto.requested_quantity *ℤ reservation_price_of dto
          ≤ℤ (portfolio.total_cash -ℤ portfolio.locked_cash) *ℤ pos 1_000_000)
        × (s'.portfolios
            ≡ update_where
                (has_portfolio_id portfolio.id)
                (λ _. reserved_row c dto portfolio)
                s.portfolios)
  unfolding reserve_cash reserved_row
  reserve_cash_effect u side run = ground arith

  -- If the reservation of a purchase without margin succeeds, the stored portfolio has locked at
  -- most its total cash, and its total cash is what it was.
  pub reserve_cash_covered :
      (u : Unit {0})
      → dto.side ≡ buy
      → find (has_portfolio_id portfolio.id) s.portfolios ≡ some portfolio
      → reserve_cash c dto portfolio s ≡ ok (u, s')
      → (p : Portfolio) × (find (has_portfolio_id portfolio.id) s'.portfolios ≡ some p)
        × (p.locked_cash ≤ℤ p.total_cash)
        × (p.total_cash ≡ portfolio.total_cash)
  unfolding reserved_row
  reserve_cash_covered u side found run =
      let (free, rows) = reserve_cash_effect u side run in
      (
        reserved_row c dto portfolio,
        rw rows (
            find_written (has_portfolio_id portfolio.id) (reserved_row c dto portfolio) s.portfolios
              {x = portfolio} (ground arith) found),
        c.write_below portfolio.total_cash _ (pos 1_000_000) (omega arith) (omega mul_laws),
        refl,
      )
