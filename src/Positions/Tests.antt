-- ===== src/Positions/Tests.antt =====
-- Fills on concrete positions.
use trade_alpha.Base.{◌≡◌, refl, arith}
use trade_alpha.Int.{pos, negsuc, ◌+ℤ◌, ◌-ℤ◌, ◌*ℤ◌, abs}
use trade_alpha.Column.HalfAway.{nearest, half_away, half_up}
use trade_alpha.Store.Rows.{Position, opened}
use trade_alpha.Positions.{bought, sold, settle}
use trade_alpha.Positions.Basis.{bought_basis}

-- 2 shares at 100, and 2 shares short at 100.
abbrev long_position : Position
long_position = record {
  id = 1;
  portfolio_id = 1;
  symbol = "TCS";
  quantity = pos 20_000;
  locked_quantity = pos 0;
  average_entry_price = pos 1_000_000;
  realized_pnl = pos 0;
  status = opened;
}

abbrev short_position : Position
short_position = record long_position { quantity = negsuc 19_999 }

-- Buying 1 share at 110 on the long position averages the price.
average_test :
    (bought nearest long_position (pos 10_000) (pos 1_100_000)).0.average_entry_price
    ≡ pos 1_033_333
unfolding bought settle half_away half_up ◌+ℤ◌ ◌-ℤ◌ ◌*ℤ◌ abs
average_test = refl

-- Selling 3 shares at 110 realizes the profit on 2 and opens a short position.
turn_test : (sold nearest long_position (pos 30_000) (pos 1_100_000)).1 ≡ pos 2_000_000_000
unfolding sold settle half_away half_up ◌+ℤ◌ ◌-ℤ◌ ◌*ℤ◌ abs
turn_test = refl

bought_basis_example :
    let (row, pnl) = bought nearest short_position (pos 30_000) (pos 900_000) in
    negsuc 19_999 *ℤ pos 1_000_000 +ℤ pos 30_000 *ℤ pos 900_000 +ℤ pnl
    ≡ row.quantity *ℤ row.average_entry_price
bought_basis_example = bought_basis nearest short_position (pos 30_000) (pos 900_000) (omega arith)
