-- ===== src/Liquidity/Tests.antt =====
-- Executable prices of concrete orders.
use trade_alpha.Base.{◌≡◌, refl}
use trade_alpha.Int.{pos, ◌+ℤ◌, ◌-ℤ◌, ◌*ℤ◌}
use trade_alpha.Store.Rows.{buy}
use trade_alpha.Liquidity.{calculate_executable_price, tcs}

-- After 250 shares of TCS the slippage is one level of 0.1.
ask_test : calculate_executable_price buy (pos 1_000_000) tcs (pos 2_500_000) ≡ pos 1_002_000
unfolding calculate_executable_price ◌+ℤ◌ ◌-ℤ◌ ◌*ℤ◌
ask_test = refl
