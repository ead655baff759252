-- ===== src/Liquidity.antt =====
-- apps/api/src/engine/liquidity.config.ts: the liquidity of a symbol, and the price at which an
-- order executes. Prices and quantities count units of 10^-4.
pub mod Prices
pub mod Tests
use trade_alpha.Base.{ℕ, ◌+◌, ◌*◌, ◌/◌, Bool, true, false, String, str_eq, if◌then◌else◌}
use trade_alpha.Int.{ℤ, pos, pos_part, neg_part, sub_ℕ, ◌+ℤ◌, ◌-ℤ◌, ◌*ℤ◌}
use trade_alpha.Store.Rows.{OrderSide, buy, sell}

pub record LiquidityProfile : Type 0 where
  pub symbol : String
  pub base_spread : ℕ
  pub available_depth : ℕ
  pub slippage_factor : ℕ

abbrev pub reliance : LiquidityProfile
reliance = record {
  symbol = "RELIANCE";
  base_spread = 1_000;
  available_depth = 5_000_000;
  slippage_factor = 500;
}

abbrev pub tcs : LiquidityProfile
tcs = record {
  symbol = "TCS";
  base_spread = 2_000;
  available_depth = 2_000_000;
  slippage_factor = 1_000;
}

abbrev pub default_profile : LiquidityProfile
default_profile = record {
  symbol = "DEFAULT";
  base_spread = 500;
  available_depth = 10_000_000;
  slippage_factor = 200;
}

-- `LIQUIDITY_PROFILES[symbol] || LIQUIDITY_PROFILES['DEFAULT']`
unfoldable pub get_liquidity_profile : String → LiquidityProfile
get_liquidity_profile symbol =
    if str_eq symbol "RELIANCE"
    then reliance
    else if str_eq symbol "TCS"
    then tcs
    else default_profile

-- `dividedToIntegerBy`, which rounds towards zero.
abbrev pub integer_quotient : ℤ → ℕ → ℤ
integer_quotient a b = sub_ℕ (pos_part a / b) (neg_part a / b)

-- Half of the spread, which is a whole number of units in each of the profiles.
unfoldable pub calculate_executable_price : OrderSide → ℤ → LiquidityProfile → ℤ → ℤ
calculate_executable_price side ref_price profile filled =
    let half_spread = pos (profile.base_spread / 2) in
    let slippage = pos profile.slippage_factor *ℤ integer_quotient filled profile.available_depth in
    elim side [
      | buy ↦ ref_price +ℤ half_spread +ℤ slippage
      | sell ↦ ref_price -ℤ half_spread -ℤ slippage
    ]
