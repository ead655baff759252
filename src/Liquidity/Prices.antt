-- ===== src/Liquidity/Prices.antt =====
-- Executable prices against the reference price.
use native.Mathlib.Nat.{mul-le-mul_left, zero-div, le-div_iff_mul-le, div-mul-le_self, le_trans}
use trade_alpha.Base.{ℕ, zero, suc, ◌+◌, ◌*◌, ◌/◌, ◌%◌, ◌≤◌, ◌<◌, ◌≡◌, String, arith}
use trade_alpha.Int.{ℤ, pos, ◌+ℤ◌, ◌-ℤ◌, ◌*ℤ◌, ◌≤ℤ◌, ◌<ℤ◌}
use trade_alpha.Int.Ring.{int_laws, mul_laws}
use trade_alpha.Store.Rows.{buy, sell}
use trade_alpha.Liquidity.{
  LiquidityProfile, get_liquidity_profile, calculate_executable_price, integer_quotient,
}

-- What every configured profile satisfies.
pub record IsUsable (p : LiquidityProfile) : Type 0 where
  pub spread_even : p.base_spread % 2 ≡ 0
  pub spread_pos : 0 < p.base_spread
  pub depth_pos : 0 < p.available_depth

pub get_liquidity_profile-IsUsable : (symbol : String) → IsUsable (get_liquidity_profile symbol)
unfolding get_liquidity_profile
get_liquidity_profile-IsUsable symbol = ground arith

div_mono : (f g d : ℕ) → f ≤ g → f / d ≤ g / d
div_mono f g zero h = omega arith
div_mono f g (suc d) h =
    (le-div_iff_mul-le (omega arith)).1 (le_trans (div-mul-le_self f (suc d)) h)

-- The cost of depth, in units of the price.
abbrev pub impact : LiquidityProfile → ℕ → ℕ
impact p filled = p.base_spread / 2 + p.slippage_factor * (filled / p.available_depth)

slippage_lem : (a d f : ℕ) → pos a *ℤ integer_quotient (pos f) d ≡ pos (a * (f / d))
slippage_lem a d f =
    let level : integer_quotient (pos f) d ≡ pos (f / d) = rw (zero-div d) (ground arith) in
    rw level (omega mul_laws)

-- The price at a fill of a non-negative quantity, without the signs of the slippage.
pub ask_lem :
    (p : LiquidityProfile) (ref : ℤ) (filled : ℕ)
    → calculate_executable_price buy ref p (pos filled) ≡ ref +ℤ pos (impact p filled)
unfolding calculate_executable_price
ask_lem p ref filled = rw (slippage_lem p.slippage_factor p.available_depth filled) (omega int_laws)

pub bid_lem :
    (p : LiquidityProfile) (ref : ℤ) (filled : ℕ)
    → calculate_executable_price sell ref p (pos filled) ≡ ref -ℤ pos (impact p filled)
unfolding calculate_executable_price
bid_lem p ref filled = rw (slippage_lem p.slippage_factor p.available_depth filled) (omega int_laws)

impact_mono : (p : LiquidityProfile) (f g : ℕ) → f ≤ g → impact p f ≤ impact p g
impact_mono p f g h =
    omega (arith, mul-le-mul_left p.slippage_factor (div_mono f g p.available_depth h))

-- For every symbol a seller gets less than the reference price and a buyer pays more, whatever
-- quantity has been filled before.
pub bid_lt_ref_lt_ask :
    (symbol : String) (ref : ℤ) (filled : ℕ)
    → let p = get_liquidity_profile symbol in
      (calculate_executable_price sell ref p (pos filled) <ℤ ref)
      × (ref <ℤ calculate_executable_price buy ref p (pos filled))
bid_lt_ref_lt_ask symbol ref filled =
    let p = get_liquidity_profile symbol in
    let u = get_liquidity_profile-IsUsable symbol in
    let lower : calculate_executable_price sell ref p (pos filled) <ℤ ref =
      rw bid_lem (omega (int_laws, u.spread_even, u.spread_pos)) in
    let upper : ref <ℤ calculate_executable_price buy ref p (pos filled) =
      rw ask_lem (omega (int_laws, u.spread_even, u.spread_pos)) in
    (lower, upper)

-- If more of an order has been filled, its next price is no better: a buyer's price does not fall
-- and a seller's does not rise.
pub price_worsens :
    (p : LiquidityProfile) (ref : ℤ) (filled more : ℕ)
    → filled ≤ more
    → (calculate_executable_price buy ref p (pos filled)
        ≤ℤ calculate_executable_price buy ref p (pos more))
      × (calculate_executable_price sell ref p (pos more)
          ≤ℤ calculate_executable_price sell ref p (pos filled))
price_worsens p ref filled more h = (
  rw (ask_lem p ref filled, ask_lem p ref more) (omega (int_laws, impact_mono p filled more h)),
  rw (bid_lem p ref filled, bid_lem p ref more) (omega (int_laws, impact_mono p filled more h)),
)
