-- ===== src/Column/HalfAway.antt =====
-- A concrete column: PostgreSQL's `numeric` rounds to the nearest value, halves away from zero.
use native.Mathlib.Nat.{le-mul_of_pos_right, le-div_iff_mul-le, div-lt_iff_lt-mul}
use trade_alpha.Base.{ℕ, suc, ◌+◌, ◌*◌, ◌/◌, ◌≤◌, ◌<◌, arith}
use trade_alpha.Int.{ℤ, pos, negsuc, pos_part, sub_ℕ, ◌*ℤ◌, ◌≤ℤ◌, ◌<ℤ◌}
use trade_alpha.Int.Ring.{mul_laws}
use trade_alpha.Column.{Column}

-- The quotient of two numbers, halves upwards.
unfoldable pub half_up : ℕ → ℕ → ℕ
half_up a b = (2 * a + b) / (2 * b)

unfoldable pub half_away : ℤ → ℤ → ℤ
unfolding half_up
half_away (pos a) b = pos (half_up a (pos_part b))
half_away (negsuc a) b = sub_ℕ 0 (half_up (suc a) (pos_part b))

half_up_above : (lo a b : ℕ) → 0 < b → lo * b ≤ a → lo ≤ half_up a b
unfolding half_up
half_up_above lo a b p h = (le-div_iff_mul-le (omega arith)).1 (omega (arith, h))

half_up_below : (hi a b : ℕ) → 0 < b → a ≤ hi * b → half_up a b ≤ hi
unfolding half_up
half_up_below hi a b p h = omega (
  arith,
  (div-lt_iff_lt-mul {k = 2 * b} {x = 2 * a + b} {y = suc hi} (omega arith)).1 (omega (arith, h)),
)

pub half_away_above : (lo a b : ℤ) → pos 0 <ℤ b → lo *ℤ b ≤ℤ a → lo ≤ℤ half_away a b
unfolding half_away
half_away_above (pos n) (pos a) (pos b) p h =
    omega (arith, half_up_above n a b (omega arith) (omega mul_laws))
half_away_above (pos n) (negsuc a) (pos b) p h =
    let small : n * b + suc a ≤ 0 = omega mul_laws in absurd (omega arith)
half_away_above (negsuc n) (pos a) (pos b) p h = omega arith
half_away_above (negsuc n) (negsuc a) (pos b) p h =
    let low : half_up (suc a) b ≤ suc n =
      half_up_below (suc n) (suc a) b (omega arith) (omega mul_laws) in
    ground arith
half_away_above lo a (negsuc b) p h = absurd (omega arith)

pub half_away_below : (hi a b : ℤ) → pos 0 <ℤ b → a ≤ℤ hi *ℤ b → half_away a b ≤ℤ hi
unfolding half_away
half_away_below (pos n) (pos a) (pos b) p h =
    omega (arith, half_up_below n a b (omega arith) (omega mul_laws))
half_away_below (negsuc n) (pos a) (pos b) p h =
    let none_left : a + suc n * b ≤ 0 = omega mul_laws in
    absurd (omega (arith, le-mul_of_pos_right {m = b} (suc n) (omega arith)))
half_away_below (pos n) (negsuc a) (pos b) p h = ground arith
half_away_below (negsuc n) (negsuc a) (pos b) p h =
    let high : suc n ≤ half_up (suc a) b =
      half_up_above (suc n) (suc a) b (omega arith) (omega mul_laws) in
    ground arith
half_away_below hi a (negsuc b) p h = absurd (omega arith)

-- The column with PostgreSQL's rounding.
abbrev pub nearest : Column
nearest = record { write = half_away; write_above = half_away_above; write_below = half_away_below }
