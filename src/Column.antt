-- ===== src/Column.antt =====
-- The decimals of the program. Prisma.Decimal (decimal.js) adds, subtracts, multiplies and compares
-- exactly here, as it does while a result has at most 20 significant digits; a decimal is an integer
-- that counts units of ten to a negative power, 10^-4 unless a comment names another.
-- Division and the DECIMAL(19,4) columns of schema.prisma round. Both are outside the repository,
-- so what a column holds after a quotient was written to it is a parameter with its documented laws.
pub mod HalfAway
use trade_alpha.Base.{◌+◌, ◌≤◌, ◌<◌, ◌≡◌, arith}
use trade_alpha.Int.{ℤ, pos, pos_part, neg_part, ◌+ℤ◌, ◌-ℤ◌, ◌*ℤ◌, ◌≤ℤ◌, ◌<ℤ◌}
use trade_alpha.Int.Ring.{int_laws, eq_of_parts, parts, one-*ℤ, +ℤ-*ℤ, -ℤ-*ℤ}

-- `write a b` counts the units of a column that was given the quotient of `a` and `b` in such units.
-- Rounding is monotone, and leaves alone what the column can hold.
pub record Column : Type 0 where
  pub write : ℤ → ℤ → ℤ
  pub write_above : (lo a b : ℤ) → pos 0 <ℤ b → lo *ℤ b ≤ℤ a → lo ≤ℤ write a b
  pub write_below : (hi a b : ℤ) → pos 0 <ℤ b → a ≤ℤ hi *ℤ b → write a b ≤ℤ hi

-- A value that the column can hold is written as it is.
pub write_exact : (c : Column) (x b : ℤ) → pos 0 <ℤ b → c.write (x *ℤ b) b ≡ x
write_exact c x b h = eq_of_parts _ _ (
    omega (
      arith,
      c.write_above x (x *ℤ b) b h (omega arith),
      c.write_below x (x *ℤ b) b h (omega arith),
    ))

-- A write misses the quotient by less than a unit.
pub write_near :
    (c : Column) (a b : ℤ)
    → pos 0 <ℤ b
    → (c.write a b *ℤ b <ℤ a +ℤ b) × (a -ℤ b <ℤ c.write a b *ℤ b)
write_near c a b h = (ground (arith, under), ground (arith, over))
  where
    w : ℤ
    w = c.write a b

    under : ¬ (a +ℤ b ≤ℤ w *ℤ b)
    under high = omega (
      int_laws,
      c.write_below (w -ℤ pos 1) a b h
          (omega (int_laws, parts (-ℤ-*ℤ w (pos 1) b), parts (one-*ℤ b))),
    )

    over : ¬ (w *ℤ b ≤ℤ a -ℤ b)
    over low = omega (
      int_laws,
      c.write_above (w +ℤ pos 1) a b h
          (omega (int_laws, parts (+ℤ-*ℤ w (pos 1) b), parts (one-*ℤ b))),
    )
