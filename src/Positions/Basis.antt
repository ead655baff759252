-- ===== src/Positions/Basis.antt =====
-- What a fill does to the cost of a holding: what was paid, less what was realized.
use trade_alpha.Base.{◌≡◌, inl, inr, Bool-cases, arith}
use trade_alpha.Int.{ℤ, pos, ◌+ℤ◌, ◌-ℤ◌, ◌*ℤ◌, ◌≤ℤ◌, abs, leb_ℤ}
use trade_alpha.Int.Ring.{
  int_laws, +ℤ-*ℤ, -ℤ-*ℤ, *ℤ--ℤ, *ℤ_comm, zero-*ℤ, parts, abs_nonpos, eq_of_parts,
}
use trade_alpha.Column.{Column}
use trade_alpha.Store.Rows.{Position}
use trade_alpha.Positions.{bought, sold, settle}

-- A part of a short position of `q` at `a` is covered at `b`.
cover_identity : (q f a b : ℤ) → q *ℤ a +ℤ f *ℤ b +ℤ (a -ℤ b) *ℤ f ≡ (q +ℤ f) *ℤ a
cover_identity q f a b =
    omega
      (int_laws, parts (-ℤ-*ℤ a b f), parts (+ℤ-*ℤ q f a), parts (*ℤ_comm a f), parts (*ℤ_comm b f))

-- The whole short position is covered, and a long one opened.
cross_identity : (q f a b : ℤ) → q *ℤ a +ℤ f *ℤ b +ℤ (a -ℤ b) *ℤ (pos 0 -ℤ q) ≡ (q +ℤ f) *ℤ b
cross_identity q f a b = omega (
  int_laws,
  parts (*ℤ--ℤ (a -ℤ b) (pos 0) q),
  parts (-ℤ-*ℤ a b q),
  parts (*ℤ_comm (a -ℤ b) (pos 0)),
  parts (zero-*ℤ (a -ℤ b)),
  parts (+ℤ-*ℤ q f b),
  parts (*ℤ_comm a q),
  parts (*ℤ_comm b q),
)

-- Nothing was held.
flat_identity : (q f a b : ℤ) → q ≡ pos 0 → q *ℤ a +ℤ f *ℤ b +ℤ pos 0 ≡ (q +ℤ f) *ℤ b
flat_identity q f a b e =
    rw e (omega (int_laws, parts (+ℤ-*ℤ (pos 0) f b), parts (zero-*ℤ a), parts (zero-*ℤ b)))

-- A part of a long position is sold.
close_identity : (q f a b : ℤ) → q *ℤ a -ℤ f *ℤ b +ℤ (b -ℤ a) *ℤ f ≡ (q -ℤ f) *ℤ a
close_identity q f a b =
    omega
      (int_laws, parts (-ℤ-*ℤ b a f), parts (-ℤ-*ℤ q f a), parts (*ℤ_comm a f), parts (*ℤ_comm b f))

-- The whole long position is sold, and a short one opened.
turn_identity : (q f a b : ℤ) → q *ℤ a -ℤ f *ℤ b +ℤ (b -ℤ a) *ℤ q ≡ (q -ℤ f) *ℤ b
turn_identity q f a b =
    omega
      (int_laws, parts (-ℤ-*ℤ b a q), parts (-ℤ-*ℤ q f b), parts (*ℤ_comm a q), parts (*ℤ_comm b q))

flat_sale : (q f a b : ℤ) → q ≡ pos 0 → q *ℤ a -ℤ f *ℤ b +ℤ pos 0 ≡ (q -ℤ f) *ℤ b
flat_sale q f a b e =
    rw e (omega (int_laws, parts (-ℤ-*ℤ (pos 0) f b), parts (zero-*ℤ a), parts (zero-*ℤ b)))

module _ (c : Column) where
  -- A buy on a position that is not long keeps the cost basis: the cost of the old holding, what
  -- was paid and the realized profit add up to the cost of the new holding, also where the
  -- position turns from short to long.
  pub bought_basis :
      (p : Position) (fill price : ℤ)
      → p.quantity ≤ℤ pos 0
      → let (row, pnl) = bought c p fill price in
        p.quantity *ℤ p.average_entry_price +ℤ fill *ℤ price +ℤ pnl
        ≡ row.quantity *ℤ row.average_entry_price
  unfolding bought settle
  bought_basis p fill price h = elim (Bool-cases (leb_ℤ (pos 0) p.quantity)) [
    | inl flat ↦
        let none_held : p.quantity ≡ pos 0 = eq_of_parts _ _ (ground arith) in
        ground (arith, flat_identity p.quantity fill p.average_entry_price price none_held)
    | inr short ↦ rw short (elim (Bool-cases (leb_ℤ fill (abs p.quantity))) [
      | inl part ↦ rw part (cover_identity p.quantity fill p.average_entry_price price)
      | inr whole ↦ rw whole (
          rw (abs_nonpos p.quantity h) (cross_identity p.quantity fill p.average_entry_price price))
    ])
  ]

  -- A sale on a position that is not short keeps the cost basis: the cost of the old holding, less
  -- what was received, with the realized profit is the cost of the new holding, also where the
  -- position turns from long to short.
  pub sold_basis :
      (p : Position) (sell price : ℤ)
      → pos 0 ≤ℤ p.quantity
      → let (row, pnl) = sold c p sell price in
        p.quantity *ℤ p.average_entry_price -ℤ sell *ℤ price +ℤ pnl
        ≡ row.quantity *ℤ row.average_entry_price
  unfolding sold settle
  sold_basis p sell price h = elim (Bool-cases (leb_ℤ p.quantity (pos 0))) [
    | inl flat ↦
        let none_held : p.quantity ≡ pos 0 = eq_of_parts _ _ (ground arith) in
        ground (arith, flat_sale p.quantity sell p.average_entry_price price none_held)
    | inr long ↦ rw long (elim (Bool-cases (leb_ℤ sell p.quantity)) [
      | inl part ↦ rw part (close_identity p.quantity sell p.average_entry_price price)
      | inr whole ↦ rw whole (turn_identity p.quantity sell p.average_entry_price price)
    ])
  ]
