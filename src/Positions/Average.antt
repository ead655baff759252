-- ===== src/Positions/Average.antt =====
-- The entry price after a fill that adds to a holding.
use trade_alpha.Base.{◌≡◌, arith}
use trade_alpha.Int.{ℤ, pos, ◌+ℤ◌, ◌-ℤ◌, ◌*ℤ◌, ◌≤ℤ◌, ◌<ℤ◌, abs}
use trade_alpha.Int.Ring.{int_laws, *ℤ-+ℤ, *ℤ_comm, *ℤ-mono, parts, abs_nonpos}
use trade_alpha.Column.{Column, write_near}
use trade_alpha.Store.Rows.{Position}
use trade_alpha.Positions.{bought, sold, settle}

module _ (c : Column) where
  -- The weighted mean of two prices, as a column holds it, lies between any bounds of the two.
  mean_between :
      (held added a b lo hi : ℤ)
      → pos 0 ≤ℤ held
      → pos 0 <ℤ added
      → lo ≤ℤ a
      → lo ≤ℤ b
      → a ≤ℤ hi
      → b ≤ℤ hi
      → let mean = c.write (held *ℤ a +ℤ added *ℤ b) (held +ℤ added) in (lo ≤ℤ mean) × (mean ≤ℤ hi)
  mean_between held added a b lo hi h k la lb ah bh = (
    c.write_above lo _ _ (omega int_laws) (
        omega (
          int_laws,
          parts (*ℤ-+ℤ lo held added),
          parts (*ℤ_comm held a),
          parts (*ℤ_comm added b),
          *ℤ-mono lo a held la h,
          *ℤ-mono lo b added lb (omega arith),
        )),
    c.write_below hi _ _ (omega int_laws) (
        omega (
          int_laws,
          parts (*ℤ-+ℤ hi held added),
          parts (*ℤ_comm held a),
          parts (*ℤ_comm added b),
          *ℤ-mono a hi held ah h,
          *ℤ-mono b hi added bh (omega arith),
        )),
  )

  -- A buy of a positive quantity on a long position realizes nothing; the new entry price lies
  -- between any bounds of the old one and the price paid, and the cost of the new holding misses
  -- the sum of the two costs by less than a unit for each unit held.
  pub bought_average :
      (p : Position) (fill price lo hi : ℤ)
      → pos 0 <ℤ p.quantity
      → pos 0 <ℤ fill
      → lo ≤ℤ p.average_entry_price
      → lo ≤ℤ price
      → p.average_entry_price ≤ℤ hi
      → price ≤ℤ hi
      → let (row, pnl) = bought c p fill price in
        let cost = p.quantity *ℤ p.average_entry_price +ℤ fill *ℤ price in
        (pnl ≡ pos 0)
        × (lo ≤ℤ row.average_entry_price)
        × (row.average_entry_price ≤ℤ hi)
        × (row.average_entry_price *ℤ row.quantity <ℤ cost +ℤ row.quantity)
        × (cost -ℤ row.quantity <ℤ row.average_entry_price *ℤ row.quantity)
  unfolding bought settle
  bought_average p fill price lo hi long more la lb ah bh = ground (
    arith,
    mean_between p.quantity fill p.average_entry_price price lo hi (omega arith) more la lb ah bh,
    write_near c (p.quantity *ℤ p.average_entry_price +ℤ fill *ℤ price) (p.quantity +ℤ fill)
        (omega int_laws),
  )

  -- A sale of a positive quantity on a short position realizes nothing and enlarges the position
  -- by that quantity; the new entry price lies between any bounds of the old one and the price
  -- received, and the cost of the new holding misses the sum of the two costs by less than a unit
  -- for each unit held.
  pub sold_average :
      (p : Position) (sell price lo hi : ℤ)
      → p.quantity <ℤ pos 0
      → pos 0 <ℤ sell
      → lo ≤ℤ p.average_entry_price
      → lo ≤ℤ price
      → p.average_entry_price ≤ℤ hi
      → price ≤ℤ hi
      → let (row, pnl) = sold c p sell price in
        let cost = abs p.quantity *ℤ p.average_entry_price +ℤ sell *ℤ price in
        let held = abs p.quantity +ℤ sell in
        (pnl ≡ pos 0)
        × (pos 0 -ℤ row.quantity ≡ held)
        × (lo ≤ℤ row.average_entry_price)
        × (row.average_entry_price ≤ℤ hi)
        × (row.average_entry_price *ℤ held <ℤ cost +ℤ held)
        × (cost -ℤ held <ℤ row.average_entry_price *ℤ held)
  unfolding sold settle
  sold_average p sell price lo hi short more la lb ah bh =
      let size : pos 0 ≤ℤ abs p.quantity = unfold abs in omega arith in
      let held : pos 0 -ℤ (p.quantity -ℤ sell) ≡ abs p.quantity +ℤ sell =
        rw (abs_nonpos p.quantity (omega arith)) (omega int_laws) in
      ground (
        arith,
        held,
        mean_between (abs p.quantity) sell p.average_entry_price price lo hi size more la lb ah bh,
        write_near c (abs p.quantity *ℤ p.average_entry_price +ℤ sell *ℤ price)
            (abs p.quantity +ℤ sell) (omega int_laws),
      )
