-- ===== src/Positions/Frame.antt =====
-- What the position service leaves alone.
use trade_alpha.Base.{ℕ, ◌≤◌, ◌≡◌, String, arith}
use trade_alpha.Int.{ℤ}
use trade_alpha.Column.{Column}
use trade_alpha.Store.Rows.{Store, Position}
use trade_alpha.Store.Tx.{ok}
use trade_alpha.Positions.{adjust_on_buy, adjust_on_sell, lock_position}

-- Only positions, events and the next identifier may differ.
pub record PositionFrame (s s' : Store) : Type 0 where
  pub portfolios : s'.portfolios ≡ s.portfolios
  pub orders : s'.orders ≡ s.orders
  pub fills : s'.fills ≡ s.fills
  pub ledger : s'.ledger ≡ s.ledger
  pub next_id : s.next_id ≤ s'.next_id

module _ (c : Column) (portfolio_id : ℕ) (symbol : String) (quantity price : ℤ) (s s' : Store) where
  pub adjust_on_buy-PositionFrame :
      (r : Position × ℤ)
      → adjust_on_buy c portfolio_id symbol quantity price s ≡ ok (r, s')
      → PositionFrame s s'
  unfolding adjust_on_buy
  adjust_on_buy-PositionFrame r h = ground arith

  pub adjust_on_sell-PositionFrame :
      (r : Position × ℤ)
      → adjust_on_sell c portfolio_id symbol quantity price s ≡ ok (r, s')
      → PositionFrame s s'
  unfolding adjust_on_sell
  adjust_on_sell-PositionFrame r h = ground arith

pub lock_position-PositionFrame :
    (portfolio_id : ℕ) (symbol : String) (quantity : ℤ) (s s' : Store) (r : Position)
    → lock_position portfolio_id symbol quantity s ≡ ok (r, s')
    → PositionFrame s s'
unfolding lock_position
lock_position-PositionFrame portfolio_id symbol quantity s s' r h = ground arith
