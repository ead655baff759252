-- ===== src/Positions.antt =====
-- apps/api/src/services/position.service.ts: the checks and locks before a sale, and how a fill
-- changes a position. Profits come in units of 10^-8, the product of a price and a quantity.
pub mod Basis
pub mod Average
pub mod Frame
pub mod Tests
use trade_alpha.Base.{
  ℕ, ◌+◌, ◌==◌, Bool, true, false, ◌&&◌, not, Option, none, some, List, ◌∷◌, String, str_eq,
  if◌then◌else◌,
}
use trade_alpha.Int.{ℤ, pos, ◌+ℤ◌, ◌-ℤ◌, ◌*ℤ◌, ltb_ℤ, leb_ℤ, eqb_ℤ, abs}
use trade_alpha.Column.{Column}
use trade_alpha.Store.Rows.{
  Store, Portfolio, Position, PositionStatus, opened, closed, OutboxEvent, Payload,
  position_changed,
}
use trade_alpha.Store.Tables.{find, update_where}
use trade_alpha.Store.Tx.{
  Tx, Error, pure, throw, gets, or_throw, modify, throw_if, ◌>>=◌, ◌>>◌, not_found,
  no_position_found, insufficient_quantity, insufficient_locked_quantity, unique_violation,
  positions_portfolio_symbol, err, ok,
}

abbrev pub has_portfolio_id : ℕ → Portfolio → Bool
has_portfolio_id id p = p.id == id

-- The unique key `portfolioId_symbol`.
abbrev pub has_portfolio_symbol : ℕ → String → Position → Bool
has_portfolio_symbol portfolio_id symbol p =
    p.portfolio_id == portfolio_id && str_eq p.symbol symbol

abbrev pub find_portfolio : ℕ → Tx Portfolio
find_portfolio id s = or_throw (find (has_portfolio_id id) s.portfolios) not_found s

abbrev pub find_position : ℕ → String → Tx (Option Position)
find_position portfolio_id symbol s =
    pure (find (has_portfolio_symbol portfolio_id symbol) s.positions) s

abbrev pub emit : OutboxEvent → Tx (Unit {0})
emit e = modify λ s. record s { outbox = e ∷ s.outbox }

-- `tx.position.create`, which the unique index guards.
abbrev pub create_position : ℕ → String → ℤ → ℤ → ℤ → Tx Position
create_position portfolio_id symbol quantity locked average s =
    let position : Position = record {
      id = s.next_id;
      portfolio_id = portfolio_id;
      symbol = symbol;
      quantity = quantity;
      locked_quantity = locked;
      average_entry_price = average;
      realized_pnl = pos 0;
      status = opened;
    } in
    elim (find (has_portfolio_symbol portfolio_id symbol) s.positions) [
      | some _ ↦ err (unique_violation positions_portfolio_symbol)
      | none ↦
          ok (position, record s { positions = position ∷ s.positions; next_id = s.next_id + 1 })
    ]

-- `tx.position.update({ where: { id } })`, with the row that the update leaves.
abbrev pub write_position : Position → Tx Position
write_position new s =
    ok (new, record s { positions = update_where (λ p. p.id == new.id) (λ _. new) s.positions })

unfoldable pub check_position : ℕ → String → ℤ → Tx (Option Position)
check_position portfolio_id symbol required = do
  portfolio ← find_portfolio portfolio_id
  found ← find_position portfolio_id symbol
  elim found [
    | none ↦ if portfolio.is_margin_enabled then pure none else throw no_position_found
    | some position ↦
        if ltb_ℤ (position.quantity -ℤ position.locked_quantity) required
          && not portfolio.is_margin_enabled
        then throw insufficient_quantity
        else pure (some position)
  ]

unfoldable pub lock_position : ℕ → String → ℤ → Tx Position
unfolding check_position
lock_position portfolio_id symbol quantity = do
  found ← check_position portfolio_id symbol quantity
  elim found [
    | none ↦ create_position portfolio_id symbol (pos 0) quantity (pos 0)
    | some position ↦
        write_position (record position { locked_quantity = position.locked_quantity +ℤ quantity })
  ]

abbrev status_of : ℤ → PositionStatus
status_of quantity = if eqb_ℤ quantity (pos 0) then closed else opened

abbrev position_event : Position → OutboxEvent
position_event p = record {
  event_type = elim p.status [ closed ↦ "POSITION_CLOSED" | opened ↦ "POSITION_UPDATED" ];
  aggregate_type = "POSITION";
  aggregate_id = p.id;
  payload = position_changed p;
}

module _ (c : Column) where
  -- The row with a new quantity and average, the profit added to what was realized before.
  unfoldable pub settle : Position → ℤ → ℤ → ℤ → Position
  settle p quantity average pnl = record p {
    quantity = quantity;
    average_entry_price = average;
    realized_pnl = c.write (p.realized_pnl *ℤ pos 10_000 +ℤ pnl) (pos 10_000);
    status = status_of quantity;
  }

  -- The branches of `adjustOnBuy` on a position that exists: the new row and the realized profit.
  unfoldable pub bought : Position → ℤ → ℤ → Position × ℤ
  unfolding settle
  bought p fill price =
      let current = p.quantity in
      let average = p.average_entry_price in
      let new_quantity = current +ℤ fill in
      if leb_ℤ (pos 0) current
      then if eqb_ℤ current (pos 0) then (settle p new_quantity price (pos 0), pos 0) else (
        settle p new_quantity (c.write (current *ℤ average +ℤ fill *ℤ price) new_quantity) (pos 0),
        pos 0,
      )
      else if leb_ℤ fill (abs current)
      then (settle p new_quantity average ((average -ℤ price) *ℤ fill), (average -ℤ price) *ℤ fill)
      else (
        settle p new_quantity price ((average -ℤ price) *ℤ abs current),
        (average -ℤ price) *ℤ abs current,
      )

  -- The branches of `adjustOnSell`, without the lock.
  unfoldable pub sold : Position → ℤ → ℤ → Position × ℤ
  unfolding settle
  sold p sell price =
      let current = p.quantity in
      let average = p.average_entry_price in
      let new_quantity = current -ℤ sell in
      if leb_ℤ current (pos 0)
      then if eqb_ℤ current (pos 0) then (settle p new_quantity price (pos 0), pos 0) else (
        settle p new_quantity
            (c.write (abs current *ℤ average +ℤ sell *ℤ price) (abs current +ℤ sell)) (pos 0),
        pos 0,
      )
      else if leb_ℤ sell current
      then (settle p new_quantity average ((price -ℤ average) *ℤ sell), (price -ℤ average) *ℤ sell)
      else (
        settle p new_quantity price ((price -ℤ average) *ℤ current),
        (price -ℤ average) *ℤ current,
      )

  unfoldable pub adjust_on_buy : ℕ → String → ℤ → ℤ → Tx (Position × ℤ)
  unfolding bought
  adjust_on_buy portfolio_id symbol fill price = do
    found ← find_position portfolio_id symbol
    (position, pnl) ← elim found [
      | none ↦ do
        position ← create_position portfolio_id symbol fill (pos 0) price
        pure (position, pos 0)
      | some p ↦ do
        position ← write_position (bought p fill price).0
        pure (position, (bought p fill price).1)
    ]
    emit (position_event position)
    pure (position, pnl)

  unfoldable pub adjust_on_sell : ℕ → String → ℤ → ℤ → Tx (Position × ℤ)
  unfolding sold
  adjust_on_sell portfolio_id symbol sell price = do
    found ← find_position portfolio_id symbol
    p ← or_throw found not_found
    throw_if (ltb_ℤ p.locked_quantity sell) insufficient_locked_quantity
    let (row, pnl) = sold p sell price
    position ← write_position (record row { locked_quantity = p.locked_quantity -ℤ sell })
    emit (position_event position)
    pure (position, pnl)
