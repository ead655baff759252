-- ===== src/Orders/Filling/Effects.antt =====
-- What a fill that is executed leaves in the database.
use trade_alpha.Base.{
  ◌+◌, ◌==◌, ◌≤◌, ◌<◌, ◌≡◌, refl, none, some, ◌∷◌, arith, inl, inr, ◌⊎◌, Option-cases,
}
use trade_alpha.Int.{ℤ, pos, ◌+ℤ◌, ◌*ℤ◌, ◌≤ℤ◌}
use trade_alpha.Column.{Column}
use trade_alpha.Store.Rows.{Store, Portfolio, Order, OrderFill, OrderSide, buy, sell}
use trade_alpha.Store.Tables.{find, update_where}
use trade_alpha.Store.Tx.{ok, Result-cases}
use trade_alpha.Ledger.{record_transaction}
use trade_alpha.Ledger.Stored.{transaction_row, record_transaction_effect}
use trade_alpha.Positions.{adjust_on_buy, adjust_on_sell, has_portfolio_id}
use trade_alpha.Positions.Frame.{adjust_on_buy-PositionFrame, adjust_on_sell-PositionFrame}
use trade_alpha.Orders.Rows.{has_order_id, has_execution_key}
use trade_alpha.Orders.Filling.{
  FillOrderDto, paid, received_cash, settle_fill, execute_fill, fill_entries, filled_status,
}

pub side-cases : (side : OrderSide) → (side ≡ buy) ⊎ (side ≡ sell)
side-cases buy = inl refl
side-cases sell = inr refl

module _ (c : Column) where
  -- The portfolio after a fill.
  unfoldable pub settled : Order → Portfolio → ℤ → ℤ → Portfolio
  settled order portfolio quantity price = elim order.side [
    | buy ↦ paid c portfolio order quantity (quantity *ℤ price)
    | sell ↦ received_cash c portfolio (quantity *ℤ price)
  ]

  pub record SettleEffect (order : Order) (portfolio : Portfolio) (quantity price : ℤ)
      (s s' : Store) : Type 0 where
    pub portfolios :
        s'.portfolios
        ≡ update_where
            (has_portfolio_id portfolio.id)
            (λ _. settled order portfolio quantity price)
            s.portfolios
    pub orders : s'.orders ≡ s.orders
    pub fills : s'.fills ≡ s.fills
    pub ledger : s'.ledger ≡ s.ledger
    pub next_id : s.next_id ≤ s'.next_id

  module _ (order : Order) (portfolio : Portfolio) (quantity price pnl : ℤ) (s s' : Store) where
    settle_buy :
        order.side ≡ buy
        → settle_fill c order portfolio quantity price s ≡ ok (pnl, s')
        → SettleEffect order portfolio quantity price s s'
    unfolding settle_fill settled
    settle_buy side h =
        let s₁ : Store = record s {
          portfolios =
              update_where (has_portfolio_id portfolio.id)
                (λ _. paid c portfolio order quantity (quantity *ℤ price)) s.portfolios;
        } in
        elim (Result-cases (adjust_on_buy c order.portfolio_id order.symbol quantity price s₁)) [
          | inl (e, failed) ↦ ground arith
          | inr ((r, s₂), done) ↦
              let f =
                adjust_on_buy-PositionFrame c order.portfolio_id order.symbol quantity price s₁ s₂ r
                  done in
              ground (arith, f.portfolios, f.orders, f.fills, f.ledger, f.next_id)
        ]

    settle_sell :
        order.side ≡ sell
        → settle_fill c order portfolio quantity price s ≡ ok (pnl, s')
        → SettleEffect order portfolio quantity price s s'
    unfolding settle_fill settled
    settle_sell side h =
        elim (Result-cases (adjust_on_sell c order.portfolio_id order.symbol quantity price s)) [
          | inl (e, failed) ↦ ground arith
          | inr ((r, s₂), done) ↦
              let f =
                adjust_on_sell-PositionFrame c order.portfolio_id order.symbol quantity price s s₂ r
                  done in
              ground (arith, f.portfolios, f.orders, f.fills, f.ledger, f.next_id)
        ]

    pub settle_fill-SettleEffect :
        settle_fill c order portfolio quantity price s ≡ ok (pnl, s')
        → SettleEffect order portfolio quantity price s s'
    settle_fill-SettleEffect h = elim (side-cases order.side) [
      | inl e ↦ settle_buy e h
      | inr e ↦ settle_sell e h
    ]

  -- Everything that an executed fill has found and has changed, but for positions and events.
  pub record FillEffect (dto : FillOrderDto) (order o : Order) (s s' : Store) : Type 0 where
    pub portfolio : Portfolio
    pub pnl : ℤ
    pub portfolio_found : find (has_portfolio_id order.portfolio_id) s.portfolios ≡ some portfolio
    pub fits : order.filled_quantity +ℤ dto.quantity ≤ℤ order.requested_quantity
    pub key_new : find (has_execution_key order.id dto.fill_idempotency_key) s.fills ≡ none
    pub result : o ≡ record order {
      filled_quantity = order.filled_quantity +ℤ dto.quantity;
      status = filled_status (order.filled_quantity +ℤ dto.quantity) order.requested_quantity;
    }
    pub orders : s'.orders ≡ update_where (has_order_id order.id) (λ _. o) s.orders
    pub portfolios :
        s'.portfolios
        ≡ update_where
            (has_portfolio_id portfolio.id)
            (λ _. settled order portfolio dto.quantity dto.price)
            s.portfolios
    pub fills :
        s'.fills
        ≡ update_where
            (λ f. f.id == s.next_id)
            (λ f. record f { realized_pnl = pnl })
            (record {
              id = s.next_id;
              order_id = order.id;
              price = dto.price;
              quantity = dto.quantity;
              execution_idempotency_key = dto.fill_idempotency_key;
              realized_pnl = pos 0;
            }
              ∷ s.fills)
    pub ledger :
        s'.ledger
        ≡ transaction_row c "ORDER_FILL" s.next_id
            (fill_entries order (dto.quantity *ℤ dto.price) dto.quantity)
          ∷ s.ledger
    pub next_id : s.next_id < s'.next_id

  -- If an execution succeeds, the portfolio is there, the fill fits the order and its key is new;
  -- the order has the new filled quantity and its status, the portfolio is the settled one, the
  -- fill and its ledger transaction are recorded, and every other order, portfolio, fill and
  -- ledger row is left.
  pub execute_fill-FillEffect :
      (dto : FillOrderDto) (order o : Order) (s s' : Store)
      → execute_fill c dto order s ≡ ok (o, s')
      → FillEffect dto order o s s'
  unfolding execute_fill
  execute_fill-FillEffect dto order o s s' h =
      elim (Option-cases (find (has_execution_key order.id dto.fill_idempotency_key) s.fills)) [
        | inr (f, used) ↦ ground arith
        | inl new ↦ elim (Option-cases (find (has_portfolio_id order.portfolio_id) s.portfolios)) [
          | inl missing ↦ ground arith
          | inr (portfolio, found) ↦
              let new_filled = order.filled_quantity +ℤ dto.quantity in
              let row : Order = record order {
                filled_quantity = new_filled;
                status = filled_status new_filled order.requested_quantity;
              } in
              let fill : OrderFill = record {
                id = s.next_id;
                order_id = order.id;
                price = dto.price;
                quantity = dto.quantity;
                execution_idempotency_key = dto.fill_idempotency_key;
                realized_pnl = pos 0;
              } in
              let s₁ : Store = record s {
                orders = update_where (has_order_id order.id) (λ _. row) s.orders;
                fills = fill ∷ s.fills;
                next_id = s.next_id + 1;
              } in
              elim (Result-cases (settle_fill c order portfolio dto.quantity dto.price s₁)) [
                | inl (e, failed) ↦ ground arith
                | inr ((pnl, s₂), done) ↦
                    let f =
                      settle_fill-SettleEffect order portfolio dto.quantity dto.price pnl s₁ s₂
                        done in
                    let s₃ : Store = record s₂ {
                      fills =
                          update_where (λ f. f.id == s.next_id)
                            (λ f. record f { realized_pnl = c.write pnl (pos 10_000) }) s₂.fills;
                    } in
                    let entries = fill_entries order (dto.quantity *ℤ dto.price) dto.quantity in
                    elim (Result-cases (record_transaction c "ORDER_FILL" s.next_id entries s₃)) [
                      | inl (e, failed) ↦ ground arith
                      | inr ((u, s₄), recorded) ↦
                          let l =
                            record_transaction_effect c "ORDER_FILL" s.next_id entries s₃ s₄ u
                              recorded in
                          record {
                            portfolio = portfolio;
                            pnl = c.write pnl (pos 10_000);
                            portfolio_found = found;
                            fits = ground arith;
                            key_new = new;
                            result = ground arith;
                            orders = ground (arith, f.orders, l.1);
                            portfolios = ground (arith, f.portfolios, l.1);
                            fills = ground (arith, f.fills, l.1);
                            ledger = ground (arith, f.ledger, l.1);
                            next_id = ground (arith, f.next_id, l.1);
                          }
                    ]
              ]
        ]
      ]
