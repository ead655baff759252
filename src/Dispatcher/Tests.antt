-- ===== src/Dispatcher/Tests.antt =====
-- The events of one order on their way.
use trade_alpha.Base.{ℕ, ◌≡◌, refl, true, false, none, some, List, [], ◌∷◌, inl}
use trade_alpha.Int.{pos, ◌-ℤ◌, ◌*ℤ◌}
use trade_alpha.Column.HalfAway.{nearest, half_away, half_up}
use trade_alpha.Store.Rows.{
  Store, Order, OrderStatus, OutboxEvent, buy, limit, accepted, pending, cancelled,
}
use trade_alpha.Store.Tables.{find, update_where}
use trade_alpha.Store.Tx.{ok}
use trade_alpha.Session.{is_open, get_status, session_at, time_text}
use trade_alpha.Orders.Status.{is_valid_transition, valid_transitions, includes}
use trade_alpha.Orders.Closing.{released, release_locks, close_body, cancel_order}
use trade_alpha.Orders.Pending.{pending_body, mark_order_pending}
use trade_alpha.Dispatcher.{WebhookSubscription}
use trade_alpha.Dispatcher.Closed.{IsSilent, job_of, closing_not_routed}

abbrev order : OrderStatus → Order
order status = record {
  id = 3;
  user_id = 7;
  portfolio_id = 1;
  symbol = "TCS";
  side = buy;
  order_type = limit;
  requested_quantity = pos 100_000;
  filled_quantity = pos 0;
  limit_price = some (pos 2_500_000);
  stop_price = none;
  status = status;
  idempotency_key = "k";
  reservation_price = some (pos 2_500_000);
  reserved_margin = none;
  is_liquidation = false;
  is_activated = false;
}

abbrev store : Store
store = record {
  portfolios =
      record {
        id = 1;
        user_id = 7;
        total_cash = pos 1_000_000_000;
        locked_cash = pos 25_000_000;
        is_margin_enabled = false;
        locked_margin = pos 0;
      }
      ∷ [];
  positions = [];
  orders = order accepted ∷ [];
  fills = [];
  ledger = [];
  outbox = [];
  next_id = 10;
}

abbrev hooks : List WebhookSubscription
hooks =
    record {
      id = 5;
      user_id = 7;
      url = "https://example.org";
      secret = "s";
      events = "*" ∷ [];
      active = true;
    }
    ∷ []

-- 10:00 on the first day.
abbrev morning : ℕ
morning = 36_000

abbrev marked : Store
marked = (mark_order_pending nearest morning morning 3 store).1

was_marked : mark_order_pending nearest morning morning 3 store ≡ (ok (order pending), marked)
unfolding mark_order_pending pending_body find update_where is_valid_transition valid_transitions
    includes is_open get_status session_at time_text
was_marked = refl

morning_open : is_open morning ≡ true
unfolding is_open get_status session_at time_text
morning_open = refl

abbrev closed : Store
closed = (cancel_order nearest 3 store).1

was_cancelled :
    close_body nearest cancelled "ORDER_CANCELLED" 3 store ≡ ok (order cancelled, closed)
unfolding cancel_order close_body release_locks find update_where is_valid_transition
    valid_transitions includes released half_away half_up ◌-ℤ◌ ◌*ℤ◌
was_cancelled = refl

closing_not_routed_example :
    (event : OutboxEvent) × (rest : List OutboxEvent) × (closed.outbox ≡ event ∷ rest)
    × IsSilent nearest morning morning morning 8 hooks closed (job_of 8 event)
closing_not_routed_example =
    closing_not_routed nearest morning morning morning 8 hooks closed cancelled "ORDER_CANCELLED" 3
      (order cancelled) store closed (inl refl) was_cancelled
