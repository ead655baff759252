-- ===== src/Execution/Tests.antt =====
-- A job on a concrete order.
use trade_alpha.Base.{◌≡◌, refl, true, false, none, some, [], ◌∷◌}
use trade_alpha.Int.{pos}
use trade_alpha.Store.Rows.{Store, Order, Portfolio, buy, limit, pending}
use trade_alpha.Session.{session_at, time_text}
use trade_alpha.Execution.{ExecuteFillJob, is_in_session}

-- 4 of 10 shares, for a tick at 10:00.
abbrev job : ExecuteFillJob
job = record {
  order_id = 3;
  price = pos 2_495_000;
  quantity = pos 40_000;
  execution_idempotency_key = "exec_3_4";
  origin_timestamp = some 36_000;
}

abbrev order : Order
order = record {
  id = 3;
  user_id = 7;
  portfolio_id = 1;
  symbol = "TCS";
  side = buy;
  order_type = limit;
  requested_quantity = pos 100_000;
  filled_quantity = pos 0;
  limit_price = some (pos 2_500_000);
  stop_price = none;
  status = pending;
  idempotency_key = "k1";
  reservation_price = some (pos 2_500_000);
  reserved_margin = none;
  is_liquidation = false;
  is_activated = false;
}

abbrev portfolio : Portfolio
portfolio = record {
  id = 1;
  user_id = 7;
  total_cash = pos 1_000_000_000;
  locked_cash = pos 25_000_000;
  is_margin_enabled = false;
  locked_margin = pos 0;
}

abbrev store : Store
store = record {
  portfolios = portfolio ∷ [];
  positions = [];
  orders = order ∷ [];
  fills = [];
  ledger = [];
  outbox = [];
  next_id = 10;
}

within : is_in_session 36_001 job ≡ true
unfolding is_in_session session_at time_text
within = refl
