-- ===== src/EodSweep/Tests.antt =====
-- The end of a session with one portfolio and two orders, with the rounding of PostgreSQL.
use trade_alpha.Base.{ℕ, ◌≡◌, refl, false, none, some, List, [], ◌∷◌, arith, length, inl, inr}
use trade_alpha.Int.{pos, ◌+ℤ◌, ◌-ℤ◌, ◌*ℤ◌}
use trade_alpha.Column.HalfAway.{nearest, half_away, half_up}
use trade_alpha.Store.Rows.{Store, Portfolio, Order, OrderStatus, buy, limit, pending, expired}
use trade_alpha.Store.Tables.{find, filter_where, update_where}
use trade_alpha.Valuation.{PriceCache}
use trade_alpha.EodSweep.{
  Progress, Floor, execute_sweep, expire_all, snapshot_each, snapshot_pages, no_progress, tick,
}
use trade_alpha.Orders.Status.{is_valid_transition, valid_transitions, includes}
use trade_alpha.Orders.Closing.{cancel_order, expire_order, close_body, release_locks, released}
use trade_alpha.Orders.Steps.Calls.{cancel_order-Step}
use trade_alpha.Orders.Steps.Service.{of_Step}
use trade_alpha.Orders.Steps.Invariant.{IsConsistent, IsSound, filled_total}
use trade_alpha.EodSweep.Expiry.{row_of}
use trade_alpha.EodSweep.Coverage.{IsInterleaving, IsReached, execute_sweep_covers}
use trade_alpha.EodSweep.Paging.{add_queries, page_queries, snapshot_pages_ends}
use trade_alpha.EodSweep.Once.{tick_once}

abbrev prices : PriceCache
prices _ = record { price = some (pos 2_500_000); is_stale = false }

abbrev portfolio : Portfolio
portfolio = record {
  id = 1;
  user_id = 7;
  total_cash = pos 1_000_000_000;
  locked_cash = pos 25_000_000;
  is_margin_enabled = false;
  locked_margin = pos 0;
}

abbrev order : ℕ → OrderStatus → Order
order id status = record {
  id = id;
  user_id = 7;
  portfolio_id = 1;
  symbol = "TCS";
  side = buy;
  order_type = limit;
  requested_quantity = pos 100_000;
  filled_quantity = pos 0;
  limit_price = some (pos 2_500_000);
  stop_price = none;
  status = status;
  idempotency_key = "k";
  reservation_price = some (pos 2_500_000);
  reserved_margin = none;
  is_liquidation = false;
  is_activated = false;
}

abbrev store : Store
store = record {
  portfolios = portfolio ∷ [];
  positions = [];
  orders = order 3 pending ∷ order 4 pending ∷ [];
  fills = [];
  ledger = [];
  outbox = [];
  next_id = 10;
}

found : row_of 3 store ≡ some (order 3 pending)
unfolding find
found = refl

pending_fits : (id : ℕ) → IsConsistent (order id pending)
pending_fits id = record {
  requested_pos = omega arith;
  filled_nonneg = omega arith;
  status_fits = refl;
}

store-IsSound : IsSound store
unfolding filled_total
store-IsSound = record {
  consistent = (pending_fits 3, (pending_fits 4, tt));
  recorded = (refl, (refl, tt));
  order_ids = (omega arith, (omega arith, tt));
  fill_orders = tt;
}

-- Before every expiry a user cancels the second order.
abbrev cancelling : ℕ → Store → Store
cancelling k t = (cancel_order nearest 4 t).1

cancelling-Run : IsInterleaving nearest cancelling
cancelling-Run k t = of_Step nearest t (cancelling k t) (cancel_order-Step nearest t 4)

-- The first order expires, and the second one stays cancelled.
first_expires : row_of 3 (execute_sweep nearest cancelling store) ≡ some (order 3 expired)
unfolding execute_sweep expire_all expire_order cancel_order close_body release_locks released find
    filter_where update_where is_valid_transition valid_transitions includes half_away half_up ◌+ℤ◌
    ◌-ℤ◌ ◌*ℤ◌
first_expires = refl

execute_sweep_covers_example : IsReached nearest cancelling (order 3 pending) store
execute_sweep_covers_example =
    execute_sweep_covers nearest cancelling (order 3 pending) store store-IsSound cancelling-Run
      found (inr (inl refl))

abbrev ids : List ℕ
ids = 1 ∷ []

abbrev fresh : Progress
fresh = no_progress nearest prices store []

snapshot_pages_ends_example :
    snapshot_pages nearest prices store 5 2 ids 0 fresh
    ≡ some
        (add_queries (page_queries (length ids)) (snapshot_each nearest prices store 5 ids fresh))
snapshot_pages_ends_example = snapshot_pages_ends nearest prices store 5 2 ids fresh (omega arith)

abbrev floor : Floor
floor = record { store = store; snapshots = []; leases = []; emitted = [] }

abbrev no_calls : ℕ → Store → Store
no_calls k t = t

-- 15:30 on the first day.
tick_once_example :
    (f' : Floor) × (tick nearest prices no_calls 55_800 floor ≡ some f')
    × (tick nearest prices no_calls 55_800 f' ≡ some f')
tick_once_example = tick_once nearest prices no_calls 55_800 floor
