-- ===== src/Orders/Tests.antt =====
-- Runs of the order service on one portfolio, with the rounding of PostgreSQL.
use trade_alpha.Base.{ℕ, ◌≡◌, refl, true, false, none, some, List, [], ◌∷◌, arith}
use trade_alpha.Int.{ℤ, pos, ◌+ℤ◌, ◌-ℤ◌, ◌*ℤ◌, ◌≤ℤ◌, abs}
use trade_alpha.Column.HalfAway.{nearest, half_away, half_up}
use trade_alpha.Store.Rows.{Store, Portfolio, Order, buy, limit, pending, partially_filled}
use trade_alpha.Store.Tables.{find, update_where}
use trade_alpha.Store.Tx.{ok}
use trade_alpha.Session.{assert_open, is_open, get_status, session_at, time_text}
use trade_alpha.Ledger.{asset_key, tally, check_balances, validate_entries, record_transaction}
use trade_alpha.Positions.{adjust_on_buy, has_portfolio_id}
use trade_alpha.Orders.Status.{valid_transitions, includes, is_valid_transition}
use trade_alpha.Orders.Placing.{
  PlaceOrderDto, check_request, reservation_price_of, reserve_cash, order_data, place_body,
  place_order,
}
use trade_alpha.Orders.Placing.Reservation.{reserved_row, reserve_cash_covered}
use trade_alpha.Orders.Placing.Idempotency.{place_order_twice}
use trade_alpha.Orders.Filling.{
  FillOrderDto, paid, settle_fill, execute_fill, fill_entries, fill_body, process_fill,
}
use trade_alpha.Orders.Filling.Entries.{fill_entries_valid}
use trade_alpha.Orders.Filling.Effects.{settled, FillEffect, execute_fill-FillEffect}
use trade_alpha.Orders.Closing.{released}
use trade_alpha.Orders.Closing.Release.{placed_keeps_margin}
use trade_alpha.Orders.Steps.Invariant.{IsSound, filled_total}
use trade_alpha.Orders.Steps.Service.{
  Call, mark_pending, fill, cancel, expire, run_calls, run_calls-IsSound,
}
use trade_alpha.Orders.Steps.Calls.{process_fill_twice}

-- 100,000.0000 in cash.
abbrev pub portfolio : Portfolio
portfolio = record {
  id = 1;
  user_id = 7;
  total_cash = pos 1_000_000_000;
  locked_cash = pos 0;
  is_margin_enabled = false;
  locked_margin = pos 0;
}

-- A purchase of 10 shares at 250.
abbrev pub request : PlaceOrderDto
request = record {
  user_id = 7;
  portfolio_id = 1;
  symbol = "TCS";
  side = buy;
  order_type = limit;
  requested_quantity = pos 100_000;
  limit_price = some (pos 2_500_000);
  stop_price = none;
  current_market_price = pos 2_510_000;
  idempotency_key = "k1";
}

abbrev pub empty_store : Store
empty_store = record {
  portfolios = portfolio ∷ [];
  positions = [];
  orders = [];
  fills = [];
  ledger = [];
  outbox = [];
  next_id = 10;
}

-- 10:00 on the first day.
abbrev pub morning : ℕ
morning = 36_000

abbrev pub no_interim : Store → Store
no_interim s = s

abbrev pub order_at : ℤ → Order
order_at filled = record (order_data nearest request) {
  id = 3;
  filled_quantity = filled;
  status = pending;
}

abbrev pub open_store : Store
open_store = record empty_store { orders = order_at (pos 0) ∷ [] }

-- 4 shares at 249.50.
abbrev execution : FillOrderDto
execution = record {
  order_id = 3;
  price = pos 2_495_000;
  quantity = pos 40_000;
  fill_idempotency_key = "exec_3_4";
}

abbrev filled_store : Store
filled_store = (process_fill nearest execution open_store).1

abbrev part_filled : Order
part_filled = record (order_at (pos 40_000)) { status = partially_filled }

executed_here :
    execute_fill nearest execution (order_at (pos 0)) open_store ≡ ok (part_filled, filled_store)
unfolding process_fill fill_body execute_fill find update_where is_valid_transition
    valid_transitions includes settle_fill paid adjust_on_buy fill_entries record_transaction
    validate_entries tally check_balances asset_key half_away half_up ◌+ℤ◌ ◌-ℤ◌ ◌*ℤ◌ abs order_data
    reservation_price_of
executed_here = refl

process_fill_twice_example : (process_fill nearest execution filled_store).1 ≡ filled_store
process_fill_twice_example = process_fill_twice nearest execution open_store

execute_fill-FillEffect_example :
    FillEffect nearest execution (order_at (pos 0)) part_filled open_store filled_store
execute_fill-FillEffect_example =
    execute_fill-FillEffect nearest execution (order_at (pos 0)) part_filled open_store filled_store
      executed_here

fill_entries_valid_example :
    validate_entries (fill_entries part_filled (pos 99_800_000_000) (pos 40_000)) ≡ ok tt
fill_entries_valid_example =
    fill_entries_valid part_filled (pos 99_800_000_000) (pos 40_000) (omega arith) (omega arith)

placed_row : Order
placed_row = record (order_data nearest request) { id = 10 }

was_answered : (place_order nearest morning no_interim request empty_store).0 ≡ ok placed_row
unfolding placed_row place_order place_body find update_where reserve_cash reservation_price_of
    check_request assert_open is_open get_status session_at time_text half_away half_up ◌+ℤ◌ ◌-ℤ◌
    ◌*ℤ◌ order_data
was_answered = refl

place_order_twice_example :
    place_order nearest morning no_interim request
      (place_order nearest morning no_interim request empty_store).1
    ≡ (ok placed_row, (place_order nearest morning no_interim request empty_store).1)
place_order_twice_example =
    place_order_twice nearest request morning no_interim no_interim empty_store placed_row
      was_answered

reserved_store : Store
reserved_store = record empty_store { portfolios = reserved_row nearest request portfolio ∷ [] }

cash_reserved : reserve_cash nearest request portfolio empty_store ≡ ok (tt, reserved_store)
unfolding reserved_store reserved_row reserve_cash reservation_price_of update_where half_away
    half_up ◌+ℤ◌ ◌-ℤ◌ ◌*ℤ◌
cash_reserved = refl

portfolio_found : find (has_portfolio_id 1) empty_store.portfolios ≡ some portfolio
unfolding find
portfolio_found = refl

reserve_cash_covered_example :
    (p : Portfolio) × (find (has_portfolio_id 1) reserved_store.portfolios ≡ some p)
    × (p.locked_cash ≤ℤ p.total_cash)
    × (p.total_cash ≡ pos 1_000_000_000)
reserve_cash_covered_example =
    reserve_cash_covered nearest request portfolio empty_store reserved_store tt refl
      portfolio_found cash_reserved

margin_portfolio : Portfolio
margin_portfolio = record portfolio { is_margin_enabled = true; locked_margin = pos 12_500_000 }

placed_keeps_margin_example :
    ((released nearest margin_portfolio
        (record (order_data nearest request) { id = 3 })
        (pos 40_000)).locked_margin
      ≡ margin_portfolio.locked_margin)
    × ((settled nearest
          (record (order_data nearest request) { id = 3 })
          margin_portfolio
          (pos 40_000)
          (pos 2_495_000)).locked_margin
        ≡ margin_portfolio.locked_margin)
placed_keeps_margin_example =
    placed_keeps_margin nearest request margin_portfolio 3 (pos 40_000) (pos 2_495_000)

-- The order is marked as pending, filled in part and cancelled.
abbrev session : List Call
session = mark_pending 36_000 36_000 3 ∷ fill execution ∷ cancel 3 ∷ expire 3 ∷ []

open_store-IsSound : IsSound open_store
unfolding filled_total order_data
open_store-IsSound = record {
  consistent =
      (record { requested_pos = omega arith; filled_nonneg = omega arith; status_fits = refl }, tt);
  recorded = (refl, tt);
  order_ids = (omega arith, tt);
  fill_orders = tt;
}

run_calls-IsSound_example : IsSound (run_calls nearest session open_store)
run_calls-IsSound_example =
    run_calls-IsSound nearest session open_store open_store-IsSound (tt, (tt, (tt, (tt, tt))))
