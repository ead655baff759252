-- ===== src/Liquidation/Tests.antt =====
-- A liquidation on one margin portfolio, with the rounding of PostgreSQL.
use trade_alpha.Base.{◌≡◌, refl, true, false, some, [], ◌∷◌, arith}
use trade_alpha.Int.{pos, negsuc, ◌+ℤ◌, ◌-ℤ◌, ◌*ℤ◌, abs}
use trade_alpha.Column.HalfAway.{nearest, half_away, half_up}
use trade_alpha.Store.Rows.{Store, Portfolio, Position, opened}
use trade_alpha.Store.Tables.{find, filter_where}
use trade_alpha.Store.Tx.{ok}
use trade_alpha.Session.{is_open}
use trade_alpha.Liquidity.{get_liquidity_profile, calculate_executable_price}
use trade_alpha.Valuation.{
  get_valuation, total_positions, add_position, bid_of, ask_of, summarize, margin_level_of,
  margin_status_of,
}
use trade_alpha.Orders.Steps.{start}
use trade_alpha.Orders.Steps.Invariant.{IsSound}
use trade_alpha.Orders.Steps.Frozen.{HasReceived}
use trade_alpha.Liquidation.{
  Surroundings, Candidate, candidate_of, insert_candidate, sort_candidates, liquidation_order,
  place_liquidation, liquidate_top, act_on_level, evaluate_body, evaluate_portfolio,
}
use trade_alpha.Liquidation.Effects.{PlacedEffect}
use trade_alpha.Liquidation.Stuck.{liquidation_stays}
use trade_alpha.Liquidation.System.{begin, go_on, evaluated, SystemRun-IsSound}

-- Every share costs 250.
abbrev surroundings : Surroundings
surroundings = record {
  prices = λ _. record { price = some (pos 2_500_000); is_stale = false };
  symbol_le = λ _ _. true;
  key_of = λ _ symbol _. symbol;
}

-- 2,400 owed.
abbrev portfolio : Portfolio
portfolio = record {
  id = 1;
  user_id = 7;
  total_cash = negsuc 23_999_999;
  locked_cash = pos 0;
  is_margin_enabled = true;
  locked_margin = pos 0;
}

-- Ten shares.
abbrev position : Position
position = record {
  id = 2;
  portfolio_id = 1;
  symbol = "TCS";
  quantity = pos 100_000;
  locked_quantity = pos 0;
  average_entry_price = pos 2_500_000;
  realized_pnl = pos 0;
  status = opened;
}

abbrev pub before : Store
before = record {
  portfolios = portfolio ∷ [];
  positions = position ∷ [];
  orders = [];
  fills = [];
  ledger = [];
  outbox = [];
  next_id = 10;
}

-- 10:00 on the first day.
after_evaluation : Store
after_evaluation = (evaluate_portfolio nearest surroundings 36_000 1 before).1

evaluation_runs : evaluate_body nearest surroundings 1 before ≡ ok (tt, after_evaluation)
unfolding after_evaluation evaluate_portfolio evaluate_body find filter_where get_valuation
    total_positions add_position bid_of ask_of summarize margin_level_of margin_status_of
    act_on_level liquidate_top place_liquidation liquidation_order candidate_of insert_candidate
    sort_candidates get_liquidity_profile calculate_executable_price half_away half_up ◌+ℤ◌ ◌-ℤ◌
    ◌*ℤ◌ abs is_open
evaluation_runs = refl

before-IsSound : IsSound before
before-IsSound = record { consistent = tt; recorded = tt; order_ids = tt; fill_orders = tt }

SystemRun-IsSound_example : IsSound after_evaluation
SystemRun-IsSound_example =
    SystemRun-IsSound nearest surroundings before after_evaluation before-IsSound
      (go_on begin (evaluated 1 evaluation_runs))

top : Candidate
top = candidate_of (surroundings.prices) position

only_top : sort_candidates surroundings.symbol_le (top ∷ []) ≡ top ∷ []
unfolding sort_candidates insert_candidate
only_top = refl

liquidation_placed : PlacedEffect nearest surroundings portfolio before after_evaluation
unfolding top after_evaluation evaluate_portfolio evaluate_body find filter_where get_valuation
    total_positions add_position bid_of ask_of summarize margin_level_of margin_status_of
    act_on_level liquidate_top place_liquidation liquidation_order candidate_of insert_candidate
    sort_candidates get_liquidity_profile calculate_executable_price half_away half_up ◌+ℤ◌ ◌-ℤ◌
    ◌*ℤ◌ abs is_open
liquidation_placed = record {
  top = top;
  rest = [];
  key = "TCS";
  chosen = refl;
  quantity_pos = omega arith;
  no_active = refl;
  orders = refl;
  fills = refl;
  next_id = refl;
}

liquidation_stays_example :
    HasReceived (record (liquidation_order portfolio top "TCS") { id = 10 }) after_evaluation
    × (act_on_level nearest surroundings portfolio (pos 0) after_evaluation
        ≡ ok (tt, after_evaluation))
unfolding liquidation_placed
liquidation_stays_example =
    liquidation_stays nearest surroundings portfolio before after_evaluation after_evaluation
      (pos 0) before-IsSound liquidation_placed start (omega arith)
