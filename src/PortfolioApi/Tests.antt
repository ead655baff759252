-- ===== src/PortfolioApi/Tests.antt =====
-- A user who asks for the portfolio of another one.
use trade_alpha.Base.{ℕ, ◌≡◌, refl, false, none, some, [], ◌∷◌, arith}
use trade_alpha.Int.{pos}
use trade_alpha.Store.Rows.{Store, Portfolio}
use trade_alpha.Store.Tables.{find, filter_where}
use trade_alpha.Positions.{has_portfolio_id}
use trade_alpha.EodSweep.{PortfolioSnapshot}
use trade_alpha.PortfolioApi.History.{get_history}
use trade_alpha.PortfolioApi.Frozen.{history_frozen}

abbrev portfolio : Portfolio
portfolio = record {
  id = 1;
  user_id = 7;
  total_cash = pos 1_000_000_000;
  locked_cash = pos 0;
  is_margin_enabled = false;
  locked_margin = pos 0;
}

abbrev store : Store
store = record {
  portfolios = portfolio ∷ [];
  positions = [];
  orders = [];
  fills = [];
  ledger = [];
  outbox = [];
  next_id = 10;
}

found : find (has_portfolio_id 1) store.portfolios ≡ some portfolio
unfolding find
found = refl

abbrev snapshot_at : ℕ → PortfolioSnapshot
snapshot_at date = record {
  portfolio_id = 1;
  snapshot_date = date;
  total_cash = pos 0;
  market_value = pos 0;
  total_nav = pos 0;
  unrealized_pnl = pos 0;
  realized_pnl = pos 0;
  is_stale = false;
}

history_frozen_example :
    get_history 900_000
      (some 7)
      1
      (some 2)
      none
      (snapshot_at 5 ∷ snapshot_at 4 ∷ snapshot_at 3 ∷ [])
      store
    ≡ get_history 800_000 (some 7) 1 (some 2) none (snapshot_at 4 ∷ snapshot_at 3 ∷ []) store
unfolding filter_where
history_frozen_example =
    history_frozen 800_000 900_000 1 (some 7) (some 2) (snapshot_at 5)
      (snapshot_at 4 ∷ snapshot_at 3 ∷ []) store refl (omega arith) (omega arith)
