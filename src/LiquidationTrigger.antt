-- ===== src/LiquidationTrigger.antt =====
-- apps/api/src/services/liquidation-trigger.service.ts: the portfolios that a tick has evaluated.
-- The queue takes what it is given, and the query gives its rows in the order of the positions; the
-- subscription to Redis is left out.
pub mod Once
pub mod Tests
use trade_alpha.Base.{
  ℕ, ◌==◌, Bool, true, false, not, ◌&&◌, ◌||◌, Option, none, some, List, [], ◌∷◌, String, str_eq,
  if◌then◌else◌,
}
use trade_alpha.Int.{pos, eqb_ℤ}
use trade_alpha.Store.Rows.{Store, Portfolio, Position}
use trade_alpha.Store.Tables.{find}
use trade_alpha.Positions.{has_portfolio_id}

-- `tick.symbol || tick.payload?.symbol` of a message: a tick, or an envelope with one inside.
pub record TickMessage : Type 0 where
  pub symbol : Option String
  pub payload_symbol : Option String

-- A job `evaluate-risk` with its identifier `eval_${portfolioId}_${second}`.
pub record RiskJob : Type 0 where
  pub portfolio_id : ℕ
  pub second : ℕ

abbrev pub symbol_of : TickMessage → Option String
symbol_of m = elim m.symbol [ some symbol ↦ some symbol | none ↦ m.payload_symbol ]

abbrev pub has_margin : ℕ → List Portfolio → Bool
has_margin id portfolios = elim (find (has_portfolio_id id) portfolios) [
  | none ↦ false
  | some p ↦ p.is_margin_enabled
]

-- The conditions of the query on a position and its portfolio.
unfoldable pub is_exposed : String → List Portfolio → Position → Bool
is_exposed symbol portfolios p =
    str_eq p.symbol symbol && not (eqb_ℤ p.quantity (pos 0)) && has_margin p.portfolio_id portfolios

abbrev pub is_member : ℕ → List ℕ → Bool
is_member id [] = false
is_member id (x ∷ xs) = x == id || is_member id xs

-- `SELECT DISTINCT p.portfolio_id`
unfoldable pub exposed_portfolios : String → List Portfolio → List Position → List ℕ
unfolding is_exposed
exposed_portfolios symbol portfolios [] = []
exposed_portfolios symbol portfolios (p ∷ ps) =
    let rest = exposed_portfolios symbol portfolios ps in
    if is_exposed symbol portfolios p && not (is_member p.portfolio_id rest)
    then p.portfolio_id ∷ rest
    else rest

-- The loop over the rows; the clock is read for each.
unfoldable pub enqueue_each : (ℕ → ℕ) → List ℕ → List RiskJob
enqueue_each second [] = []
enqueue_each second (id ∷ ids) =
    record { portfolio_id = id; second = second id } ∷ enqueue_each second ids

-- A message that arrives on `market:tick:…`; one that is no tick ends in the log.
unfoldable pub handle_message : (ℕ → ℕ) → Option TickMessage → Store → List RiskJob
handle_message second none s = []
handle_message second (some m) s = elim (symbol_of m) [
  | none ↦ []
  | some symbol ↦ enqueue_each second (exposed_portfolios symbol s.portfolios s.positions)
]
