-- ===== src/Valuation.antt =====
-- apps/api/src/services/portfolio-valuation.service.ts: the value and the margin of a portfolio.
-- Amounts count units of 10^-8, the product of a price and a quantity, margins units of 10^-10, and
-- the fields of the result units of 10^-4, as `toFixed(4)` rounds them (the laws of a column).
pub mod Equity
pub mod Margin
pub mod Tests
use trade_alpha.Base.{
  ◌+◌, Bool, true, false, ◌||◌, Option, none, some, List, [], ◌∷◌, String, if◌then◌else◌,
}
use trade_alpha.Int.{ℤ, pos, ◌+ℤ◌, ◌-ℤ◌, ◌*ℤ◌, ltb_ℤ, eqb_ℤ, abs}
use trade_alpha.Column.{Column}
use trade_alpha.Store.Rows.{Portfolio, Position, PositionStatus, opened, closed, buy, sell}
use trade_alpha.Store.Tx.{Result, ok, err, valuation_failed}
use trade_alpha.Liquidity.{get_liquidity_profile, calculate_executable_price}

-- What `PriceCacheService.getLatestPrice` answers for a symbol.
pub record LatestPrice : Type 0 where
  pub price : Option ℤ
  pub is_stale : Bool

abbrev pub PriceCache : Type 0
PriceCache = String → LatestPrice

pub data MarginStatus : Type 0 where
  normal margin_call forced_liquidation : MarginStatus

-- The variables of the loop.
pub record Totals : Type 0 where
  pub long_market_value : ℤ
  pub short_liability_value : ℤ
  pub unrealized_pnl : ℤ
  pub realized_pnl : ℤ
  pub initial_margin : ℤ
  pub maintenance_margin : ℤ
  pub is_stale : Bool

abbrev pub no_totals : Totals
no_totals = record {
  long_market_value = pos 0;
  short_liability_value = pos 0;
  unrealized_pnl = pos 0;
  realized_pnl = pos 0;
  initial_margin = pos 0;
  maintenance_margin = pos 0;
  is_stale = false;
}

-- `price ? new Decimal(price) : pos.averageEntryPrice`
abbrev pub reference_price : LatestPrice → Position → ℤ
reference_price latest p = elim latest.price [ some price ↦ price | none ↦ p.average_entry_price ]

abbrev pub is_missing : Option ℤ → Bool
is_missing none = true
is_missing (some _) = false

unfoldable pub bid_of : LatestPrice → Position → ℤ
bid_of latest p =
    calculate_executable_price sell (reference_price latest p) (get_liquidity_profile p.symbol)
      (pos 0)

unfoldable pub ask_of : LatestPrice → Position → ℤ
ask_of latest p =
    calculate_executable_price buy (reference_price latest p) (get_liquidity_profile p.symbol)
      (pos 0)

-- The body of the loop for a position that is not skipped.
unfoldable pub add_position : LatestPrice → Position → Totals → Totals
unfolding bid_of ask_of
add_position latest p t =
    let stale = t.is_stale || latest.is_stale || is_missing latest.price in
    if ltb_ℤ (pos 0) p.quantity
    then (let value = bid_of latest p *ℤ p.quantity in
        record t {
          long_market_value = t.long_market_value +ℤ value;
          unrealized_pnl =
              t.unrealized_pnl +ℤ (bid_of latest p -ℤ p.average_entry_price) *ℤ p.quantity;
          initial_margin = t.initial_margin +ℤ value *ℤ pos 50;
          maintenance_margin = t.maintenance_margin +ℤ value *ℤ pos 25;
          is_stale = stale;
        })
    else if ltb_ℤ p.quantity (pos 0)
    then (let size = abs p.quantity in
        let liability = ask_of latest p *ℤ size in
        record t {
          short_liability_value = t.short_liability_value +ℤ liability;
          unrealized_pnl = t.unrealized_pnl +ℤ (p.average_entry_price -ℤ ask_of latest p) *ℤ size;
          initial_margin = t.initial_margin +ℤ liability *ℤ pos 50;
          maintenance_margin = t.maintenance_margin +ℤ liability *ℤ pos 25;
          is_stale = stale;
        })
    else record t { is_stale = stale }

abbrev pub is_skipped : Position → Bool
is_skipped p = elim p.status [ closed ↦ true | opened ↦ eqb_ℤ p.quantity (pos 0) ]

-- The loop. A service that was built with no price cache throws at the first call of it.
unfoldable pub total_positions : Option PriceCache → List Position → Totals → Result Totals
unfolding add_position
total_positions cache [] t = ok t
total_positions cache (p ∷ ps) t =
    let realized = record t { realized_pnl = t.realized_pnl +ℤ p.realized_pnl } in
    let skipped = total_positions cache ps realized in
    let counted = elim cache as (λ _. Result Totals) [
      | none ↦ err valuation_failed
      | some prices ↦ total_positions cache ps (add_position (prices p.symbol) p realized)
    ] in
    if is_skipped p then skipped else counted

pub record PortfolioValuation : Type 0 where
  pub total_cash : ℤ
  pub locked_cash : ℤ
  pub available_cash : ℤ
  pub market_value : ℤ
  pub unrealized_pnl : ℤ
  pub realized_pnl : ℤ
  pub total_nav : ℤ
  pub is_margin_enabled : Bool
  pub locked_margin : ℤ
  pub long_market_value : ℤ
  pub short_liability_value : ℤ
  pub gross_exposure : ℤ
  pub initial_margin : ℤ
  pub maintenance_margin : ℤ
  pub used_margin : ℤ
  pub free_margin : ℤ
  pub margin_level : Option ℤ
  pub buying_power : ℤ
  pub margin_status : MarginStatus
  pub is_stale : Bool

abbrev pub equity_of : Portfolio → Totals → ℤ
equity_of p t = p.total_cash *ℤ pos 10_000 +ℤ (t.long_market_value -ℤ t.short_liability_value)

-- In units of 10^-10.
abbrev pub free_margin_of : Portfolio → Totals → ℤ
free_margin_of p t =
    equity_of p t *ℤ pos 100 -ℤ t.initial_margin -ℤ p.locked_margin *ℤ pos 1_000_000

-- `ml.lt(100)` and `ml.lt(120)` for `ml = equity / maintenance * 100`.
unfoldable pub margin_status_of : ℤ → ℤ → MarginStatus
margin_status_of equity maintenance =
    if ltb_ℤ (pos 0) maintenance
    then (if ltb_ℤ (equity *ℤ pos 100) maintenance
        then forced_liquidation
        else if ltb_ℤ (equity *ℤ pos 10_000) (maintenance *ℤ pos 120)
        then margin_call
        else normal)
    else normal

module _ (c : Column) where
  unfoldable pub margin_level_of : ℤ → ℤ → Option ℤ
  margin_level_of equity maintenance =
      if ltb_ℤ (pos 0) maintenance
      then some (c.write (equity *ℤ pos 100_000_000) maintenance)
      else none

  unfoldable pub summarize : Portfolio → Totals → PortfolioValuation
  unfolding margin_level_of margin_status_of
  summarize p t =
      let amount = λ (x : ℤ). c.write x (pos 10_000) in
      let margin = λ (x : ℤ). c.write x (pos 1_000_000) in
      let equity = equity_of p t in
      let free = free_margin_of p t in
      record {
        total_cash = p.total_cash;
        locked_cash = p.locked_cash;
        available_cash = p.total_cash -ℤ p.locked_cash;
        market_value = amount (t.long_market_value -ℤ t.short_liability_value);
        unrealized_pnl = amount t.unrealized_pnl;
        realized_pnl = t.realized_pnl;
        total_nav = amount equity;
        is_margin_enabled = p.is_margin_enabled;
        locked_margin = p.locked_margin;
        long_market_value = amount t.long_market_value;
        short_liability_value = amount t.short_liability_value;
        gross_exposure = amount (t.long_market_value +ℤ t.short_liability_value);
        initial_margin = margin t.initial_margin;
        maintenance_margin = margin t.maintenance_margin;
        used_margin = margin t.initial_margin;
        free_margin = margin free;
        margin_level = margin_level_of equity t.maintenance_margin;
        buying_power = if ltb_ℤ (pos 0) free then margin (free *ℤ pos 2) else pos 0;
        margin_status = margin_status_of equity t.maintenance_margin;
        is_stale = t.is_stale;
      }

  unfoldable pub get_valuation :
      Option PriceCache → Portfolio → List Position → Result PortfolioValuation
  unfolding total_positions summarize
  get_valuation cache portfolio positions = elim (total_positions cache positions no_totals) [
    | err e ↦ err e
    | ok t ↦ ok (summarize portfolio t)
  ]
