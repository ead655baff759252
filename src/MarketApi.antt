-- ===== src/MarketApi.antt =====
-- apps/api/src/controllers/market.controller.ts: the session, the candles and the liquidity of a
-- symbol. A query parameter that is no text or empty is none; `parseInt` is applied before, and
-- `some none` is what it cannot read. `newest_first` is what the database has for a symbol.
pub mod Limits
pub mod Tests
use trade_alpha.Base.{
  ℕ, zero, suc, Bool, true, false, Option, none, some, List, [], ◌∷◌, String, str_eq, if◌then◌else◌,
}
use trade_alpha.Int.{ℤ, pos, negsuc}
use trade_alpha.Session.{MarketSessionState, get_status}
use trade_alpha.Candles.{
  Timeframe, Candle, one_minute, five_minutes, fifteen_minutes, one_hour, one_day, get_candles,
}
use trade_alpha.Liquidity.{LiquidityProfile, get_liquidity_profile}
use trade_alpha.PortfolioApi.{Response, denied, answered}

abbrev pub market_status : ℕ → Response MarketSessionState
market_status now = answered (get_status now)

unfoldable pub timeframe_of : String → Option Timeframe
timeframe_of text =
    if str_eq text "1m"
    then some one_minute
    else if str_eq text "5m"
    then some five_minutes
    else if str_eq text "15m"
    then some fifteen_minutes
    else if str_eq text "1h"
    then some one_hour
    else if str_eq text "1d"
    then some one_day
    else none

-- The limit of a request, if it is a positive integer; 100 if there is none.
abbrev pub parsed_limit : Option (Option ℤ) → Option ℕ
parsed_limit none = some 100
parsed_limit (some none) = none
parsed_limit (some (some (pos zero))) = none
parsed_limit (some (some (pos (suc n)))) = some (suc n)
parsed_limit (some (some (negsuc n))) = none

abbrev pub timeframe_given : Option String → Option Timeframe
timeframe_given none = none
timeframe_given (some text) = timeframe_of text

unfoldable pub market_candles :
    (String → List Candle)
    → Option String
    → Option String
    → Option (Option ℤ)
    → Response (List Candle)
market_candles newest_first none timeframe limit = denied 400
market_candles newest_first (some symbol) timeframe limit = elim (timeframe_given timeframe) [
  | none ↦ denied 400
  | some frame ↦ elim (parsed_limit limit) [
    | none ↦ denied 400
    | some n ↦ answered (get_candles frame n (newest_first symbol))
  ]
]

unfoldable pub execution_profile : Option String → Response LiquidityProfile
execution_profile none = denied 400
execution_profile (some symbol) = answered (get_liquidity_profile symbol)
