-- ===== src/Chart.antt =====
-- apps/web/src/components/terminal/chart.tsx: the candles of the chart in the terminal. Times count
-- seconds. Whether `parseFloat` of one volume is greater than that of another is a parameter, and
-- what the chart library draws is left out.
pub mod Merging
pub mod Stale
pub mod Tests
use trade_alpha.Base.{
  ℕ, ◌==◌, Bool, true, false, not, ◌&&◌, ◌||◌, Option, none, some, List, [], ◌∷◌, String, str_eq,
  if◌then◌else◌,
}
use trade_alpha.Int.{ℤ}
use trade_alpha.Candles.{
  Timeframe, one_minute, five_minutes, fifteen_minutes, one_hour, one_day, Candle,
}

-- The `Map` of candles, by their time.
abbrev pub DataMap : Type 0
DataMap = List (ℕ × Candle)

abbrev pub get : ℕ → DataMap → Option Candle
get t [] = none
get t ((u, c) ∷ m) = if u == t then some c else get t m

unfoldable pub set : ℕ → Candle → DataMap → DataMap
set t c [] = (t, c) ∷ []
set t c ((u, d) ∷ m) = let rest = set t c m in if u == t then (t, c) ∷ m else (u, d) ∷ rest

abbrev pub is_empty {ℓ} : {A : Type ℓ} → List A → Bool
is_empty [] = true
is_empty (x ∷ xs) = false

unfoldable pub same_timeframe : Timeframe → Timeframe → Bool
same_timeframe one_minute one_minute = true
same_timeframe five_minutes five_minutes = true
same_timeframe fifteen_minutes fifteen_minutes = true
same_timeframe one_hour one_hour = true
same_timeframe one_day one_day = true
same_timeframe _ _ = false

pub record Chart : Type 0 where
  pub symbol : String
  pub timeframe : Timeframe
  pub data_map : DataMap
  pub has_data : Bool
  pub loading : Bool
  pub failed : Bool

-- A response is none if the request failed. A request is answered at some later time.
pub data ChartEvent : Type 0 where
  selects : String → Timeframe → ChartEvent
  reconnects : ChartEvent
  responds : Option (List Candle) → ChartEvent
  streams : Timeframe → Candle → ChartEvent

-- `setData` gets the candles of the map; `hasData` is what is kept of it.
abbrev pub flush_to_chart : Chart → Chart
flush_to_chart k = record k { has_data = not (is_empty k.data_map) }

-- A request is sent.
abbrev pub fetch_historical : Chart → Chart
fetch_historical k = record k { loading = true; failed = false }

module _ (heavier : ℤ → ℤ → Bool) where
  -- The candle that is stored is preferred.
  abbrev pub is_kept : Candle → Candle → Bool
  is_kept existing c =
      (existing.is_closed && not c.is_closed)
      || (heavier existing.volume c.volume && not c.is_closed)

  -- Whether the candle is stored, and the map.
  unfoldable pub merge_candle : DataMap → Candle → Bool × DataMap
  merge_candle m c = elim (get c.timestamp m) [
    | none ↦ (true, set c.timestamp c m)
    | some existing ↦ if is_kept existing c then (false, m) else (true, set c.timestamp c m)
  ]

  -- The loop over a response: whether a candle was stored, and the map.
  unfoldable pub merge_candles : DataMap → List Candle → Bool × DataMap
  merge_candles m [] = (false, m)
  merge_candles m (c ∷ cs) =
      let first = merge_candle m c in
      let rest = merge_candles first.1 cs in (first.0 || rest.0, rest.1)

  -- A response that has come, whatever the chart shows by then.
  unfoldable pub receive : Option (List Candle) → Chart → Chart
  receive none k = record k { loading = false; failed = true }
  receive (some candles) k =
      let merged = merge_candles k.data_map candles in
      let k' = record k { data_map = merged.1; loading = false } in
      if merged.0 || is_empty candles then flush_to_chart k' else k'

  unfoldable pub handle_market_candle : Timeframe → Candle → Chart → Chart
  handle_market_candle timeframe c k =
      if not (str_eq c.symbol k.symbol)
      then k
      else if not (same_timeframe timeframe k.timeframe)
      then k
      else record k { data_map = (merge_candle k.data_map c).1 }

  unfoldable pub handle_chart_event : ChartEvent → Chart → Chart
  handle_chart_event (selects symbol timeframe) k =
      fetch_historical
        (flush_to_chart (record k { symbol = symbol; timeframe = timeframe; data_map = [] }))
  handle_chart_event reconnects k =
      if not k.loading && not (str_eq k.symbol "") then fetch_historical k else k
  handle_chart_event (responds response) k = receive response k
  handle_chart_event (streams timeframe c) k = handle_market_candle timeframe c k

  unfoldable pub handle_chart_events : List ChartEvent → Chart → Chart
  handle_chart_events [] k = k
  handle_chart_events (e ∷ es) k = handle_chart_events es (handle_chart_event e k)
