-- ===== src/Candles.antt =====
-- apps/api/src/services/market-candle.service.ts: candles of a longer time frame out of those of
-- one minute. Times are those of Session; prices and volumes count units of 10^-4.
pub mod Buckets
pub mod Volume
pub mod Range
pub mod Tests
use trade_alpha.Base.{
  ℕ, zero, suc, ◌+◌, ◌-◌, ◌*◌, ◌/◌, ◌==◌, leb, Bool, true, false, List, [], ◌∷◌, ◌++◌, String,
  if◌then◌else◌,
}
use trade_alpha.Int.{ℤ, pos, ◌+ℤ◌, ltb_ℤ}
use trade_alpha.Session.{day_of, second_of_day, day_seconds, opening_of}

pub data Timeframe : Type 0 where
  one_minute five_minutes fifteen_minutes one_hour one_day : Timeframe

-- A row of `market_candles`, and a `CandleResponse` of it.
pub record Candle : Type 0 where
  pub symbol : String
  pub timestamp : ℕ
  pub open_price : ℤ
  pub high : ℤ
  pub low : ℤ
  pub close_price : ℤ
  pub volume : ℤ
  pub is_closed : Bool

-- The candles of one minute that make one of the time frame.
unfoldable pub multiplier_of : Timeframe → ℕ
multiplier_of one_minute = 1
multiplier_of five_minutes = 5
multiplier_of fifteen_minutes = 15
multiplier_of one_hour = 60
multiplier_of one_day = 375

-- The minutes of a bucket within a day.
abbrev pub bucket_size : Timeframe → ℕ
bucket_size five_minutes = 5
bucket_size fifteen_minutes = 15
bucket_size one_hour = 60
bucket_size _ = 1

-- The start of a bucket within a day, by the minutes since 09:15.
abbrev pub intraday_boundary : ℕ → ℕ → ℕ
intraday_boundary size t =
    let since_start = second_of_day t / 60 - 555 in
    day_of t * day_seconds + (555 + since_start / size * size) * 60

unfoldable pub get_bucket_boundary : Timeframe → ℕ → ℕ
get_bucket_boundary one_day t = opening_of (day_of t)
get_bucket_boundary one_minute t = intraday_boundary (bucket_size one_minute) t
get_bucket_boundary five_minutes t = intraday_boundary (bucket_size five_minutes) t
get_bucket_boundary fifteen_minutes t = intraday_boundary (bucket_size fifteen_minutes) t
get_bucket_boundary one_hour t = intraday_boundary (bucket_size one_hour) t

-- A group is created with its first candle.
pub record Group : Type 0 where
  pub key : ℕ
  pub first : Candle
  pub others : List Candle

unfoldable pub push_candle : ℕ → Candle → List Group → List Group
push_candle key c [] = record { key = key; first = c; others = [] } ∷ []
push_candle key c (g ∷ gs) =
    let rest = push_candle key c gs in
    if g.key == key then record g { others = g.others ++ (c ∷ []) } ∷ gs else g ∷ rest

unfoldable pub group_candles : Timeframe → List Candle → List Group → List Group
group_candles timeframe [] groups = groups
group_candles timeframe (c ∷ cs) groups =
    group_candles timeframe cs (push_candle (get_bucket_boundary timeframe c.timestamp) c groups)

-- The body of the loop over a group, on what it has found so far. The last candle says whether the
-- bucket is closed.
abbrev pub merge_step : Candle → Candle → Candle
merge_step r c = record r {
  high = if ltb_ℤ r.high c.high then c.high else r.high;
  low = if ltb_ℤ c.low r.low then c.low else r.low;
  close_price = c.close_price;
  volume = r.volume +ℤ c.volume;
  is_closed = c.is_closed;
}

unfoldable pub fold_group : Candle → List Candle → Candle
fold_group r [] = r
fold_group r (c ∷ cs) = fold_group (merge_step r c) cs

-- The first candle is compared with itself.
unfoldable pub merge_group : Group → Candle
merge_group g =
    fold_group (record g.first { timestamp = g.key; volume = pos 0 }) (g.first ∷ g.others)

unfoldable pub merge_all : List Group → List Candle
merge_all [] = []
merge_all (g ∷ gs) = merge_group g ∷ merge_all gs

unfoldable pub aggregate_candles : Timeframe → List Candle → List Candle
aggregate_candles timeframe candles = merge_all (group_candles timeframe candles [])

unfoldable pub take : ℕ → List Candle → List Candle
take zero xs = []
take (suc n) [] = []
take (suc n) (x ∷ xs) = x ∷ take n xs

unfoldable pub reverse : List Candle → List Candle
reverse [] = []
reverse (x ∷ xs) = reverse xs ++ (x ∷ [])

-- `newest_first` is what the database has for the symbol, in the order of the query.
unfoldable pub get_candles : Timeframe → ℕ → List Candle → List Candle
get_candles timeframe limit newest_first =
    let capped = if leb limit 1000 then limit else 1000 in
    let base = take (capped * multiplier_of timeframe) newest_first in
    let aggregated = reverse (take capped (reverse (aggregate_candles timeframe (reverse base)))) in
    elim timeframe [
      | one_minute ↦ reverse base
      | five_minutes ↦ aggregated
      | fifteen_minutes ↦ aggregated
      | one_hour ↦ aggregated
      | one_day ↦ aggregated
    ]
