-- ===== src/Candles/Buckets.antt =====
-- The buckets of a day.
use trade_alpha.Base.{ℕ, ◌+◌, ◌≤◌, ◌<◌, ◌≡◌, arith}
use trade_alpha.Session.{second_of_day}
use trade_alpha.Candles.{
  Timeframe, one_minute, five_minutes, fifteen_minutes, one_hour, one_day, get_bucket_boundary,
}

-- How long a bucket lasts at most, in seconds.
abbrev pub span : Timeframe → ℕ
span one_minute = 60
span five_minutes = 300
span fifteen_minutes = 900
span one_hour = 3600
span one_day = 86400

-- For a time at or after 09:15 of its day, its bucket starts at or before it, and it lies within
-- the length of the time frame, a day at most, after the start.
pub bucket_contains :
    (timeframe : Timeframe) (t : ℕ)
    → 33300 ≤ second_of_day t
    → (get_bucket_boundary timeframe t ≤ t) × (t < get_bucket_boundary timeframe t + span timeframe)
unfolding get_bucket_boundary
bucket_contains one_minute t h = (omega arith, omega arith)
bucket_contains five_minutes t h = (omega arith, omega arith)
bucket_contains fifteen_minutes t h = (omega arith, omega arith)
bucket_contains one_hour t h = (omega arith, omega arith)
bucket_contains one_day t h = (omega arith, omega arith)

-- The start of a bucket lies in the bucket that it starts, for every time frame and time.
pub bucket_idempotent :
    (timeframe : Timeframe) (t : ℕ)
    → get_bucket_boundary timeframe (get_bucket_boundary timeframe t)
      ≡ get_bucket_boundary timeframe t
unfolding get_bucket_boundary
bucket_idempotent one_minute t = omega arith
bucket_idempotent five_minutes t = omega arith
bucket_idempotent fifteen_minutes t = omega arith
bucket_idempotent one_hour t = omega arith
bucket_idempotent one_day t = omega arith
