-- ===== src/Candles/Tests.antt =====
-- Candles of the first minutes of a session.
use trade_alpha.Base.{ℕ, ◌+◌, ◌≡◌, refl, true, List, [], ◌∷◌}
use trade_alpha.Int.{pos, ◌+ℤ◌}
use trade_alpha.Candles.{
  five_minutes, Candle, get_bucket_boundary, push_candle, group_candles, fold_group, merge_group,
  merge_all, aggregate_candles,
}
use trade_alpha.Candles.Volume.{total_volume, aggregate_candles_volume}

-- A candle of the minute at `t`.
abbrev candle : ℕ → ℕ → ℕ → Candle
candle t price more = record {
  symbol = "TCS";
  timestamp = t;
  open_price = pos price;
  high = pos (price + more);
  low = pos price;
  close_price = pos (price + more);
  volume = pos 10;
  is_closed = true;
}

-- 09:15, 09:16 and 09:20.
abbrev minutes : List Candle
minutes = candle 33_300 100 5 ∷ candle 33_360 90 3 ∷ candle 33_600 95 1 ∷ []

two_buckets :
    aggregate_candles five_minutes minutes
    ≡ record (candle 33_300 100 5) { low = pos 90; close_price = pos 93; volume = pos 20 }
      ∷ candle 33_600 95 1
      ∷ []
unfolding aggregate_candles group_candles push_candle get_bucket_boundary merge_all merge_group
    fold_group ◌+ℤ◌
two_buckets = refl

aggregate_candles_volume_example :
    total_volume (aggregate_candles five_minutes minutes) ≡ total_volume minutes
aggregate_candles_volume_example = aggregate_candles_volume five_minutes minutes
