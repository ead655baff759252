-- ===== src/MarketApi/Tests.antt =====
-- A request for one candle of a symbol that has two of one minute, and requests with a limit that
-- is not positive.
use trade_alpha.Base.{ℕ, ◌≡◌, ◌≤◌, refl, true, some, List, [], ◌∷◌, String, length}
use trade_alpha.Int.{pos, negsuc}
use trade_alpha.Candles.{Candle, multiplier_of, get_candles, take, reverse}
use trade_alpha.PortfolioApi.{answered, denied}
use trade_alpha.MarketApi.{market_candles, timeframe_of}
use trade_alpha.MarketApi.Limits.{IsLimit, market_candles_bounded}

abbrev candle : ℕ → Candle
candle timestamp = record {
  symbol = "TCS";
  timestamp = timestamp;
  open_price = pos 5;
  high = pos 9;
  low = pos 4;
  close_price = pos 7;
  volume = pos 10;
  is_closed = true;
}

abbrev newest_first : String → List Candle
newest_first _ = candle 33_360 ∷ candle 33_300 ∷ []

newest_one :
    market_candles newest_first (some "TCS") (some "1m") (some (some (pos 1)))
    ≡ answered (candle 33_360 ∷ [])
unfolding market_candles timeframe_of get_candles multiplier_of take reverse
newest_one = refl

limit_zero : market_candles newest_first (some "TCS") (some "1m") (some (some (pos 0))) ≡ denied 400
unfolding market_candles timeframe_of
limit_zero = refl

limit_negative :
    market_candles newest_first (some "TCS") (some "1m") (some (some (negsuc 0))) ≡ denied 400
unfolding market_candles timeframe_of
limit_negative = refl

market_candles_bounded_example :
    (n : ℕ) × IsLimit (some (some (pos 1))) n
    × (length (candle 33_360 ∷ []) ≤ n)
    × (length (candle 33_360 ∷ []) ≤ 1000)
market_candles_bounded_example =
    market_candles_bounded newest_first (some "TCS") (some "1m") (some (some (pos 1)))
      (candle 33_360 ∷ []) newest_one
