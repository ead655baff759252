-- ===== src/Aggregator/Tests.antt =====
-- Two ticks of one minute.
use trade_alpha.Base.{◌/◌, ◌≡◌, refl, some, [], ◌∷◌}
use trade_alpha.Int.{pos, ◌+ℤ◌}
use trade_alpha.Store.Tables.{find, update_where}
use trade_alpha.Session.{session_at, time_text}
use trade_alpha.Aggregator.{
  Tick, Feed, opened_by, merge_tick, upsert_candle, close_previous, aggregate, handle_message,
}
use trade_alpha.Aggregator.Delivered.{handle_message_twice}
use trade_alpha.Aggregator.Shape.{IsWhole, IsUnique, total_volume}
use trade_alpha.Aggregator.Volume.{counted, handle_message_keeps}

-- 10:00:01 and 10:00:05 on the first day.
abbrev first : Tick
first = record {
  tick_id = 1;
  symbol = "TCS";
  price = pos 100;
  volume = pos 5;
  timestamp = 36_001_000;
}

abbrev second : Tick
second = record {
  tick_id = 2;
  symbol = "TCS";
  price = pos 90;
  volume = pos 2;
  timestamp = 36_005_000;
}

abbrev nothing : Feed
nothing = record { receipts = []; candles = []; published = [] }

two_ticks :
    (handle_message (some second) (handle_message (some first) nothing)).candles
    ≡ record (opened_by first) {
      low = pos 90;
      close_price = pos 90;
      volume = pos 7;
      last_tick_timestamp = 36_005_000;
    }
      ∷ []
unfolding handle_message session_at time_text aggregate upsert_candle close_previous find
    update_where merge_tick ◌+ℤ◌
two_ticks = refl

handle_message_twice_example :
    handle_message (some first) (handle_message (some first) nothing)
    ≡ handle_message (some first) nothing
handle_message_twice_example = handle_message_twice (some first) nothing

nothing-IsWhole : IsWhole nothing
unfolding IsUnique
nothing-IsWhole = record { shaped = tt; unique = tt }

handle_message_keeps_example :
    IsWhole (handle_message (some first) nothing)
    × (total_volume (handle_message (some first) nothing).candles
        ≡ total_volume nothing.candles
          +ℤ counted (session_at (first.timestamp / 1000)) first nothing)
handle_message_keeps_example = handle_message_keeps first nothing nothing-IsWhole
