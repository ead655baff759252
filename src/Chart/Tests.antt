-- ===== src/Chart/Tests.antt =====
-- A chart of one symbol that is switched to another before the candles have come.
use trade_alpha.Base.{◌≡◌, refl, Bool, true, false, some, List, [], ◌∷◌, All, arith}
use trade_alpha.Int.{ℤ, pos, ltb_ℤ}
use trade_alpha.Candles.{Timeframe, one_minute, Candle}
use trade_alpha.Chart.{
  Chart, get, set, merge_candles, merge_candle, selects, responds, handle_chart_events,
}
use trade_alpha.Chart.Merging.{IsWeakOrder, IsServed, IsOneOf, merge_candles_best}
use trade_alpha.Chart.Stale.{stale_stays, all_streamed}

abbrev heavier : ℤ → ℤ → Bool
heavier a b = ltb_ℤ b a

heavier-IsWeakOrder : IsWeakOrder heavier
heavier-IsWeakOrder = record { asym = λ a b h. ground arith; trans = λ a b c h k. ground arith }

abbrev tick : ℤ → Bool → Candle
tick volume is_closed = record {
  symbol = "TCS";
  timestamp = 60;
  open_price = pos 5;
  high = pos 9;
  low = pos 4;
  close_price = pos 7;
  volume = volume;
  is_closed = is_closed;
}

abbrev closed_tick : Candle
closed_tick = tick (pos 10) true

abbrev late_ticks : List Candle
late_ticks = tick (pos 8) false ∷ closed_tick ∷ tick (pos 12) false ∷ []

abbrev chart : Chart
chart = record {
  symbol = "TCS";
  timeframe = one_minute;
  data_map = [];
  has_data = false;
  loading = true;
  failed = false;
}

closed_is_kept : get 60 (merge_candles heavier [] late_ticks).1 ≡ some closed_tick
unfolding merge_candles merge_candle set
closed_is_kept = refl

merge_candles_best_example :
    All (IsServed heavier (merge_candles heavier [] late_ticks).1) late_ticks
    × All (λ e. IsOneOf e.1 late_ticks) (merge_candles heavier [] late_ticks).1
merge_candles_best_example = merge_candles_best heavier heavier-IsWeakOrder late_ticks

abbrev live : List (Timeframe × Candle)
live = (one_minute, record (tick (pos 20) false) { symbol = "INFY" }) ∷ []

stale_stays_example :
    get 60
      (handle_chart_events heavier
        (selects "INFY" one_minute ∷ responds (some (closed_tick ∷ [])) ∷ all_streamed live)
        chart).data_map
    ≡ some closed_tick
stale_stays_example = stale_stays heavier "INFY" one_minute closed_tick live chart refl (refl, tt)
