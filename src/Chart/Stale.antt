-- ===== src/Chart/Stale.antt =====
-- chart.tsx: a response that comes after another symbol has been selected.
use trade_alpha.Base.{ℕ, ◌≡◌, Bool, true, false, some, List, [], ◌∷◌, All, String, arith}
use trade_alpha.Int.{ℤ}
use trade_alpha.Candles.{Timeframe, Candle}
use trade_alpha.Chart.{
  Chart, get, ChartEvent, selects, responds, streams, merge_candles, receive, handle_market_candle,
  handle_chart_event, handle_chart_events,
}
use trade_alpha.Chart.Merging.{get-merge_candle}

abbrev pub all_streamed : List (Timeframe × Candle) → List ChartEvent
all_streamed [] = []
all_streamed ((timeframe, c) ∷ es) = streams timeframe c ∷ all_streamed es

module _ (heavier : ℤ → ℤ → Bool) where
  -- An open candle does not replace a closed one.
  stream_keeps :
      (timeframe : Timeframe) (c d : Candle) (t : ℕ) (k : Chart)
      → c.is_closed ≡ true
      → d.is_closed ≡ false
      → get t k.data_map ≡ some c
      → get t (handle_market_candle heavier timeframe d k).data_map ≡ some c
  unfolding handle_market_candle
  stream_keeps timeframe c d t k closed opened has =
      ground (arith, get-merge_candle heavier t k.data_map d)

  streams_keep :
      (es : List (Timeframe × Candle)) (c : Candle) (t : ℕ) (k : Chart)
      → c.is_closed ≡ true
      → All (λ e. e.1.is_closed ≡ false) es
      → get t k.data_map ≡ some c
      → get t (handle_chart_events heavier (all_streamed es) k).data_map ≡ some c
  unfolding handle_chart_events handle_chart_event
  streams_keep [] c t k closed opened has = has
  streams_keep (e ∷ es) c t k closed opened has =
      streams_keep es c t (handle_market_candle heavier e.0 e.1 k) closed opened.1
        (stream_keeps e.0 c e.1 t k closed opened.0 has)

  -- A chart that has switched to a symbol, and then gets a response that holds one closed candle,
  -- of whatever symbol, shows that candle, and goes on showing it however many open candles are
  -- streamed to it.
  pub stale_stays :
      (symbol : String) (timeframe : Timeframe) (c : Candle) (es : List (Timeframe × Candle))
      (k : Chart)
      → c.is_closed ≡ true
      → All (λ e. e.1.is_closed ≡ false) es
      → get c.timestamp
          (handle_chart_events heavier
            (selects symbol timeframe ∷ responds (some (c ∷ [])) ∷ all_streamed es)
            k).data_map
        ≡ some c
  unfolding handle_chart_events handle_chart_event receive merge_candles
  stale_stays symbol timeframe c es k closed opened =
      streams_keep es c c.timestamp
        (handle_chart_event heavier (responds (some (c ∷ [])))
          (handle_chart_event heavier (selects symbol timeframe) k))
        closed opened (ground (arith, get-merge_candle heavier c.timestamp [] c))
