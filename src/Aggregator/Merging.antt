-- ===== src/Aggregator/Merging.antt =====
-- Two ticks of the same minute in either order.
use trade_alpha.Base.{◌≡◌, ◌≢◌, arith}
use trade_alpha.Int.{ℤ, ◌+ℤ◌}
use trade_alpha.Int.Ring.{int_laws, eq_of_parts}
use trade_alpha.Aggregator.{Tick, MinuteCandle, greatest, least, merge_tick}

greatest_swap : (x a b : ℤ) → greatest (greatest x a) b ≡ greatest (greatest x b) a
greatest_swap x a b = eq_of_parts _ _ (ground arith)

least_swap : (x a b : ℤ) → least (least x a) b ≡ least (least x b) a
least_swap x a b = eq_of_parts _ _ (ground arith)

add_swap : (x a b : ℤ) → x +ℤ a +ℤ b ≡ x +ℤ b +ℤ a
add_swap x a b = omega int_laws

close_swap :
    (c : MinuteCandle) (a b : Tick)
    → a.timestamp ≢ b.timestamp
    → (merge_tick b (merge_tick a c)).close_price ≡ (merge_tick a (merge_tick b c)).close_price
unfolding merge_tick
close_swap c a b apart = ground arith

last_swap :
    (c : MinuteCandle) (a b : Tick)
    → (merge_tick b (merge_tick a c)).last_tick_timestamp
      ≡ (merge_tick a (merge_tick b c)).last_tick_timestamp
unfolding merge_tick
last_swap c a b = ground arith

-- Two ticks of different times give the same candle in whichever order they are merged into one
-- that is there.
pub merge_tick_swap :
    (c : MinuteCandle) (a b : Tick)
    → a.timestamp ≢ b.timestamp
    → merge_tick b (merge_tick a c) ≡ merge_tick a (merge_tick b c)
unfolding merge_tick
merge_tick_swap c a b apart = ground (
  arith,
  greatest_swap c.high a.price b.price,
  least_swap c.low a.price b.price,
  add_swap c.volume a.volume b.volume,
  close_swap c a b apart,
  last_swap c a b,
)
