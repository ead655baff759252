-- ===== src/Aggregator/Shape.antt =====
-- The candles of the aggregator: the order of their prices, their keys, and their volumes.
use trade_alpha.Base.{
  ℕ, ◌+◌, ◌≤◌, ◌<◌, ◌≡◌, refl, ap, Option, none, some, List, [], ◌∷◌, All, String, arith, inl, inr,
  Bool-cases,
}
use trade_alpha.Int.{ℤ, pos, ◌+ℤ◌, ◌≤ℤ◌}
use trade_alpha.Store.Tables.{find, update_where, update_where-All}
use trade_alpha.Aggregator.{
  Tick, MinuteCandle, Feed, candle_start, is_before, close_previous, merge_tick, opened_by,
  upsert_at, has_minute,
}

-- The opening and the closing price lie between the lowest and the highest, and the last tick lies
-- within the minute.
pub record IsShaped (c : MinuteCandle) : Type 0 where
  pub low_open : c.low ≤ℤ c.open_price
  pub open_high : c.open_price ≤ℤ c.high
  pub low_close : c.low ≤ℤ c.close_price
  pub close_high : c.close_price ≤ℤ c.high
  pub starts : c.timestamp ≤ c.last_tick_timestamp
  pub ends : c.last_tick_timestamp < c.timestamp + 60_000

-- No two candles are of the same symbol and minute.
unfoldable pub IsUnique : List MinuteCandle → Type 0
IsUnique [] = Unit
IsUnique (c ∷ cs) = (find (has_minute c.symbol c.timestamp) cs ≡ none) × IsUnique cs

unfoldable pub total_volume : List MinuteCandle → ℤ
total_volume [] = pos 0
total_volume (c ∷ cs) = c.volume +ℤ total_volume cs

pub record IsWhole (f : Feed) : Type 0 where
  pub shaped : All IsShaped f.candles
  pub unique : IsUnique f.candles

pub close_previous-IsShaped :
    (t : Tick) (cs : List MinuteCandle) → All IsShaped cs → All IsShaped (close_previous t cs)
unfolding close_previous
close_previous-IsShaped t cs = update_where-All IsShaped _ _ cs (λ c hit h. record {
  low_open = h.low_open;
  open_high = h.open_high;
  low_close = h.low_close;
  close_high = h.close_high;
  starts = h.starts;
  ends = h.ends;
})

close_previous-find :
    (t : Tick) (symbol : String) (start : ℕ) (cs : List MinuteCandle)
    → find (has_minute symbol start) cs ≡ none
    → find (has_minute symbol start) (close_previous t cs) ≡ none
unfolding close_previous update_where find
close_previous-find t symbol start [] h = refl
close_previous-find t symbol start (c ∷ cs) h = ground (
  arith,
  Bool-cases (is_before t.symbol (candle_start t.timestamp) c),
  Bool-cases (has_minute symbol start c),
  close_previous-find t symbol start cs,
)

pub close_previous-IsUnique :
    (t : Tick) (cs : List MinuteCandle) → IsUnique cs → IsUnique (close_previous t cs)
unfolding close_previous IsUnique update_where
close_previous-IsUnique t [] h = tt
close_previous-IsUnique t (c ∷ cs) h =
    let rest = close_previous-find t c.symbol c.timestamp cs h.0 in
    elim (Bool-cases (is_before t.symbol (candle_start t.timestamp) c)) [
      | inl hit ↦ rw hit (rest, close_previous-IsUnique t cs h.1)
      | inr miss ↦ rw miss (rest, close_previous-IsUnique t cs h.1)
    ]

pub close_previous-total_volume :
    (t : Tick) (cs : List MinuteCandle) → total_volume (close_previous t cs) ≡ total_volume cs
unfolding close_previous total_volume update_where
close_previous-total_volume t [] = refl
close_previous-total_volume t (c ∷ cs) =
    let rest = close_previous-total_volume t cs in
    elim (Bool-cases (is_before t.symbol (candle_start t.timestamp) c)) [
      | inl hit ↦ rw hit (ap (λ v. c.volume +ℤ v) rest)
      | inr miss ↦ rw miss (ap (λ v. c.volume +ℤ v) rest)
    ]

opened_by-IsShaped : (t : Tick) → IsShaped (opened_by t)
opened_by-IsShaped t = record {
  low_open = omega arith;
  open_high = omega arith;
  low_close = omega arith;
  close_high = omega arith;
  starts = omega arith;
  ends = omega arith;
}

merge_tick-IsShaped :
    (t : Tick) (c : MinuteCandle)
    → c.timestamp ≡ candle_start t.timestamp
    → IsShaped c
    → IsShaped (merge_tick t c)
unfolding merge_tick
merge_tick-IsShaped t c e h = record {
  low_open = ground (arith, h.low_open);
  open_high = ground (arith, h.open_high);
  low_close = ground (arith, h.low_close, h.close_high, h.low_open, h.open_high);
  close_high = ground (arith, h.low_close, h.close_high, h.low_open, h.open_high);
  starts = ground (arith, h.starts, h.ends);
  ends = ground (arith, h.starts, h.ends);
}

pub upsert_at-IsShaped :
    (t : Tick) (found : Option MinuteCandle) (cs : List MinuteCandle)
    → All IsShaped cs
    → All IsShaped (upsert_at found t cs).0
upsert_at-IsShaped t none cs h = (opened_by-IsShaped t, h)
upsert_at-IsShaped t (some c) cs h =
    update_where-All IsShaped _ (merge_tick t) cs (λ x hit. merge_tick-IsShaped t x (ground arith))
      h

-- The update leaves a list without the key.
pub update_missing :
    (t : Tick) (cs : List MinuteCandle)
    → find (has_minute t.symbol (candle_start t.timestamp)) cs ≡ none
    → update_where (has_minute t.symbol (candle_start t.timestamp)) (merge_tick t) cs ≡ cs
unfolding update_where find
update_missing t [] h = refl
update_missing t (c ∷ cs) h = elim (Bool-cases (has_minute t.symbol (candle_start t.timestamp) c)) [
  | inl hit ↦ ground arith
  | inr miss ↦ rw miss (ap (λ xs. c ∷ xs) (update_missing t cs (ground arith)))
]
