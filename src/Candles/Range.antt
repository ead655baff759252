-- ===== src/Candles/Range.antt =====
-- The range of a merged candle.
use trade_alpha.Base.{ℕ, ◌==◌, List, [], ◌∷◌, ◌++◌, All, Bool-cases, inl, inr, arith}
use trade_alpha.Int.{pos, ◌≤ℤ◌}
use trade_alpha.Candles.{
  Timeframe, Candle, Group, get_bucket_boundary, push_candle, group_candles, fold_group, merge_step,
  merge_group, merge_all, aggregate_candles,
}

-- The opening and the closing price lie in the range of a candle.
pub record IsSane (c : Candle) : Type 0 where
  pub low_open : c.low ≤ℤ c.open_price
  pub low_close : c.low ≤ℤ c.close_price
  pub open_high : c.open_price ≤ℤ c.high
  pub close_high : c.close_price ≤ℤ c.high

-- The range of one candle contains that of another.
abbrev pub Spans : Candle → Candle → Type 0
Spans m c = (m.low ≤ℤ c.low) × (c.high ≤ℤ m.high)

-- A group of sane candles.
abbrev pub IsSaneGroup : Group → Type 0
IsSaneGroup g = All IsSane (g.first ∷ g.others)

merge_step-IsSane :
    (r c : Candle)
    → IsSane r
    → IsSane c
    → IsSane (merge_step r c) × Spans (merge_step r c) r × Spans (merge_step r c) c
merge_step-IsSane r c h k = (
  record {
    low_open = ground (arith, h.low_open);
    low_close = ground (arith, k.low_close);
    open_high = ground (arith, h.open_high);
    close_high = ground (arith, k.close_high);
  },
  (ground arith, ground arith),
  (ground arith, ground arith),
)

range_trans : (a b c : Candle) → Spans a b → Spans b c → Spans a c
range_trans a b c h k = (omega (arith, h.0, k.0), omega (arith, h.1, k.1))

fold_group-IsSane :
    (cs : List Candle) (r : Candle)
    → All IsSane cs
    → IsSane r
    → IsSane (fold_group r cs) × Spans (fold_group r cs) r × All (Spans (fold_group r cs)) cs
unfolding fold_group
fold_group-IsSane [] r all h = (h, (omega arith, omega arith), tt)
fold_group-IsSane (c ∷ cs) r all h =
    let (sane, here, there) = merge_step-IsSane r c h all.0 in
    let (m, wide, rest) = fold_group-IsSane cs (merge_step r c) all.1 sane in
    (
      m,
      range_trans (fold_group (merge_step r c) cs) (merge_step r c) r wide here,
      (range_trans (fold_group (merge_step r c) cs) (merge_step r c) c wide there, rest),
    )

-- If the opening and the closing price of every candle of a group lie in its range, then so do
-- those of its merged candle, whose range contains the range of each of them.
pub merge_group-IsSane :
    (g : Group)
    → IsSaneGroup g
    → IsSane (merge_group g) × All (Spans (merge_group g)) (g.first ∷ g.others)
unfolding merge_group
merge_group-IsSane g all =
    let h = all.0 in
    let (m, wide, rest) =
      fold_group-IsSane (g.first ∷ g.others) (record g.first { timestamp = g.key; volume = pos 0 })
        all
        (record {
          low_open = h.low_open;
          low_close = h.low_close;
          open_high = h.open_high;
          close_high = h.close_high;
        }) in
    (m, rest)

append-IsSane :
    (cs : List Candle) (c : Candle) → All IsSane cs → IsSane c → All IsSane (cs ++ (c ∷ []))
append-IsSane [] c h k = (k, tt)
append-IsSane (x ∷ cs) c h k = (h.0, append-IsSane cs c h.1 k)

push_candle-IsSaneGroup :
    (key : ℕ) (c : Candle) (gs : List Group)
    → IsSane c
    → All IsSaneGroup gs
    → All IsSaneGroup (push_candle key c gs)
unfolding push_candle
push_candle-IsSaneGroup key c [] h all = ((h, tt), tt)
push_candle-IsSaneGroup key c (g ∷ gs) h all = elim (Bool-cases (g.key == key)) [
  | inl here ↦ rw here ((all.0.0, append-IsSane g.others c all.0.1 h), all.1)
  | inr other ↦ rw other (all.0, push_candle-IsSaneGroup key c gs h all.1)
]

group_candles-IsSaneGroup :
    (timeframe : Timeframe) (cs : List Candle) (gs : List Group)
    → All IsSane cs
    → All IsSaneGroup gs
    → All IsSaneGroup (group_candles timeframe cs gs)
unfolding group_candles
group_candles-IsSaneGroup timeframe [] gs h all = all
group_candles-IsSaneGroup timeframe (c ∷ cs) gs h all =
    group_candles-IsSaneGroup timeframe cs
      (push_candle (get_bucket_boundary timeframe c.timestamp) c gs) h.1
      (push_candle-IsSaneGroup (get_bucket_boundary timeframe c.timestamp) c gs h.0 all)

merge_all-IsSane : (gs : List Group) → All IsSaneGroup gs → All IsSane (merge_all gs)
unfolding merge_all
merge_all-IsSane [] all = tt
merge_all-IsSane (g ∷ gs) all = ((merge_group-IsSane g all.0).0, merge_all-IsSane gs all.1)

-- If the opening and the closing price of every candle lie in its range, then so do those of every
-- aggregated candle.
pub aggregate_candles-IsSane :
    (timeframe : Timeframe) (cs : List Candle)
    → All IsSane cs
    → All IsSane (aggregate_candles timeframe cs)
unfolding aggregate_candles
aggregate_candles-IsSane timeframe cs h =
    merge_all-IsSane (group_candles timeframe cs [])
      (group_candles-IsSaneGroup timeframe cs [] h tt)
