-- ===== src/Candles/Volume.antt =====
-- What is traded in the candles of a list.
use trade_alpha.Base.{ℕ, ◌==◌, ◌≡◌, refl, ◌∙◌, List, [], ◌∷◌, ◌++◌, Bool-cases, inl, inr}
use trade_alpha.Int.{ℤ, pos, ◌+ℤ◌}
use trade_alpha.Int.Ring.{int_laws, parts, eq_of_parts}
use trade_alpha.Candles.{
  Timeframe, Candle, Group, get_bucket_boundary, push_candle, group_candles, fold_group, merge_step,
  merge_group, merge_all, aggregate_candles,
}

pub total_volume : List Candle → ℤ
total_volume [] = pos 0
total_volume (c ∷ cs) = c.volume +ℤ total_volume cs

grouped_volume : List Group → ℤ
unfolding total_volume
grouped_volume [] = pos 0
grouped_volume (g ∷ gs) = total_volume (g.first ∷ g.others) +ℤ grouped_volume gs

total_volume_append :
    (cs : List Candle) (c : Candle) → total_volume (cs ++ (c ∷ [])) ≡ total_volume cs +ℤ c.volume
unfolding total_volume
total_volume_append [] c = omega int_laws
total_volume_append (x ∷ cs) c =
    eq_of_parts _ _ (omega (int_laws, parts (total_volume_append cs c)))

grouped_volume_push :
    (key : ℕ) (c : Candle) (gs : List Group)
    → grouped_volume (push_candle key c gs) ≡ grouped_volume gs +ℤ c.volume
unfolding grouped_volume push_candle total_volume
grouped_volume_push key c [] = omega int_laws
grouped_volume_push key c (g ∷ gs) = elim (Bool-cases (g.key == key)) [
  | inl here ↦ rw (here, total_volume_append g.others c) (omega int_laws)
  | inr other ↦ rw other (eq_of_parts _ _ (omega (int_laws, parts (grouped_volume_push key c gs))))
]

group_candles_volume :
    (timeframe : Timeframe) (cs : List Candle) (gs : List Group)
    → grouped_volume (group_candles timeframe cs gs) ≡ grouped_volume gs +ℤ total_volume cs
unfolding group_candles total_volume
group_candles_volume timeframe [] gs = omega int_laws
group_candles_volume timeframe (c ∷ cs) gs = eq_of_parts _ _ (
    omega (
      int_laws,
      parts (
          group_candles_volume timeframe cs
            (push_candle (get_bucket_boundary timeframe c.timestamp) c gs)),
      parts (grouped_volume_push (get_bucket_boundary timeframe c.timestamp) c gs),
    ))

fold_group_volume :
    (cs : List Candle) (r : Candle) → (fold_group r cs).volume ≡ r.volume +ℤ total_volume cs
unfolding fold_group total_volume
fold_group_volume [] r = omega int_laws
fold_group_volume (c ∷ cs) r = fold_group_volume cs (merge_step r c) ∙ omega int_laws

merge_all_volume : (gs : List Group) → total_volume (merge_all gs) ≡ grouped_volume gs
unfolding merge_all merge_group total_volume grouped_volume
merge_all_volume [] = refl
merge_all_volume (g ∷ gs) = eq_of_parts _ _ (
    omega (
      int_laws,
      parts (
          fold_group_volume (g.first ∷ g.others)
            (record g.first { timestamp = g.key; volume = pos 0 })),
      parts (merge_all_volume gs),
    ))

-- Aggregation keeps the volume: the aggregated candles have the same total volume as the candles
-- that they are made of, for every time frame.
pub aggregate_candles_volume :
    (timeframe : Timeframe) (cs : List Candle)
    → total_volume (aggregate_candles timeframe cs) ≡ total_volume cs
unfolding aggregate_candles
aggregate_candles_volume timeframe cs =
    merge_all_volume (group_candles timeframe cs [])
    ∙ group_candles_volume timeframe cs []
    ∙ unfold grouped_volume in omega int_laws
