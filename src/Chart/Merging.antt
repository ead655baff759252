-- ===== src/Chart/Merging.antt =====
-- chart.tsx: what mergeCandle keeps of the candles of one time, whatever the order they come in.
use trade_alpha.Base.{
  ℕ, ◌==◌, ◌≡◌, refl, Bool, true, false, Option, none, some, Bool-cases, List, [], ◌∷◌, All, inl,
  inr, arith, ◌⊎◌, if◌then◌else◌,
}
use trade_alpha.Int.{ℤ}
use trade_alpha.Store.Tables.{All-map}
use trade_alpha.Candles.{Candle}
use trade_alpha.Chart.{DataMap, get, set, is_kept, merge_candle, merge_candles}

pub get-set :
    (t u : ℕ) (c : Candle) (m : DataMap) → get u (set t c m) ≡ (if t == u then some c else get u m)
unfolding set
get-set t u c [] = ground arith
get-set t u c ((v, d) ∷ m) = ground (arith, get-set t u c m)

abbrev pub IsOneOf : Candle → List Candle → Type 0
IsOneOf c [] = ⊥
IsOneOf c (d ∷ cs) = (d ≡ c) ⊎ IsOneOf c cs

listed-IsOneOf : (cs : List Candle) → All (λ c. IsOneOf c cs) cs
listed-IsOneOf [] = tt
listed-IsOneOf (c ∷ cs) =
    (inl refl, All-map (λ d. IsOneOf d cs) _ cs (λ d h. inr h) (listed-IsOneOf cs))

set-All :
    (P : Candle → Type 0) (t : ℕ) (c : Candle) (m : DataMap)
    → P c
    → All (λ e. P e.1) m
    → All (λ e. P e.1) (set t c m)
unfolding set
set-All P t c [] h hs = (h, tt)
set-All P t c ((u, d) ∷ m) h hs = elim (Bool-cases (u == t)) [
  | inl same ↦ rw (same) (h, hs.1)
  | inr other ↦ rw (other) (hs.0, set-All P t c m h hs.1)
]

module _ (heavier : ℤ → ℤ → Bool) where
  merge_candle-All :
      (P : Candle → Type 0) (m : DataMap) (c : Candle)
      → P c
      → All (λ e. P e.1) m
      → All (λ e. P e.1) (merge_candle heavier m c).1
  unfolding merge_candle
  merge_candle-All P m c h hs = ground (arith, set-All P c.timestamp c m h hs)

  merge_candles-All :
      (P : Candle → Type 0) (cs : List Candle) (m : DataMap)
      → All P cs
      → All (λ e. P e.1) m
      → All (λ e. P e.1) (merge_candles heavier m cs).1
  unfolding merge_candles
  merge_candles-All P [] m h hs = hs
  merge_candles-All P (c ∷ cs) m h hs =
      merge_candles-All P cs (merge_candle heavier m c).1 h.1 (merge_candle-All P m c h.0 hs)

  -- What is stored when a candle meets what there is at its time.
  abbrev pub winner : Option Candle → Candle → Candle
  winner none c = c
  winner (some e) c = if is_kept heavier e c then e else c

  pub get-merge_candle :
      (u : ℕ) (m : DataMap) (c : Candle)
      → get u (merge_candle heavier m c).1
        ≡ (if c.timestamp == u then some (winner (get u m) c) else get u m)
  unfolding merge_candle
  get-merge_candle u m c = ground (arith, get-set c.timestamp u c m)

  -- A strict weak order, such as that of the numbers of floating point.
  pub record IsWeakOrder : Type 0 where
    pub asym : (a b : ℤ) → heavier a b ≡ true → heavier b a ≡ false
    pub trans : (a b c : ℤ) → heavier a b ≡ false → heavier b c ≡ false → heavier a c ≡ false

  -- The first is closed if the second is, and if it is open its volume is not the smaller one.
  pub record IsPreferred (b c : Candle) : Type 0 where
    pub closes : c.is_closed ≡ true → b.is_closed ≡ true
    pub weighs : b.is_closed ≡ false → heavier c.volume b.volume ≡ false

  -- At its time, a candle that is preferred to the candle.
  abbrev pub IsServed : DataMap → Candle → Type 0
  IsServed m c = (b : Candle) × (get c.timestamp m ≡ some b) × IsPreferred b c

  module _ (order : IsWeakOrder) where
    irreflexive : (a : ℤ) → heavier a a ≡ false
    irreflexive a = ground (arith, order.asym a a)

    IsPreferred-refl : (c : Candle) → IsPreferred c c
    IsPreferred-refl c = record { closes = λ h. h; weighs = λ _. irreflexive c.volume }

    IsPreferred-trans : (b c d : Candle) → IsPreferred b c → IsPreferred c d → IsPreferred b d
    IsPreferred-trans b c d p q = record {
      closes = λ h. p.closes (q.closes h);
      weighs = λ h. elim (Bool-cases c.is_closed) as (λ _. heavier d.volume b.volume ≡ false) [
        | inl closed ↦ ground arith
        | inr opened ↦ order.trans d.volume c.volume b.volume (q.weighs opened) (p.weighs h)
      ];
    }

    kept-IsPreferred : (e c : Candle) → is_kept heavier e c ≡ true → IsPreferred e c
    kept-IsPreferred e c h = record {
      closes = λ closed. ground arith;
      weighs = λ opened. ground (arith, order.asym e.volume c.volume);
    }

    taken-IsPreferred : (e c : Candle) → is_kept heavier e c ≡ false → IsPreferred c e
    taken-IsPreferred e c h = record {
      closes = λ closed. ground arith;
      weighs = λ opened. ground arith;
    }

    winner-IsPreferred : (o : Option Candle) (c : Candle) → IsPreferred (winner o c) c
    winner-IsPreferred none c = IsPreferred-refl c
    winner-IsPreferred (some e) c =
        elim (Bool-cases (is_kept heavier e c)) as (λ _. IsPreferred (winner (some e) c) c) [
          | inl kept ↦ rw (kept) (kept-IsPreferred e c kept)
          | inr taken ↦ rw (taken) (IsPreferred-refl c)
        ]

    winner-keeps : (e c : Candle) → IsPreferred (winner (some e) c) e
    winner-keeps e c =
        elim (Bool-cases (is_kept heavier e c)) as (λ _. IsPreferred (winner (some e) c) e) [
          | inl kept ↦ rw (kept) (IsPreferred-refl e)
          | inr taken ↦ rw (taken) (taken-IsPreferred e c taken)
        ]

    merged-IsServed : (m : DataMap) (c : Candle) → IsServed (merge_candle heavier m c).1 c
    merged-IsServed m c = (
      winner (get c.timestamp m) c,
      ground (arith, get-merge_candle c.timestamp m c),
      winner-IsPreferred (get c.timestamp m) c,
    )

    merge_candle-IsServed :
        (m : DataMap) (c d : Candle) → IsServed m d → IsServed (merge_candle heavier m c).1 d
    merge_candle-IsServed m c d (b, has, preferred) =
        elim (Bool-cases (c.timestamp == d.timestamp))
          as (λ _. IsServed (merge_candle heavier m c).1 d) [
            | inr other ↦ (b, ground (arith, get-merge_candle d.timestamp m c), preferred)
            | inl same ↦ (
              winner (some b) c,
              ground (arith, get-merge_candle d.timestamp m c),
              IsPreferred-trans (winner (some b) c) b d (winner-keeps b c) preferred,
            )
          ]

    merge_candles-IsServed :
        (cs : List Candle) (m : DataMap) (d : Candle)
        → IsServed m d
        → IsServed (merge_candles heavier m cs).1 d
    unfolding merge_candles
    merge_candles-IsServed [] m d h = h
    merge_candles-IsServed (c ∷ cs) m d h =
        merge_candles-IsServed cs (merge_candle heavier m c).1 d (merge_candle-IsServed m c d h)

    merged_preferred :
        (cs : List Candle) (m : DataMap) → All (IsServed (merge_candles heavier m cs).1) cs
    unfolding merge_candles
    merged_preferred [] m = tt
    merged_preferred (c ∷ cs) m = (
      merge_candles-IsServed cs (merge_candle heavier m c).1 c (merged-IsServed m c),
      merged_preferred cs (merge_candle heavier m c).1,
    )

    -- Whatever the order of a list of candles, merging them into an empty chart stores candles of
    -- the list only, and for each of the list one at its time that is closed if that one is and,
    -- if it is open, has no smaller volume. Volumes are compared by a strict weak order.
    pub merge_candles_best :
        (cs : List Candle)
        → All (IsServed (merge_candles heavier [] cs).1) cs
          × All (λ e. IsOneOf e.1 cs) (merge_candles heavier [] cs).1
    merge_candles_best cs =
        (merged_preferred cs [], merge_candles-All (λ c. IsOneOf c cs) cs [] (listed-IsOneOf cs) tt)
