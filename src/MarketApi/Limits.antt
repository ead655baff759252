-- ===== src/MarketApi/Limits.antt =====
-- How many candles a client gets.
use trade_alpha.Base.{
  ℕ, zero, suc, ◌*◌, ◌≤◌, ◌<◌, ◌⊎◌, ◌≡◌, refl, ap, ◌∙◌, Option, none, some, List, [], ◌∷◌, ◌++◌,
  String, length, leb, arith, Option-cases, inl, inr, if◌then◌else◌,
}
use trade_alpha.Int.{ℤ, pos, negsuc}
use trade_alpha.Candles.{
  Timeframe, Candle, one_minute, five_minutes, fifteen_minutes, one_hour, one_day, multiplier_of,
  take, reverse, get_candles, aggregate_candles,
}
use trade_alpha.PortfolioApi.{answered}
use trade_alpha.MarketApi.{market_candles, timeframe_given, parsed_limit}

length-push : (xs : List Candle) (c : Candle) → length (xs ++ (c ∷ [])) ≡ suc (length xs)
length-push [] c = refl
length-push (x ∷ xs) c = ap suc (length-push xs c)

length-reverse : (xs : List Candle) → length (reverse xs) ≡ length xs
unfolding reverse
length-reverse [] = refl
length-reverse (x ∷ xs) = length-push (reverse xs) x ∙ ap suc (length-reverse xs)

length-take : (n : ℕ) (xs : List Candle) → length (take n xs) ≤ n
unfolding take
length-take zero xs = omega arith
length-take (suc n) [] = omega arith
length-take (suc n) (x ∷ xs) = omega (arith, length-take n xs)

length-taken : (n : ℕ) (xs : List Candle) → length (reverse (take n xs)) ≤ n
length-taken n xs = omega (arith, length-reverse (take n xs), length-take n xs)

abbrev capped : ℕ → ℕ
capped limit = if leb limit 1000 then limit else 1000

get_candles-le :
    (frame : Timeframe) (limit : ℕ) (xs : List Candle)
    → length (get_candles frame limit xs) ≤ capped limit
unfolding get_candles multiplier_of
get_candles-le one_minute limit xs = omega (arith, length-taken (capped limit * 1) xs)
get_candles-le five_minutes limit xs =
    length-taken (capped limit)
      (reverse (aggregate_candles five_minutes (reverse (take (capped limit * 5) xs))))
get_candles-le fifteen_minutes limit xs =
    length-taken (capped limit)
      (reverse (aggregate_candles fifteen_minutes (reverse (take (capped limit * 15) xs))))
get_candles-le one_hour limit xs =
    length-taken (capped limit)
      (reverse (aggregate_candles one_hour (reverse (take (capped limit * 60) xs))))
get_candles-le one_day limit xs =
    length-taken (capped limit)
      (reverse (aggregate_candles one_day (reverse (take (capped limit * 375) xs))))

-- What the limit of a request means: a positive integer, or 100 if there is none.
abbrev pub IsLimit : Option (Option ℤ) → ℕ → Type 0
IsLimit limit n = ((limit ≡ none) × (n ≡ 100)) ⊎ ((limit ≡ some (some (pos n))) × (0 < n))

parsed_limit-IsLimit :
    (limit : Option (Option ℤ)) (n : ℕ) → parsed_limit limit ≡ some n → IsLimit limit n
parsed_limit-IsLimit none n h = inl (refl, ground arith)
parsed_limit-IsLimit (some none) n h = cc
parsed_limit-IsLimit (some (some (pos zero))) n h = cc
parsed_limit-IsLimit (some (some (pos (suc m)))) n h = inr (ground arith, ground arith)
parsed_limit-IsLimit (some (some (negsuc m))) n h = cc

-- A request for candles that is answered gives a limit that is a positive integer, or gives none,
-- which counts as 100; and it gets at most that many candles, and never more than 1000.
pub market_candles_bounded :
    (newest_first : String → List Candle) (symbol timeframe : Option String)
    (limit : Option (Option ℤ)) (candles : List Candle)
    → market_candles newest_first symbol timeframe limit ≡ answered candles
    → (n : ℕ) × IsLimit limit n × (length candles ≤ n) × (length candles ≤ 1000)
unfolding market_candles
market_candles_bounded newest_first none timeframe limit candles h = cc
market_candles_bounded newest_first (some symbol) timeframe limit candles h =
    elim (Option-cases (timeframe_given timeframe)) [
      | inl unknown ↦ ground arith
      | inr (frame, known) ↦ elim (Option-cases (parsed_limit limit)) [
        | inl wrong ↦ ground arith
        | inr (n, parsed) ↦
            let bound = get_candles-le frame n (newest_first symbol) in
            (n, parsed_limit-IsLimit limit n parsed, ground (arith, bound), ground (arith, bound))
      ]
    ]
