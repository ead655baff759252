-- ===== src/PriceCache.antt =====
-- apps/api/src/services/price-cache.service.ts: the last price of every symbol, in a hash of Redis.
-- Instants count milliseconds, prices units of 10^-4. What stands in the hash is the JSON text of a
-- price and an instant, which reads back as it was written. Whether a command of Redis succeeds is
-- a parameter.
pub mod Freshness
pub mod Tests
use trade_alpha.Base.{
  ℕ, ◌+◌, ltb, Bool, true, false, Option, none, some, List, [], ◌∷◌, String, if◌then◌else◌,
}
use trade_alpha.Int.{ℤ}
use trade_alpha.Dict.{Dict, lookup, insert}
use trade_alpha.Valuation.{LatestPrice, PriceCache as PriceSource}

pub record MarketTick : Type 0 where
  pub symbol : String
  pub price : ℤ
  pub timestamp : ℕ

pub record CachedPrice : Type 0 where
  pub price : ℤ
  pub timestamp : ℕ

abbrev pub payload_of : MarketTick → CachedPrice
payload_of tick = record { price = tick.price; timestamp = tick.timestamp }

unfoldable pub publish_tick : MarketTick → Dict CachedPrice → Dict CachedPrice
publish_tick tick cache = insert tick.symbol (payload_of tick) cache

pub record PriceAnswer : Type 0 where
  pub price : Option ℤ
  pub is_stale : Bool
  pub updated_at : Option ℕ

abbrev pub no_price : PriceAnswer
no_price = record { price = none; is_stale = true; updated_at = none }

-- `threshold` is STALE_PRICE_THRESHOLD_MS. An instant that is ahead of the clock is not stale.
abbrev pub answer_of : ℕ → ℕ → Option CachedPrice → PriceAnswer
answer_of threshold now none = no_price
answer_of threshold now (some p) = record {
  price = some p.price;
  is_stale = ltb (p.timestamp + threshold) now;
  updated_at = some p.timestamp;
}

-- `answers` tells whether Redis answers.
unfoldable pub get_latest_price : ℕ → ℕ → Bool → String → Dict CachedPrice → PriceAnswer
get_latest_price threshold now answers symbol cache =
    if answers then answer_of threshold now (lookup symbol cache) else no_price

-- The parameter of the valuation, out of the cache.
unfoldable pub price_source : ℕ → ℕ → Bool → Dict CachedPrice → PriceSource
unfolding get_latest_price
price_source threshold now answers cache symbol =
    let answer = get_latest_price threshold now answers symbol cache in
    record { price = answer.price; is_stale = answer.is_stale }

-- `PriceCachePublisher`: the hash, and the ticks that were broadcast to the rooms of the market.
pub record Publisher : Type 0 where
  pub cache : Dict CachedPrice
  pub broadcasts : List MarketTick

-- Each of the two may fail without the other.
unfoldable pub handle_tick : (stored emitted : Bool) → MarketTick → Publisher → Publisher
handle_tick stored emitted tick p = record {
  cache = if stored then insert tick.symbol (payload_of tick) p.cache else p.cache;
  broadcasts = if emitted then tick ∷ p.broadcasts else p.broadcasts;
}

-- The ticks in their order, each with whether it could be stored and broadcast.
unfoldable pub handle_ticks : List (Bool × Bool × MarketTick) → Publisher → Publisher
handle_ticks [] p = p
handle_ticks ((stored, emitted, tick) ∷ ticks) p =
    handle_ticks ticks (handle_tick stored emitted tick p)
