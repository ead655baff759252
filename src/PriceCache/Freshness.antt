-- ===== src/PriceCache/Freshness.antt =====
-- What a price is after the ticks that were handled.
use trade_alpha.Base.{
  ℕ, ◌≡◌, refl, ap, ◌∙◌, Bool, true, false, ◌&&◌, Option, some, List, [], ◌∷◌, String, str_eq,
  if◌then◌else◌,
}
use trade_alpha.Dict.{lookup, lookup-insert}
use trade_alpha.PriceCache.{
  MarketTick, CachedPrice, payload_of, Publisher, handle_tick, handle_ticks, answer_of,
  get_latest_price,
}

-- The last tick of a symbol that was stored, or what was there before.
pub last_stored : String → List (Bool × Bool × MarketTick) → Option CachedPrice → Option CachedPrice
last_stored symbol [] before = before
last_stored symbol ((stored, emitted, tick) ∷ ticks) before =
    last_stored symbol ticks
      (if stored && str_eq tick.symbol symbol then some (payload_of tick) else before)

handled_lookup :
    (symbol : String) (ticks : List (Bool × Bool × MarketTick)) (p : Publisher)
    → lookup symbol (handle_ticks ticks p).cache ≡ last_stored symbol ticks (lookup symbol p.cache)
unfolding handle_ticks last_stored handle_tick
handled_lookup symbol [] p = refl
handled_lookup symbol ((true, emitted, tick) ∷ ticks) p =
    handled_lookup symbol ticks (handle_tick true emitted tick p)
    ∙ ap (last_stored symbol ticks) (lookup-insert tick.symbol symbol (payload_of tick) p.cache)
handled_lookup symbol ((false, emitted, tick) ∷ ticks) p =
    handled_lookup symbol ticks (handle_tick false emitted tick p)

-- With an answer of Redis, the latest price of a symbol is that of its last stored tick, or what was
-- there before, and it is stale if it is older than the threshold.
pub get_latest_price-handle_ticks :
    (threshold now : ℕ) (symbol : String) (ticks : List (Bool × Bool × MarketTick)) (p : Publisher)
    → get_latest_price threshold now true symbol (handle_ticks ticks p).cache
      ≡ answer_of threshold now (last_stored symbol ticks (lookup symbol p.cache))
unfolding get_latest_price
get_latest_price-handle_ticks threshold now symbol ticks p =
    ap (answer_of threshold now) (handled_lookup symbol ticks p)
