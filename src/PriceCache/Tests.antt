-- ===== src/PriceCache/Tests.antt =====
-- A price that is stored and grows stale.
use trade_alpha.Base.{◌≡◌, refl, true, false, some, [], ◌∷◌}
use trade_alpha.Int.{pos}
use trade_alpha.PriceCache.{MarketTick, Publisher, handle_tick, handle_ticks, get_latest_price}

abbrev tick : MarketTick
tick = record { symbol = "TCS"; price = pos 2_500_000; timestamp = 1000 }

abbrev publisher : Publisher
publisher = handle_ticks ((true, false, tick) ∷ []) (record { cache = []; broadcasts = [] })

stale_after :
    get_latest_price 10_000 11_001 true "TCS" publisher.cache
    ≡ record { price = some (pos 2_500_000); is_stale = true; updated_at = some 1000 }
unfolding get_latest_price handle_ticks handle_tick
stale_after = refl
