-- ===== src/Feed/Tests.antt =====
-- Runs of two feeds, with prices in whole units.
use trade_alpha.Base.{ℕ, ◌+◌, ◌≡◌, refl, ◌⊎◌, ◌≤◌, true, false, none, some, [], ◌∷◌, arith}
use trade_alpha.Session.{is_open}
use trade_alpha.Lease.{answered, set_nx}
use trade_alpha.Simulator.{start_simulation, stop_running}
use trade_alpha.Feed.{
  FeedLeaseService, Settings, try_acquire_lease, after_acquire, start_simulations, start_each,
}
use trade_alpha.Feed.Fenced.{timer_at}
use trade_alpha.Feed.Leased.{handle, starting}
use trade_alpha.Feed.Single.{
  Market, MarketRun, at_first, then_next, runs, waits, after_handler, AreIdle, single_publisher,
}
use trade_alpha.Feed.Silent.{silent_session, beats, StaysIdle}

abbrev idle_feed : FeedLeaseService ℕ
idle_feed = record {
  is_owned = false;
  simulator = record { active_simulations = []; current_prices = []; emitted = [] };
  confirmed_at = 0;
}

abbrev env : ℕ → Settings ℕ
env i = record { process_token = i; disabled = false; initial_price = 150; volatility = 1 }

-- The opening of the session on the first day.
abbrev opening : ℕ
opening = 33_300

abbrev at_opening : Market ℕ
at_opening = record { key = none; feeds = λ _. idle_feed; now = opening }

abbrev one_feed : Market ℕ
one_feed = after_handler env 1 starting answered at_opening

abbrev later : Market ℕ
later = record one_feed { now = one_feed.now + 20 }

-- The first feed has missed its heartbeats, and a second one takes over.
abbrev two_feeds : Market ℕ
two_feeds = after_handler env 2 starting answered later

two_feeds_run : MarketRun env at_opening two_feeds
two_feeds_run =
    then_next (then_next (then_next at_first (runs 1 starting answered)) (waits 20))
      (runs 2 starting answered)

first_runs :
    timer_at "TCS" (two_feeds.feeds 1) ≡ some (record { volatility = 1; current_price = 150 })
unfolding after_handler handle try_acquire_lease after_acquire start_simulations start_each set_nx
    is_open start_simulation stop_running
first_runs = refl

second_runs :
    timer_at "TCS" (two_feeds.feeds 2) ≡ some (record { volatility = 1; current_price = 150 })
unfolding after_handler handle try_acquire_lease after_acquire start_simulations start_each set_nx
    is_open start_simulation stop_running
second_runs = refl

idle_at_opening : AreIdle at_opening
unfolding AreIdle
idle_at_opening i = (refl, λ j. refl)

single_publisher_example :
    (◌≡◌ {A = ℕ} 1 2)
    ⊎ ((two_feeds.feeds 1).confirmed_at + 15 ≤ two_feeds.now)
    ⊎ ((two_feeds.feeds 2).confirmed_at + 15 ≤ two_feeds.now)
single_publisher_example =
    single_publisher env idle_at_opening two_feeds_run 1 2 "TCS" "TCS"
      (record { volatility = 1; current_price = 150 })
      (record { volatility = 1; current_price = 150 }) first_runs second_runs

-- A feed that is started five seconds early, and two heartbeats.
opens_soon : is_open 33_295 ≡ false
unfolding is_open
opens_soon = refl

opens_then : is_open 33_305 ≡ true
unfolding is_open
opens_then = refl

opens_still : is_open 33_315 ≡ true
unfolding is_open
opens_still = refl

silent_session_example :
    let started = try_acquire_lease (env 1) 33_295 answered idle_feed none in
    StaysIdle (env 1) idle_feed (beats (env 1) (33_305 ∷ 33_315 ∷ []) started.0 started.1)
silent_session_example =
    silent_session (env 1) 33_295 (33_305 ∷ 33_315 ∷ []) idle_feed none refl opens_soon refl
      (opens_then, omega arith, omega arith, (opens_still, omega arith, omega arith, tt))
