-- ===== src/Feed/Fenced.antt =====
-- Only the owner of the lease simulates.
use trade_alpha.Base.{
  ℕ, ◌≡◌, refl, Bool, true, false, Option, none, some, List, [], ◌∷◌, String, arith, Bool-cases,
  inl, inr,
}
use trade_alpha.Dict.{lookup}
use trade_alpha.Engine.{contains}
use trade_alpha.Session.{is_open}
use trade_alpha.Lease.{Lease, Link, over, set_nx, lua_heartbeat}
use trade_alpha.Simulator.{Simulator, Timer, start_simulation}
use trade_alpha.Simulator.Walk.{lookup-stop_each, lookup-start_simulation}
use trade_alpha.Feed.{
  FeedLeaseService, Settings, feed_symbols, config_of, start_each, start_simulations,
  stop_simulations, after_acquire, try_acquire_lease, lose, after_heartbeat, heartbeat, stop,
}

module _ {N : Type 0} where
  -- The timer of a symbol, if it is simulated.
  abbrev pub timer_at : String → FeedLeaseService N → Option (Timer N)
  timer_at symbol f = lookup symbol f.simulator.active_simulations

  -- What is simulated is one of the symbols of the feed, and only under the lease.
  pub record IsFenced (f : FeedLeaseService N) : Type 0 where
    pub listed : (j : String) → contains feed_symbols j ≡ false → timer_at j f ≡ none
    pub fenced : f.is_owned ≡ false → (j : String) → timer_at j f ≡ none

  pub idle_after_stop :
      (f : FeedLeaseService N) → IsFenced f → (j : String) → timer_at j (stop_simulations f) ≡ none
  unfolding stop_simulations
  idle_after_stop f h j = ground (arith, lookup-stop_each feed_symbols j f.simulator, h.listed j)

  start_each-listed :
      (env : Settings N) (symbols : List String) (j : String) (s : Simulator N)
      → contains symbols j ≡ false
      → lookup j (start_each env symbols s).active_simulations ≡ lookup j s.active_simulations
  unfolding start_each contains
  start_each-listed env [] j s h = refl
  start_each-listed env (x ∷ xs) j s h = ground (
    arith,
    start_each-listed env xs j (start_simulation (config_of env x) s),
    lookup-start_simulation (config_of env x) j s,
  )

  idle-IsFenced : (f : FeedLeaseService N) → ((j : String) → timer_at j f ≡ none) → IsFenced f
  idle-IsFenced f idle = record { listed = λ j _. idle j; fenced = λ _. idle }

  stop_simulations-IsFenced : (f : FeedLeaseService N) → IsFenced f → IsFenced (stop_simulations f)
  stop_simulations-IsFenced f h = idle-IsFenced (stop_simulations f) (idle_after_stop f h)

  lose-IsFenced : (f : FeedLeaseService N) → IsFenced f → IsFenced (lose f)
  unfolding stop_simulations
  lose-IsFenced f h = idle-IsFenced (lose f) (idle_after_stop f h)

  start_simulations-IsFenced :
      (env : Settings N) (now : ℕ) (f : FeedLeaseService N)
      → f.is_owned ≡ true
      → IsFenced f
      → IsFenced (start_simulations env now f)
  unfolding start_simulations
  start_simulations-IsFenced env now f owned h = record {
    listed =
        λ j other. ground (arith, start_each-listed env feed_symbols j f.simulator, h.listed j);
    fenced = λ free j. ground arith;
  }

  after_acquire-IsFenced :
      (env : Settings N) (now : ℕ) (answer : Option Bool) (f : FeedLeaseService N)
      → IsFenced f
      → IsFenced (after_acquire env now answer f)
  unfolding after_acquire
  after_acquire-IsFenced env now none f h = h
  after_acquire-IsFenced env now (some false) f h = h
  after_acquire-IsFenced env now (some true) f h =
      let owner : FeedLeaseService N = record f { is_owned = true; confirmed_at = now } in
      elim (Bool-cases f.is_owned) [
        | inl had ↦ simp had (record { listed = h.listed; fenced = λ lost. cc })
        | inr free ↦
            simp free
              (start_simulations-IsFenced env now owner refl (idle-IsFenced owner (h.fenced free)))
      ]

  pub try_acquire_lease-IsFenced :
      (env : Settings N) (now : ℕ) (link : Link) (f : FeedLeaseService N) (key : Option Lease)
      → IsFenced f
      → IsFenced (try_acquire_lease env now link f key).0
  unfolding try_acquire_lease
  try_acquire_lease-IsFenced env now link f key h =
      after_acquire-IsFenced env now (over link (set_nx now env.process_token) key).1 f h

  after_heartbeat-IsFenced :
      (now : ℕ) (answer : Option Bool) (f : FeedLeaseService N)
      → IsFenced f
      → IsFenced (after_heartbeat now answer f)
  unfolding after_heartbeat
  after_heartbeat-IsFenced now (some true) f h = record { listed = h.listed; fenced = h.fenced }
  after_heartbeat-IsFenced now (some false) f h = lose-IsFenced f h
  after_heartbeat-IsFenced now none f h = lose-IsFenced f h

  pub heartbeat-IsFenced :
      (env : Settings N) (now : ℕ) (link : Link) (f : FeedLeaseService N) (key : Option Lease)
      → IsFenced f
      → IsFenced (heartbeat env now link f key).0
  unfolding heartbeat
  heartbeat-IsFenced env now link f key h = elim (Bool-cases f.is_owned) [
    | inl had ↦ elim (Bool-cases (is_open now)) [
      | inl opened ↦
          simp (had, opened)
            (after_heartbeat-IsFenced now (over link (lua_heartbeat now env.process_token) key).1 f
              h)
      | inr closed ↦ simp (had, closed) (lose-IsFenced f h)
    ]
    | inr free ↦ elim (Bool-cases (is_open now)) [
      | inl opened ↦ simp (free, opened) (try_acquire_lease-IsFenced env now link f key h)
      | inr closed ↦ simp (free, closed) h
    ]
  ]

  pub stop-IsFenced :
      (env : Settings N) (now : ℕ) (link : Link) (f : FeedLeaseService N) (key : Option Lease)
      → IsFenced f
      → IsFenced (stop env now link f key).0
  unfolding stop
  stop-IsFenced env now link f key h = stop_simulations-IsFenced f h
