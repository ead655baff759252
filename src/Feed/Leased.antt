-- ===== src/Feed/Leased.antt =====
-- A process that simulates holds the lease, as long as its last positive answer is recent.
use trade_alpha.Base.{
  ℕ, ◌+◌, ◌<◌, ◌≡◌, refl, ◌≢◌, Bool, true, false, Option, none, some, String, arith, inl, inr,
  Bool-cases, sym, subst,
}
use trade_alpha.Session.{is_open}
use trade_alpha.Lease.{Lease, Link, over, granted, set_nx, lua_heartbeat, lua_release}
use trade_alpha.Lease.Exclusion.{
  HoldsUntil, acquire_apart, renew_apart, release_apart, acquired_holds, renewed_holds,
}
use trade_alpha.Simulator.{Timer}
use trade_alpha.Feed.{
  FeedLeaseService, Settings, start_simulations, after_acquire, try_acquire_lease, lose,
  stop_simulations, after_heartbeat, heartbeat, stop,
}
use trade_alpha.Feed.Fenced.{
  IsFenced, timer_at, idle_after_stop, try_acquire_lease-IsFenced, heartbeat-IsFenced,
  stop-IsFenced,
}

pub data Handler : Type 0 where
  starting beating stopping : Handler

module _ {N : Type 0} where
  unfoldable pub handle :
      Handler
      → Settings N
      → ℕ
      → Link
      → FeedLeaseService N
      → Option Lease
      → FeedLeaseService N × Option Lease
  handle starting = try_acquire_lease
  handle beating = heartbeat
  handle stopping = stop

  -- If a process simulates and its last positive answer is less than 15 seconds old, the lease is
  -- its own until then.
  pub record IsLeased (now token : ℕ) (key : Option Lease) (f : FeedLeaseService N) : Type 0 where
    pub fenced : IsFenced f
    pub held :
        (j : String) (t : Timer N)
        → timer_at j f ≡ some t
        → now < f.confirmed_at + 15
        → HoldsUntil token (f.confirmed_at + 15) key

  pub idle-IsLeased :
      (now token : ℕ) (key : Option Lease) (f : FeedLeaseService N)
      → IsFenced f
      → ((j : String) → timer_at j f ≡ none)
      → IsLeased now token key f
  idle-IsLeased now token key f fenced idle = record {
    fenced = fenced;
    held = λ j t running _. cc (idle j);
  }

  confirmed-IsLeased :
      (now token : ℕ) (key : Option Lease) (f : FeedLeaseService N)
      → IsFenced f
      → f.confirmed_at ≡ now
      → HoldsUntil token (now + 15) key
      → IsLeased now token key f
  confirmed-IsLeased now token key f fenced at holds = record {
    fenced = fenced;
    held = λ j t _ _. subst (λ (x : ℕ). HoldsUntil token (x + 15) key) (sym at) holds;
  }

  module _ (settings : Settings N) (now : ℕ) (link : Link) where
    acquired-IsLeased :
        (i : ℕ) (answer : Option Bool) (key key' : Option Lease) (f : FeedLeaseService N)
        → (answer ≡ some true → key' ≡ granted now i)
        → ((t : ℕ) → now < t → HoldsUntil i t key → HoldsUntil i t key')
        → IsFenced (after_acquire settings now answer f)
        → IsLeased now i key f
        → IsLeased now i key' (after_acquire settings now answer f)
    unfolding after_acquire start_simulations
    acquired-IsLeased i none key key' f won keep fenced h = record {
      fenced = fenced;
      held = λ j t run live. keep (f.confirmed_at + 15) live (h.held j t run live);
    }
    acquired-IsLeased i (some false) key key' f won keep fenced h = record {
      fenced = fenced;
      held = λ j t run live. keep (f.confirmed_at + 15) live (h.held j t run live);
    }
    acquired-IsLeased i (some true) key key' f won keep fenced h =
        confirmed-IsLeased now i key' (after_acquire settings now (some true) f) fenced
          (ground arith) (rw (won refl) (refl, omega arith))

    beaten-IsLeased :
        (i : ℕ) (answer : Option Bool) (key' : Option Lease) (f : FeedLeaseService N)
        → (answer ≡ some true → key' ≡ granted now i)
        → IsFenced f
        → IsFenced (after_heartbeat now answer f)
        → IsLeased now i key' (after_heartbeat now answer f)
    unfolding after_heartbeat stop_simulations
    beaten-IsLeased i (some true) key' f won before fenced =
        confirmed-IsLeased now i key' (after_heartbeat now (some true) f) fenced refl
          (rw (won refl) (refl, omega arith))
    beaten-IsLeased i (some false) key' f won before fenced =
        idle-IsLeased now i key' (lose f) fenced (idle_after_stop f before)
    beaten-IsLeased i none key' f won before fenced =
        idle-IsLeased now i key' (lose f) fenced (idle_after_stop f before)

  -- The token of the process `i` is `i`.
  abbrev pub env_of : (ℕ → Settings N) → ℕ → Settings N
  env_of settings i = record (settings i) { process_token = i }

  module _ (settings : ℕ → Settings N) (now : ℕ) (link : Link) (i : ℕ) where
    try_acquire_lease-IsLeased :
        (key : Option Lease) (f : FeedLeaseService N)
        → IsLeased now i key f
        → let after = try_acquire_lease (env_of settings i) now link f key in
          IsLeased now i after.1 after.0
    unfolding try_acquire_lease
    try_acquire_lease-IsLeased key f h =
        acquired-IsLeased (env_of settings i) now link i (over link (set_nx now i) key).1 key
          (over link (set_nx now i) key).0 f (acquired_holds now i link key)
          (λ t live. acquire_apart now i i t live link key)
          (try_acquire_lease-IsFenced (env_of settings i) now link f key h.fenced) h

    heartbeat-IsLeased :
        (key : Option Lease) (f : FeedLeaseService N)
        → IsLeased now i key f
        → let after = heartbeat (env_of settings i) now link f key in IsLeased now i after.1 after.0
    unfolding heartbeat stop_simulations
    heartbeat-IsLeased key f h =
        let env = env_of settings i in
        let fenced = heartbeat-IsFenced env now link f key h.fenced in
        elim (Bool-cases f.is_owned) [
          | inl had ↦ elim (Bool-cases (is_open now)) [
            | inl opened ↦
                simp (had, opened)
                  (beaten-IsLeased env now link i (over link (lua_heartbeat now i) key).1
                    (over link (lua_heartbeat now i) key).0 f (renewed_holds now i link key)
                    h.fenced (simp (had, opened) at fenced))
            | inr closed ↦
                simp (had, closed)
                  (idle-IsLeased now i (over link (lua_release now i) key).0 (lose f)
                    (simp (had, closed) at fenced) (idle_after_stop f h.fenced))
          ]
          | inr free ↦ elim (Bool-cases (is_open now)) [
            | inl opened ↦ simp (free, opened) (try_acquire_lease-IsLeased key f h)
            | inr closed ↦ simp (free, closed) h
          ]
        ]

    stop-IsLeased :
        (key : Option Lease) (f : FeedLeaseService N)
        → IsLeased now i key f
        → let after = stop (env_of settings i) now link f key in IsLeased now i after.1 after.0
    unfolding stop
    stop-IsLeased key f h =
        let env = env_of settings i in
        idle-IsLeased now i (stop env now link f key).1 (stop env now link f key).0
          (stop-IsFenced env now link f key h.fenced) (idle_after_stop f h.fenced)

    pub handle-IsLeased :
        (h : Handler) (key : Option Lease) (f : FeedLeaseService N)
        → IsLeased now i key f
        → let after = handle h (env_of settings i) now link f key in IsLeased now i after.1 after.0
    unfolding handle
    handle-IsLeased starting = try_acquire_lease-IsLeased
    handle-IsLeased beating = heartbeat-IsLeased
    handle-IsLeased stopping = stop-IsLeased

    -- What a process does leaves the live leases of the others alone.
    pub handle_apart :
        (h : Handler) (key : Option Lease) (f : FeedLeaseService N) (j t : ℕ)
        → j ≢ i
        → now < t
        → HoldsUntil j t key
        → HoldsUntil j t (handle h (env_of settings i) now link f key).1
    unfolding handle try_acquire_lease heartbeat stop
    handle_apart starting key f j t other live h = acquire_apart now i j t live link key h
    handle_apart beating key f j t other live h = elim (Bool-cases f.is_owned) [
      | inl had ↦ elim (Bool-cases (is_open now)) [
        | inl opened ↦ simp (had, opened) (renew_apart now i j t live other link key h)
        | inr closed ↦ simp (had, closed) (release_apart now i j t live other link key h)
      ]
      | inr free ↦ elim (Bool-cases (is_open now)) [
        | inl opened ↦ simp (free, opened) (acquire_apart now i j t live link key h)
        | inr closed ↦ simp (free, closed) h
      ]
    ]
    handle_apart stopping key f j t other live h = elim (Bool-cases f.is_owned) [
      | inl had ↦ simp had (release_apart now i j t live other link key h)
      | inr free ↦ simp free h
    ]
