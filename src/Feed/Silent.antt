-- ===== src/Feed/Silent.antt =====
-- A process that is started before the session opens.
use trade_alpha.Base.{
  ℕ, ◌+◌, ◌<◌, ◌≤◌, ◌≡◌, refl, sym, subst, true, false, none, Option, List, [], ◌∷◌, arith,
}
use trade_alpha.Session.{is_open}
use trade_alpha.Lease.{Lease, answered, set_nx, lua_heartbeat, granted, get}
use trade_alpha.Feed.{
  FeedLeaseService, Settings, start, try_acquire_lease, after_acquire, start_simulations, heartbeat,
  after_heartbeat,
}

module _ {N : Type 0} (env : Settings N) where
  -- Heartbeats at the given times, each of which is answered.
  pub beats : List ℕ → FeedLeaseService N → Option Lease → FeedLeaseService N × Option Lease
  beats [] f key = (f, key)
  beats (now ∷ times) f key =
      let after = heartbeat env now answered f key in beats times after.0 after.1

  -- The session is open at the given times, of which each comes less than 15 seconds after the last.
  abbrev pub AreTimely : ℕ → List ℕ → Type 0
  AreTimely before [] = Unit {0}
  AreTimely before (now ∷ times) =
      (is_open now ≡ true) × (before ≤ now) × (now < before + 15) × AreTimely now times

  one_beat :
      (before now : ℕ) (f : FeedLeaseService N)
      → f.is_owned ≡ true
      → is_open now ≡ true
      → now < before + 15
      → heartbeat env now answered f (granted before env.process_token)
        ≡ (record f { confirmed_at = now }, granted now env.process_token)
  unfolding heartbeat lua_heartbeat after_heartbeat
  one_beat before now f owned opened timely = ground arith

  -- The process owns the lease, and its simulations are as before.
  abbrev pub StaysIdle : FeedLeaseService N → FeedLeaseService N × Option Lease → Type 0
  StaysIdle f after = (after.0.is_owned ≡ true) × (after.0.simulator ≡ f.simulator)

  kept_idle :
      (times : List ℕ) (before : ℕ) (f : FeedLeaseService N)
      → f.is_owned ≡ true
      → AreTimely before times
      → StaysIdle f (beats times f (granted before env.process_token))
  unfolding beats
  kept_idle [] before f owned timely = (owned, refl)
  kept_idle (now ∷ times) before f owned timely =
      subst (λ r. StaysIdle f (beats times r.0 r.1))
        (sym (one_beat before now f owned timely.0 timely.2))
        (kept_idle times now (record f { confirmed_at = now }) owned timely.3)

  closed_start :
      (begun : ℕ) (f : FeedLeaseService N) (key : Option Lease)
      → f.is_owned ≡ false
      → is_open begun ≡ false
      → get begun key ≡ none
      → start env begun answered f key
        ≡ (record f { is_owned = true; confirmed_at = begun }, granted begun env.process_token)
  unfolding try_acquire_lease after_acquire start_simulations set_nx
  closed_start begun f key free closed vacant = ground arith

  -- A process that is started while the session is closed and the lease is free, and whose
  -- heartbeats then all come in the open session, each less than 15 seconds after the last, and
  -- are answered, owns the lease throughout and starts no simulation.
  pub silent_session :
      (begun : ℕ) (times : List ℕ) (f : FeedLeaseService N) (key : Option Lease)
      → f.is_owned ≡ false
      → is_open begun ≡ false
      → get begun key ≡ none
      → AreTimely begun times
      → let started = start env begun answered f key in
        StaysIdle f (beats times started.0 started.1)
  silent_session begun times f key free closed vacant timely =
      subst (λ r. StaysIdle f (beats times r.0 r.1))
        (sym (closed_start begun f key free closed vacant))
        (kept_idle times begun (record f { is_owned = true; confirmed_at = begun }) refl timely)
