-- ===== src/Feed.antt =====
-- apps/api/src/main.feed.ts: the processes that feed the market, of which the holder of the lease
-- `feed:global` runs the simulations. Instants are seconds, as in Session; what a prices is, is a
-- parameter (Simulator). Every handler sends at most one command to Redis.
pub mod Fenced
pub mod Leased
pub mod Single
pub mod Silent
pub mod Tests
use trade_alpha.Base.{
  ℕ, Bool, true, false, not, Option, none, some, List, [], ◌∷◌, String, if◌then◌else◌,
}
use trade_alpha.Session.{is_open}
use trade_alpha.Lease.{Lease, Link, over, set_nx, lua_heartbeat, lua_release}
use trade_alpha.Simulator.{Simulator, SimulationConfig, start_simulation, stop_each}

-- A process. `confirmed_at` is not in the code, which never reads it: the second of the last
-- positive answer of Redis, for statements about time.
pub record FeedLeaseService (N : Type 0) : Type 0 where
  pub is_owned : Bool
  pub simulator : Simulator N
  pub confirmed_at : ℕ

abbrev pub feed_symbols : List String
feed_symbols = "RELIANCE" ∷ "TCS" ∷ "INFY" ∷ "HDFCBANK" ∷ []

-- What the environment of a process says: its token, DISABLE_MARKET_SIMULATOR, and the numbers
-- `initialPrice` and `volatility`.
pub record Settings (N : Type 0) : Type 0 where
  pub process_token : ℕ
  pub disabled : Bool
  pub initial_price : N
  pub volatility : N

module _ {N : Type 0} where
  abbrev pub config_of : Settings N → String → SimulationConfig N
  config_of env symbol = record {
    symbol = symbol;
    initial_price = env.initial_price;
    volatility = env.volatility;
  }

  unfoldable pub start_each : Settings N → List String → Simulator N → Simulator N
  start_each env [] s = s
  start_each env (symbol ∷ symbols) s =
      start_each env symbols (start_simulation (config_of env symbol) s)

  unfoldable pub start_simulations : Settings N → ℕ → FeedLeaseService N → FeedLeaseService N
  start_simulations env now f =
      if env.disabled
      then f
      else if not (is_open now)
      then f
      else record f { simulator = start_each env feed_symbols f.simulator }

  unfoldable pub stop_simulations : FeedLeaseService N → FeedLeaseService N
  stop_simulations f = record f { simulator = stop_each feed_symbols f.simulator }

  -- What follows the answer of `set`; no answer is an error, which is logged.
  unfoldable pub after_acquire :
      Settings N → ℕ → Option Bool → FeedLeaseService N → FeedLeaseService N
  after_acquire env now none f = f
  after_acquire env now (some false) f = f
  after_acquire env now (some true) f =
      if f.is_owned
      then record f { confirmed_at = now }
      else start_simulations env now (record f { is_owned = true; confirmed_at = now })

  unfoldable pub try_acquire_lease :
      Settings N → ℕ → Link → FeedLeaseService N → Option Lease → FeedLeaseService N × Option Lease
  try_acquire_lease env now link f key =
      let (key', answer) = over link (set_nx now env.process_token) key in
      (after_acquire env now answer f, key')

  abbrev pub lose : FeedLeaseService N → FeedLeaseService N
  lose f = stop_simulations (record f { is_owned = false })

  unfoldable pub after_heartbeat : ℕ → Option Bool → FeedLeaseService N → FeedLeaseService N
  after_heartbeat now (some true) f = record f { confirmed_at = now }
  after_heartbeat now (some false) f = lose f
  after_heartbeat now none f = lose f

  unfoldable pub heartbeat :
      Settings N → ℕ → Link → FeedLeaseService N → Option Lease → FeedLeaseService N × Option Lease
  heartbeat env now link f key =
      if not f.is_owned
      then (if is_open now then try_acquire_lease env now link f key else (f, key))
      else if not (is_open now)
      then (lose f, (over link (lua_release now env.process_token) key).0)
      else (let (key', answer) = over link (lua_heartbeat now env.process_token) key in
          (after_heartbeat now answer f, key'))

  -- The first attempt of `start`.
  abbrev pub start :
      Settings N → ℕ → Link → FeedLeaseService N → Option Lease → FeedLeaseService N × Option Lease
  start = try_acquire_lease

  unfoldable pub stop :
      Settings N → ℕ → Link → FeedLeaseService N → Option Lease → FeedLeaseService N × Option Lease
  stop env now link f key = (
    stop_simulations f,
    if f.is_owned then (over link (lua_release now env.process_token) key).0 else key,
  )
