-- ===== src/Lease.antt =====
-- A lease in Redis: a key that names its holder and expires. The scripts LUA_HEARTBEAT and
-- LUA_RELEASE of apps/api/src/main.feed.ts and apps/api/src/engine/trading-engine.ts, and the
-- commands `set … EX 15 NX`, `get`, `expire` and `del` on one key as Redis documents them. Instants
-- count seconds; a holder is the token of a process.
pub mod Exclusion
use trade_alpha.Base.{ℕ, ◌+◌, ◌==◌, ltb, Bool, true, false, Option, none, some, if◌then◌else◌}

pub record Lease : Type 0 where
  pub holder : ℕ
  pub expires : ℕ

abbrev pub lease_seconds : ℕ
lease_seconds = 15

-- `get`: a key that has expired is gone.
abbrev pub get : ℕ → Option Lease → Option ℕ
get now none = none
get now (some l) = if ltb now l.expires then some l.holder else none

abbrev pub is_held_by : ℕ → ℕ → Option Lease → Bool
is_held_by now token key = elim (get now key) [ none ↦ false | some holder ↦ holder == token ]

abbrev pub granted : ℕ → ℕ → Option Lease
granted now token = some (record { holder = token; expires = now + lease_seconds })

-- `set(key, token, 'EX', 15, 'NX')`
unfoldable pub set_nx : ℕ → ℕ → Option Lease → Option Lease × Bool
set_nx now token key = elim (get now key) [
  | none ↦ (granted now token, true)
  | some _ ↦ (key, false)
]

unfoldable pub lua_heartbeat : ℕ → ℕ → Option Lease → Option Lease × Bool
lua_heartbeat now token key =
    if is_held_by now token key then (granted now token, true) else (key, false)

unfoldable pub lua_release : ℕ → ℕ → Option Lease → Option Lease × Bool
lua_release now token key = if is_held_by now token key then (none, true) else (key, false)

-- How a command fares: it is answered, it does not arrive, or it is carried out and the answer is
-- lost. The last two throw.
pub data Link : Type 0 where
  answered unreachable reply_lost : Link

abbrev pub over :
    Link → (Option Lease → Option Lease × Bool) → Option Lease → Option Lease × Option Bool
over answered command key = ((command key).0, some (command key).1)
over unreachable command key = (key, none)
over reply_lost command key = ((command key).0, none)
