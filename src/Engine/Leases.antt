-- ===== src/Engine/Leases.antt =====
-- The leases of an engine: how it takes them when it starts, renews them, and gives them back. The
-- key `engine:symbol:…` of every symbol holds the token of an engine.
use trade_alpha.Base.{
  ℕ, Bool, true, false, Option, none, some, List, [], ◌∷◌, ◌++◌, String, str_eq, if◌then◌else◌,
}
use trade_alpha.Lease.{Lease, Link, over, set_nx, lua_heartbeat, lua_release}
use trade_alpha.Engine.{Engine, contains}
use trade_alpha.Engine.Handlers.{handle_lease_loss}

-- The keys by their symbols.
abbrev pub Keys : Type 0
Keys = String → Option Lease

abbrev pub put_key : String → Option Lease → Keys → Keys
put_key symbol key keys other = if str_eq symbol other then key else keys other

-- `ownedSymbols.add`
unfoldable pub own_symbol : String → Engine → Engine
own_symbol symbol e =
    if contains e.owned_symbols symbol
    then e
    else record e { owned_symbols = e.owned_symbols ++ symbol ∷ [] }

-- What follows the answer of `set`: without a lease the process exits, and so it does with no
-- answer, which `start` throws.
abbrev pub after_set : String → Option Bool → Engine → Option Engine
after_set symbol (some true) e = some (own_symbol symbol e)
after_set symbol _ e = none

unfoldable pub acquire_one :
    ℕ → ℕ → Link → String → Engine → Option Lease → Option Engine × Option Lease
acquire_one token now link symbol e key =
    let (key', answer) = over link (set_nx now token) key in (after_set symbol answer e, key')

-- What a heartbeat does with the answer for a symbol. An error is logged.
abbrev pub after_heartbeat : String → Option Bool → Engine → Engine
after_heartbeat symbol (some true) e = e
after_heartbeat symbol (some false) e = handle_lease_loss symbol e
after_heartbeat symbol none e = e

unfoldable pub heartbeat_one : ℕ → ℕ → Link → String → Engine → Option Lease → Engine × Option Lease
heartbeat_one token now link symbol e key =
    let (key', answer) = over link (lua_heartbeat now token) key in
    (after_heartbeat symbol answer e, key')

-- The loops, with the second and the fate of the command of each symbol.
module _ (token : ℕ) (now : String → ℕ) (link : String → Link) where
  unfoldable pub acquire_leases : List String → Engine → Keys → Option Engine × Keys
  acquire_leases [] e keys = (some e, keys)
  acquire_leases (symbol ∷ symbols) e keys =
      let (after, key) = acquire_one token (now symbol) (link symbol) symbol e (keys symbol) in
      let keys' = put_key symbol key keys in
      elim after as (λ _. Option Engine × Keys) [
        | none ↦ (none, keys')
        | some e' ↦ acquire_leases symbols e' keys'
      ]

  unfoldable pub heartbeat_each : List String → Engine → Keys → Engine × Keys
  heartbeat_each [] e keys = (e, keys)
  heartbeat_each (symbol ∷ symbols) e keys =
      let (e', key) = heartbeat_one token (now symbol) (link symbol) symbol e (keys symbol) in
      heartbeat_each symbols e' (put_key symbol key keys)

  abbrev pub heartbeat : Engine → Keys → Engine × Keys
  heartbeat e = heartbeat_each e.owned_symbols e

  -- The loop over the scripts. One that throws ends it, and `none` says so.
  unfoldable pub release_each : List String → Keys → Option (Unit {0}) × Keys
  release_each [] keys = (some tt, keys)
  release_each (symbol ∷ symbols) keys =
      let (key, answer) = over (link symbol) (lua_release (now symbol) token) (keys symbol) in
      let keys' = put_key symbol key keys in
      elim answer as (λ _. Option (Unit {0}) × Keys) [
        | none ↦ (none, keys')
        | some _ ↦ release_each symbols keys'
      ]

  -- The symbols are cleared when every script has answered.
  unfoldable pub release_leases : Engine → Keys → Engine × Keys
  release_leases e keys =
      let (done, keys') = release_each e.owned_symbols keys in
      (elim done [ none ↦ e | some _ ↦ record e { owned_symbols = [] } ], keys')
