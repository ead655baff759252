-- ===== src/Engine/Cluster.antt =====
-- Several engines and the leases of the symbols.
use trade_alpha.Base.{
  ℕ, ◌+◌, ◌≡◌, ◌==◌, Bool, true, ◌&&◌, Option, none, some, [], String, str_eq, if◌then◌else◌,
}
use trade_alpha.Lease.{Lease, Link, over, set_nx, lua_heartbeat}
use trade_alpha.Engine.{Engine}
use trade_alpha.Engine.Leases.{Keys, put_key, acquire_one, heartbeat_one}

-- The keys, the engines by their tokens, and the time. `confirmed` is not in the code: the second of
-- the last positive answer to an engine for a symbol.
pub record Cluster : Type 0 where
  pub keys : Keys
  pub engines : ℕ → Engine
  pub confirmed : ℕ → String → ℕ
  pub now : ℕ

abbrev pub confirmed_after : ℕ → Option Bool → ℕ → ℕ
confirmed_after now (some true) at = now
confirmed_after now _ at = at

-- An engine and the key of a symbol are replaced.
unfoldable pub put : ℕ → String → Engine → Option Lease → ℕ → Cluster → Cluster
put i symbol e key at s = record s {
  keys = put_key symbol key s.keys;
  engines = λ j. if j == i then e else s.engines j;
  confirmed = λ j b. if j == i && str_eq symbol b then at else s.confirmed j b;
}

-- A process that has exited owns nothing.
abbrev pub or_exited : Engine → Option Engine → Engine
or_exited e none = record e { owned_symbols = [] }
or_exited e (some e') = e'

unfoldable pub acquired : ℕ → String → Link → Cluster → Cluster
acquired i symbol link s =
    let after = acquire_one i s.now link symbol (s.engines i) (s.keys symbol) in
    let answer = (over link (set_nx s.now i) (s.keys symbol)).1 in
    put i symbol (or_exited (s.engines i) after.0) after.1
      (confirmed_after s.now answer (s.confirmed i symbol)) s

unfoldable pub beaten : ℕ → String → Link → Cluster → Cluster
beaten i symbol link s =
    let after = heartbeat_one i s.now link symbol (s.engines i) (s.keys symbol) in
    let answer = (over link (lua_heartbeat s.now i) (s.keys symbol)).1 in
    put i symbol after.0 after.1 (confirmed_after s.now answer (s.confirmed i symbol)) s

-- An engine takes or renews one lease, does other work that leaves its symbols alone, or time
-- passes. No engine gives a lease back.
pub data ClusterStep (s : Cluster) : Cluster → Type 0 where
  acquires : (i : ℕ) (symbol : String) (link : Link) → ClusterStep s (acquired i symbol link s)
  beats : (i : ℕ) (symbol : String) (link : Link) → ClusterStep s (beaten i symbol link s)
  works :
      (i : ℕ) (e : Engine)
      → e.owned_symbols ≡ (s.engines i).owned_symbols
      → ClusterStep s (record s { engines = λ j. if j == i then e else s.engines j })
  waits : (seconds : ℕ) → ClusterStep s (record s { now = s.now + seconds })

pub data ClusterRun (s : Cluster) : Cluster → Type 0 where
  at_first : ClusterRun s s
  then_next : {t u : Cluster} → ClusterRun s t → ClusterStep t u → ClusterRun s u
