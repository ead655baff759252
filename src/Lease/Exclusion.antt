-- ===== src/Lease/Exclusion.antt =====
-- A lease has one holder, and nobody else can end it early.
use trade_alpha.Base.{ℕ, ◌+◌, ◌<◌, ◌≤◌, ◌≡◌, ◌≢◌, sym, ◌∙◌, Bool, true, Option, none, some, arith}
use trade_alpha.Lease.{
  Lease, Link, answered, unreachable, reply_lost, over, set_nx, lua_heartbeat, lua_release, granted,
}

-- The key names the token, and expires at `t` or later.
abbrev pub HoldsUntil : ℕ → ℕ → Option Lease → Type 0
HoldsUntil token t none = ⊥
HoldsUntil token t (some l) = (l.holder ≡ token) × (t ≤ l.expires)

pub HoldsUntil-unique :
    (i j t u : ℕ) (key : Option Lease) → HoldsUntil i t key → HoldsUntil j u key → i ≡ j
HoldsUntil-unique i j t u none h k = absurd h
HoldsUntil-unique i j t u (some l) h k = sym h.0 ∙ k.0

over-HoldsUntil :
    (j t : ℕ) (link : Link) (command : Option Lease → Option Lease × Bool) (key : Option Lease)
    → HoldsUntil j t (command key).0
    → HoldsUntil j t key
    → HoldsUntil j t (over link command key).0
over-HoldsUntil j t answered command key done h = done
over-HoldsUntil j t unreachable command key done h = h
over-HoldsUntil j t reply_lost command key done h = done

module _ (now i j t : ℕ) (live : now < t) where
  set_nx-HoldsUntil :
      (key : Option Lease) → HoldsUntil j t key → HoldsUntil j t (set_nx now i key).0
  unfolding set_nx
  set_nx-HoldsUntil none h = absurd h
  set_nx-HoldsUntil (some l) h = ground arith

  -- An attempt to acquire leaves a live lease alone.
  pub acquire_apart :
      (link : Link) (key : Option Lease)
      → HoldsUntil j t key
      → HoldsUntil j t (over link (set_nx now i) key).0
  acquire_apart link key h = over-HoldsUntil j t link (set_nx now i) key (set_nx-HoldsUntil key h) h

  module _ (other : j ≢ i) where
    lua_heartbeat-HoldsUntil :
        (key : Option Lease) → HoldsUntil j t key → HoldsUntil j t (lua_heartbeat now i key).0
    unfolding lua_heartbeat
    lua_heartbeat-HoldsUntil none h = absurd h
    lua_heartbeat-HoldsUntil (some l) h = ground arith

    lua_release-HoldsUntil :
        (key : Option Lease) → HoldsUntil j t key → HoldsUntil j t (lua_release now i key).0
    unfolding lua_release
    lua_release-HoldsUntil none h = absurd h
    lua_release-HoldsUntil (some l) h = ground arith

    -- What another process sends leaves a live lease alone.
    pub renew_apart :
        (link : Link) (key : Option Lease)
        → HoldsUntil j t key
        → HoldsUntil j t (over link (lua_heartbeat now i) key).0
    renew_apart link key h =
        over-HoldsUntil j t link (lua_heartbeat now i) key (lua_heartbeat-HoldsUntil key h) h

    pub release_apart :
        (link : Link) (key : Option Lease)
        → HoldsUntil j t key
        → HoldsUntil j t (over link (lua_release now i) key).0
    release_apart link key h =
        over-HoldsUntil j t link (lua_release now i) key (lua_release-HoldsUntil key h) h

-- A renewal never shortens a lease, whatever becomes of it.
pub renewal_keeps :
    (now i t : ℕ) (link : Link) (key : Option Lease)
    → t ≤ now + 15
    → HoldsUntil i t key
    → HoldsUntil i t (over link (lua_heartbeat now i) key).0
unfolding lua_heartbeat
renewal_keeps now i t link none within h = absurd h
renewal_keeps now i t answered (some l) within h = ground arith
renewal_keeps now i t unreachable (some l) within h = h
renewal_keeps now i t reply_lost (some l) within h = ground arith

-- A positive answer means a lease of 15 seconds.
pub acquired_holds :
    (now i : ℕ) (link : Link) (key : Option Lease)
    → (over link (set_nx now i) key).1 ≡ some true
    → (over link (set_nx now i) key).0 ≡ granted now i
unfolding set_nx
acquired_holds now i link key h = ground arith

pub renewed_holds :
    (now i : ℕ) (link : Link) (key : Option Lease)
    → (over link (lua_heartbeat now i) key).1 ≡ some true
    → (over link (lua_heartbeat now i) key).0 ≡ granted now i
unfolding lua_heartbeat
renewed_holds now i link key h = ground arith
