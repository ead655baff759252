-- ===== src/Engine/Exclusive.antt =====
-- Several engines: for every symbol at most one that has heard from Redis owns it.
use trade_alpha.Base.{
  ℕ, ◌+◌, ◌<◌, ◌≤◌, ◌≡◌, refl, ◌≢◌, ◌⊎◌, ◌==◌, ltb, Bool, true, false, Option, none, some, List, [],
  ◌∷◌, ◌++◌, String, str_eq, str_eq_iff, arith, Bool-cases, inl, inr, if◌then◌else◌, subst, not,
  sym,
}
use trade_alpha.Store.Tables.{filter_where}
use trade_alpha.Lease.{Lease, Link, over, granted, set_nx, lua_heartbeat}
use trade_alpha.Lease.Exclusion.{
  HoldsUntil, HoldsUntil-unique, acquire_apart, renew_apart, renewal_keeps, acquired_holds,
  renewed_holds,
}
use trade_alpha.Engine.{Engine, contains}
use trade_alpha.Engine.Handlers.{handle_lease_loss}
use trade_alpha.Engine.Books.{not_contained}
use trade_alpha.Engine.Cluster.{
  Cluster, ClusterStep, ClusterRun, at_first, then_next, acquires, beats, works, waits, acquired,
  beaten, put, or_exited, confirmed_after,
}
use trade_alpha.Engine.Leases.{own_symbol, after_set, acquire_one, after_heartbeat, heartbeat_one}

-- As long as the last positive answer is recent, the lease is the engine's own until then.
abbrev Guarded : ℕ → ℕ → ℕ → Option Lease → Type 0
Guarded now token at key = (at ≤ now) × (now < at + 15 → HoldsUntil token (at + 15) key)

pub IsExclusive : Cluster → Type 0
IsExclusive s =
    (i : ℕ) (b : String)
    → contains (s.engines i).owned_symbols b ≡ true
    → Guarded s.now i (s.confirmed i b) (s.keys b)

put-IsExclusive :
    (s : Cluster) (i : ℕ) (symbol : String) (e : Engine) (key : Option Lease) (at : ℕ)
    → (contains e.owned_symbols symbol ≡ true → Guarded s.now i at key)
    → ((b : String)
        → str_eq symbol b ≡ false
        → contains e.owned_symbols b ≡ true
        → contains (s.engines i).owned_symbols b ≡ true)
    → ((j t : ℕ) → j ≢ i → s.now < t → HoldsUntil j t (s.keys symbol) → HoldsUntil j t key)
    → IsExclusive s
    → IsExclusive (put i symbol e key at s)
unfolding IsExclusive put
put-IsExclusive s i symbol e key at own others apart all j b owned = elim (Bool-cases (j == i)) [
  | inl same ↦
      let mine : contains e.owned_symbols b ≡ true = simp same at owned in
      let i_eq_j : i ≡ j = ground arith in
      elim (Bool-cases (str_eq symbol b)) [
        | inl hit ↦
            let at_symbol =
              subst (λ x. contains e.owned_symbols x ≡ true) (sym ((str_eq_iff symbol b).0 hit))
                mine in
            simp (same, hit) (subst (λ k. Guarded s.now k at key) i_eq_j (own at_symbol))
        | inr miss ↦
            simp (same, miss)
              (all j b (
                subst (λ k. contains (s.engines k).owned_symbols b ≡ true) i_eq_j
                  (others b miss mine)))
      ]
  | inr other ↦
      let theirs = simp other at owned in
      elim (Bool-cases (str_eq symbol b)) [
        | inl hit ↦
            let b_eq = (str_eq_iff symbol b).0 hit in
            let before = all j b theirs in
            simp (other, hit)
              (
                before.0,
                λ live. apart j (s.confirmed j b + 15) (ground arith) live (
                    subst (λ x. HoldsUntil j (s.confirmed j b + 15) (s.keys x)) (sym b_eq)
                      (before.1 live)),
              )
        | inr miss ↦ simp (other, miss) (all j b theirs)
      ]
]

own_symbol_others :
    (symbol b : String) (xs : List String)
    → str_eq symbol b ≡ false
    → contains (xs ++ symbol ∷ []) b ≡ contains xs b
unfolding contains
own_symbol_others symbol b [] miss = ground arith
own_symbol_others symbol b (x ∷ xs) miss = ground (arith, own_symbol_others symbol b xs miss)

kept_others :
    (symbol b : String) (xs : List String)
    → contains (filter_where (λ x. not (str_eq x symbol)) xs) b ≡ true
    → contains xs b ≡ true
unfolding contains filter_where
kept_others symbol b [] h = h
kept_others symbol b (x ∷ xs) h = ground (arith, kept_others symbol b xs)

own_acquired :
    (now i : ℕ) (symbol : String) (answer : Option Bool) (key : Option Lease) (at : ℕ) (e : Engine)
    → (answer ≡ some true → key ≡ granted now i)
    → contains (or_exited e (after_set symbol answer e)).owned_symbols symbol ≡ true
    → Guarded now i (confirmed_after now answer at) key
unfolding contains
own_acquired now i symbol (some true) key at e won owned =
    (omega arith, λ live. rw (won refl) (refl, omega arith))
own_acquired now i symbol (some false) key at e won owned = cc
own_acquired now i symbol none key at e won owned = cc

others_acquired :
    (symbol : String) (answer : Option Bool) (e : Engine) (b : String)
    → str_eq symbol b ≡ false
    → contains (or_exited e (after_set symbol answer e)).owned_symbols b ≡ true
    → contains e.owned_symbols b ≡ true
unfolding contains own_symbol
others_acquired symbol (some true) e b miss owned =
    ground (arith, own_symbol_others symbol b e.owned_symbols)
others_acquired symbol (some false) e b miss owned = cc
others_acquired symbol none e b miss owned = cc

own_beaten :
    (now i : ℕ) (symbol : String) (answer : Option Bool) (key key' : Option Lease) (at : ℕ)
    (e : Engine)
    → (answer ≡ some true → key' ≡ granted now i)
    → ((t : ℕ) → t ≤ now + 15 → HoldsUntil i t key → HoldsUntil i t key')
    → (contains e.owned_symbols symbol ≡ true → Guarded now i at key)
    → contains (after_heartbeat symbol answer e).owned_symbols symbol ≡ true
    → Guarded now i (confirmed_after now answer at) key'
unfolding handle_lease_loss
own_beaten now i symbol (some true) key key' at e won keep before owned =
    (omega arith, λ live. rw (won refl) (refl, omega arith))
own_beaten now i symbol (some false) key key' at e won keep before owned =
    cc (not_contained symbol e.owned_symbols)
own_beaten now i symbol none key key' at e won keep before owned = (
  (before owned).0,
  λ live. keep (at + 15) (omega (arith, (before owned).0)) ((before owned).1 live),
)

others_beaten :
    (symbol : String) (answer : Option Bool) (e : Engine) (b : String)
    → contains (after_heartbeat symbol answer e).owned_symbols b ≡ true
    → contains e.owned_symbols b ≡ true
unfolding handle_lease_loss
others_beaten symbol (some true) e b owned = owned
others_beaten symbol (some false) e b owned = kept_others symbol b e.owned_symbols owned
others_beaten symbol none e b owned = owned

acquired-IsExclusive :
    (s : Cluster) (i : ℕ) (symbol : String) (link : Link)
    → IsExclusive s
    → IsExclusive (acquired i symbol link s)
unfolding acquired acquire_one
acquired-IsExclusive s i symbol link all =
    let answer = (over link (set_nx s.now i) (s.keys symbol)).1 in
    let key = (over link (set_nx s.now i) (s.keys symbol)).0 in
    put-IsExclusive s i symbol (or_exited (s.engines i) (after_set symbol answer (s.engines i))) key
      (confirmed_after s.now answer (s.confirmed i symbol))
      (own_acquired s.now i symbol answer key (s.confirmed i symbol) (s.engines i)
        (acquired_holds s.now i link (s.keys symbol)))
      (others_acquired symbol answer (s.engines i))
      (λ j t other live. acquire_apart s.now i j t live link (s.keys symbol)) all

beaten-IsExclusive :
    (s : Cluster) (i : ℕ) (symbol : String) (link : Link)
    → IsExclusive s
    → IsExclusive (beaten i symbol link s)
unfolding beaten heartbeat_one IsExclusive
beaten-IsExclusive s i symbol link all =
    let answer = (over link (lua_heartbeat s.now i) (s.keys symbol)).1 in
    let key = (over link (lua_heartbeat s.now i) (s.keys symbol)).0 in
    put-IsExclusive s i symbol (after_heartbeat symbol answer (s.engines i)) key
      (confirmed_after s.now answer (s.confirmed i symbol))
      (own_beaten s.now i symbol answer (s.keys symbol) key (s.confirmed i symbol) (s.engines i)
        (renewed_holds s.now i link (s.keys symbol))
        (λ t within. renewal_keeps s.now i t link (s.keys symbol) within) (all i symbol))
      (λ b _. others_beaten symbol answer (s.engines i) b)
      (λ j t other live. renew_apart s.now i j t live other link (s.keys symbol)) all

worked-IsExclusive :
    (s : Cluster) (i : ℕ) (e : Engine)
    → e.owned_symbols ≡ (s.engines i).owned_symbols
    → IsExclusive s
    → IsExclusive (record s { engines = λ j. if j == i then e else s.engines j })
unfolding IsExclusive
worked-IsExclusive s i e same all j b owned = all j b (elim (Bool-cases (j == i)) [
  | inl hit ↦
      let before : contains (s.engines i).owned_symbols b ≡ true =
        subst (λ xs. contains xs b ≡ true) same (simp hit at owned) in
      subst (λ k. contains (s.engines k).owned_symbols b ≡ true) (ground arith) before
  | inr miss ↦ (simp miss at owned)
])

ClusterStep-IsExclusive : {s s' : Cluster} → ClusterStep s s' → IsExclusive s → IsExclusive s'
unfolding IsExclusive
ClusterStep-IsExclusive {s} (acquires i symbol link) all = acquired-IsExclusive s i symbol link all
ClusterStep-IsExclusive {s} (beats i symbol link) all = beaten-IsExclusive s i symbol link all
ClusterStep-IsExclusive {s} (works i e same) all = worked-IsExclusive s i e same all
ClusterStep-IsExclusive {s} (waits seconds) all = λ i b owned.
    let before = all i b owned in (omega (arith, before.0), λ live. before.1 (omega arith))

ClusterRun-IsExclusive : {s s' : Cluster} → ClusterRun s s' → IsExclusive s → IsExclusive s'
ClusterRun-IsExclusive at_first h = h
ClusterRun-IsExclusive (then_next r st) h = ClusterStep-IsExclusive st (ClusterRun-IsExclusive r h)

-- No engine owns a symbol.
unfoldable pub HasNoOwner : Cluster → Type 0
HasNoOwner s = (i : ℕ) → (s.engines i).owned_symbols ≡ []

HasNoOwner-IsExclusive : (s : Cluster) → HasNoOwner s → IsExclusive s
unfolding HasNoOwner IsExclusive contains
HasNoOwner-IsExclusive s h i b owned =
    let impossible : false ≡ true = subst (λ xs. contains xs b ≡ true) (h i) owned in cc

-- However the engines take and renew leases, with commands to Redis that are lost or whose answers
-- are lost, and as long as none gives a lease back: if two engines own a symbol, then they are one
-- engine, or the last positive answer to one of them for the symbol is at least 15 seconds old. At
-- first no engine owns a symbol.
pub single_owner :
    {s s' : Cluster}
    → HasNoOwner s
    → ClusterRun s s'
    → (i j : ℕ) (b : String) → contains (s'.engines i).owned_symbols b ≡ true
    → contains (s'.engines j).owned_symbols b ≡ true
    → (i ≡ j) ⊎ (s'.confirmed i b + 15 ≤ s'.now) ⊎ (s'.confirmed j b + 15 ≤ s'.now)
unfolding IsExclusive
single_owner {s} {s'} none_yet r i j b own_i own_j =
    let all = ClusterRun-IsExclusive r (HasNoOwner-IsExclusive s none_yet) in
    elim (Bool-cases (ltb s'.now (s'.confirmed i b + 15))) [
      | inr late ↦ inr (inl (ground arith))
      | inl live_i ↦ elim (Bool-cases (ltb s'.now (s'.confirmed j b + 15))) [
        | inr late ↦ inr (inr (ground arith))
        | inl live_j ↦ inl (
            HoldsUntil-unique i j (s'.confirmed i b + 15) (s'.confirmed j b + 15) (s'.keys b)
              ((all i b own_i).1 (ground arith)) ((all j b own_j).1 (ground arith)))
      ]
    ]
