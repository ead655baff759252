-- ===== src/Feed/Single.antt =====
-- Several processes share one lease: at most one of them that has heard from Redis simulates.
use trade_alpha.Base.{
  ℕ, ◌+◌, ◌≤◌, ◌≡◌, ◌⊎◌, ◌==◌, ltb, false, Option, none, some, String, arith, inl, inr, Bool-cases,
  if◌then◌else◌, subst,
}
use trade_alpha.Lease.{Lease, Link}
use trade_alpha.Lease.Exclusion.{HoldsUntil-unique}
use trade_alpha.Simulator.{Timer}
use trade_alpha.Feed.{FeedLeaseService, Settings}
use trade_alpha.Feed.Fenced.{timer_at}
use trade_alpha.Feed.Leased.{
  Handler, handle, env_of, IsLeased, idle-IsLeased, handle-IsLeased, handle_apart,
}

-- The lease, the processes by their tokens, and the time.
pub record Market (N : Type 0) : Type 0 where
  pub key : Option Lease
  pub feeds : ℕ → FeedLeaseService N
  pub now : ℕ

-- No process owns the lease or simulates.
unfoldable pub AreIdle : {N : Type 0} → Market N → Type 0
AreIdle s =
    (i : ℕ) → ((s.feeds i).is_owned ≡ false) × ((j : String) → timer_at j (s.feeds i) ≡ none)

module _ {N : Type 0} (settings : ℕ → Settings N) where
  unfoldable pub after_handler : ℕ → Handler → Link → Market N → Market N
  after_handler i h link s =
      let after = handle h (env_of settings i) s.now link (s.feeds i) s.key in
      record s { key = after.1; feeds = λ j. if j == i then after.0 else s.feeds j }

  -- A handler of some process runs, or time passes.
  pub data MarketStep (s : Market N) : Market N → Type 0 where
    runs : (i : ℕ) (h : Handler) (link : Link) → MarketStep s (after_handler i h link s)
    waits : (seconds : ℕ) → MarketStep s (record s { now = s.now + seconds })

  pub data MarketRun (s : Market N) : Market N → Type 0 where
    at_first : MarketRun s s
    then_next : {t u : Market N} → MarketRun s t → MarketStep t u → MarketRun s u

  pub IsOrderly : Market N → Type 0
  IsOrderly s = (i : ℕ) → IsLeased s.now i s.key (s.feeds i)

  others-IsLeased :
      (i : ℕ) (h : Handler) (link : Link) (s : Market N) (j : ℕ)
      → (j == i) ≡ false
      → IsLeased s.now j s.key (s.feeds j)
      → IsLeased s.now j (after_handler i h link s).key (s.feeds j)
  unfolding after_handler
  others-IsLeased i h link s j other l = record {
    fenced = l.fenced;
    held = λ a t run live.
        handle_apart settings s.now link i h s.key (s.feeds i) j ((s.feeds j).confirmed_at + 15)
          (ground arith) live (l.held a t run live);
  }

  MarketStep-IsOrderly : {s s' : Market N} → MarketStep s s' → IsOrderly s → IsOrderly s'
  unfolding IsOrderly after_handler
  MarketStep-IsOrderly {s} (runs i h link) all j = elim (Bool-cases (j == i)) [
    | inl same ↦
        let after = handle h (env_of settings i) s.now link (s.feeds i) s.key in
        simp same (
          subst (λ k. IsLeased s.now k after.1 after.0) (ground arith)
            (handle-IsLeased settings s.now link i h s.key (s.feeds i) (all i)))
    | inr other ↦ simp other (others-IsLeased i h link s j other (all j))
  ]
  MarketStep-IsOrderly {s} (waits seconds) all j = record {
    fenced = (all j).fenced;
    held = λ a t run live. (all j).held a t run (omega arith);
  }

  MarketRun-IsOrderly : {s s' : Market N} → MarketRun s s' → IsOrderly s → IsOrderly s'
  MarketRun-IsOrderly at_first h = h
  MarketRun-IsOrderly (then_next r st) h = MarketStep-IsOrderly st (MarketRun-IsOrderly r h)

  AreIdle-IsOrderly : (s : Market N) → AreIdle s → IsOrderly s
  unfolding AreIdle IsOrderly
  AreIdle-IsOrderly s h i =
      idle-IsLeased s.now i s.key (s.feeds i)
        (record { listed = λ j _. (h i).1 j; fenced = λ _ j. (h i).1 j }) (h i).1

  -- However the handlers of the feed processes interleave, with commands to Redis that are lost or
  -- whose answers are lost: if two processes simulate, then they are one process, or the last
  -- positive answer to one of them is at least 15 seconds old. At first no process owns the lease
  -- or simulates.
  pub single_publisher :
      {s s' : Market N}
      → AreIdle s
      → MarketRun s s'
      → (i j : ℕ) (a b : String) (t u : Timer N) → timer_at a (s'.feeds i) ≡ some t
      → timer_at b (s'.feeds j) ≡ some u
      → (i ≡ j)
        ⊎ ((s'.feeds i).confirmed_at + 15 ≤ s'.now)
        ⊎ ((s'.feeds j).confirmed_at + 15 ≤ s'.now)
  unfolding IsOrderly
  single_publisher {s} {s'} idle r i j a b t u run_i run_j =
      let all = MarketRun-IsOrderly r (AreIdle-IsOrderly s idle) in
      elim (Bool-cases (ltb s'.now ((s'.feeds i).confirmed_at + 15))) [
        | inr late ↦ inr (inl (ground arith))
        | inl live_i ↦ elim (Bool-cases (ltb s'.now ((s'.feeds j).confirmed_at + 15))) [
          | inr late ↦ inr (inr (ground arith))
          | inl live_j ↦ inl (
              HoldsUntil-unique i j ((s'.feeds i).confirmed_at + 15)
                ((s'.feeds j).confirmed_at + 15) s'.key ((all i).held a t run_i (ground arith))
                ((all j).held b u run_j (ground arith)))
        ]
      ]
