-- ===== src/Engine/Tests.antt =====
-- An engine with one order in its book.
use trade_alpha.Base.{
  ℕ, ◌+◌, ◌≤◌, ◌≡◌, refl, ◌⊎◌, true, false, none, some, List, All, [], ◌∷◌, arith,
}
use trade_alpha.Int.{pos, ◌+ℤ◌, ◌-ℤ◌, ◌*ℤ◌, ◌≤ℤ◌, min_ℤ}
use trade_alpha.Store.Rows.{Store, Order, buy, sell, limit, pending}
use trade_alpha.Store.Tables.{find, update_where}
use trade_alpha.Liquidity.{get_liquidity_profile, calculate_executable_price}
use trade_alpha.Engine.{
  Engine, EngineOrder, Job, contains, new_entry, job_for, change_entry, trigger_execution,
  evaluate_limit, evaluate_order,
}
use trade_alpha.Engine.Handlers.{evaluate_book, handle_tick}
use trade_alpha.Lease.{answered, set_nx}
use trade_alpha.Engine.Leases.{acquire_one, own_symbol}
use trade_alpha.Engine.Cluster.{
  Cluster, ClusterRun, at_first, then_next, acquires, waits, acquired, put,
}
use trade_alpha.Engine.Exclusive.{HasNoOwner, single_owner}
use trade_alpha.Engine.Dispatch.{IsFor, limit_respected}
use trade_alpha.Engine.Books.{
  Holds, BookEvent, adds, evaluates, handle_book_events, IsBehind, dispatched_once,
}

-- A purchase of 300 shares of TCS at 250.
abbrev order : Order
order = record {
  id = 3;
  user_id = 7;
  portfolio_id = 1;
  symbol = "TCS";
  side = buy;
  order_type = limit;
  requested_quantity = pos 3_000_000;
  filled_quantity = pos 0;
  limit_price = some (pos 2_500_000);
  stop_price = none;
  status = pending;
  idempotency_key = "k1";
  reservation_price = some (pos 2_500_000);
  reserved_margin = none;
  is_liquidation = false;
  is_activated = false;
}

abbrev entry : EngineOrder
entry = new_entry 0 order none

abbrev engine : Engine
engine = record {
  owned_symbols = "TCS" ∷ [];
  orders = ("TCS", entry ∷ []) ∷ [];
  jobs = [];
  next_ref = 1;
}

abbrev store : Store
store = record {
  portfolios = [];
  positions = [];
  orders = order ∷ [];
  fills = [];
  ledger = [];
  outbox = [];
  next_id = 10;
}

abbrev no_interim : Engine → Engine
no_interim e = e

-- A tick at 249.00 dispatches the depth of the market, 200 shares.
abbrev after_tick : Engine
after_tick = (handle_tick no_interim "TCS" (pos 2_490_000) engine store).0

first_job : after_tick.jobs ≡ job_for entry (pos 2_490_000) ∷ []
unfolding handle_tick evaluate_book evaluate_order evaluate_limit trigger_execution change_entry
    contains find update_where calculate_executable_price get_liquidity_profile ◌+ℤ◌ ◌-ℤ◌ ◌*ℤ◌
first_job = refl

first_quantity : (job_for entry (pos 2_490_000)).quantity ≡ pos 2_000_000
unfolding job_for get_liquidity_profile min_ℤ ◌-ℤ◌
first_quantity = refl

limit_respected_example :
    let e' = (evaluate_order no_interim entry (pos 2_490_000) engine store).0 in
    (e'.jobs ≡ [])
    ⊎ ((job : Job) × (e'.jobs ≡ job ∷ [])
        × IsFor order job
        × (((buy ≡ sell) ⊎ (job.price ≤ℤ pos 2_500_000))
            × ((buy ≡ buy) ⊎ (pos 2_500_000 ≤ℤ job.price))))
limit_respected_example =
    limit_respected no_interim entry (pos 2_500_000) (pos 2_490_000) engine store refl refl

engine-Holds : Holds engine order entry
unfolding contains find
engine-Holds = (refl, refl)

-- It is added again while nothing or half of the job is filled.
abbrev events : List BookEvent
events =
    adds order none
    ∷ evaluates (pos 2_480_000)
    ∷ adds (record order { filled_quantity = pos 1_000_000 }) none
    ∷ evaluates (pos 2_470_000)
    ∷ []

events-IsBehind : All (IsBehind entry (pos 2_490_000) engine) events
unfolding job_for get_liquidity_profile min_ℤ ◌-ℤ◌ ◌+ℤ◌
events-IsBehind = ((refl, refl, omega arith), (tt, ((refl, refl, omega arith), (tt, tt))))

dispatched_once_example :
    let e' = trigger_execution entry (pos 2_490_000) engine in
    (e'.jobs ≡ job_for entry (pos 2_490_000) ∷ [])
    × (handle_book_events no_interim order events e' store ≡ (e', store))
dispatched_once_example =
    dispatched_once entry (pos 2_490_000) engine no_interim events store engine-Holds (omega arith)
      events-IsBehind

owned_here : contains ("TCS" ∷ []) "TCS" ≡ true
unfolding contains
owned_here = refl

-- Two engines of one cluster, one after the other.
abbrev no_engine : Engine
no_engine = record { owned_symbols = []; orders = []; jobs = []; next_ref = 1 }

abbrev at_first_second : Cluster
at_first_second = record {
  keys = λ _. none;
  engines = λ _. no_engine;
  confirmed = λ _ _. 0;
  now = 100;
}

abbrev one_engine : Cluster
one_engine = acquired 1 "TCS" answered at_first_second

abbrev two_engines : Cluster
two_engines = acquired 2 "TCS" answered (record one_engine { now = one_engine.now + 20 })

two_engines_run : ClusterRun at_first_second two_engines
two_engines_run =
    then_next (then_next (then_next at_first (acquires 1 "TCS" answered)) (waits 20))
      (acquires 2 "TCS" answered)

no_owner : HasNoOwner at_first_second
unfolding HasNoOwner
no_owner i = refl

both_own :
    (contains (two_engines.engines 1).owned_symbols "TCS" ≡ true)
    × (contains (two_engines.engines 2).owned_symbols "TCS" ≡ true)
unfolding acquired acquire_one put set_nx own_symbol contains
both_own = (refl, refl)

single_owner_example :
    (◌≡◌ {A = ℕ} 1 2)
    ⊎ (two_engines.confirmed 1 "TCS" + 15 ≤ two_engines.now)
    ⊎ (two_engines.confirmed 2 "TCS" + 15 ≤ two_engines.now)
single_owner_example = single_owner no_owner two_engines_run 1 2 "TCS" both_own.0 both_own.1
