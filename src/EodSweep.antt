-- ===== src/EodSweep.antt =====
-- apps/api/src/services/eod-sweep.service.ts: what happens once at the end of a session, the expiry
-- of the orders that are still active and a snapshot of every portfolio. Times are those of Session.
-- The prices are a parameter: what is cached for each symbol. The snapshots are of one state of the
-- database, that after the last expiry.
pub mod Expiry
pub mod Blocked
pub mod Coverage
pub mod Paging
pub mod Twice
pub mod Once
pub mod Tests
use trade_alpha.Base.{
  ℕ, zero, suc, ◌+◌, ◌-◌, ◌/◌, ◌==◌, ltb, Bool, true, false, ◌&&◌, Option, none, some, List, [],
  ◌∷◌, map, if◌then◌else◌, take, drop, length, ◌*◌,
}
use trade_alpha.Int.{ℤ}
use trade_alpha.Column.{Column}
use trade_alpha.Store.Rows.{
  Store, Portfolio, Order, OrderStatus, accepted, pending, partially_filled,
}
use trade_alpha.Store.Tables.{find, filter_where}
use trade_alpha.Store.Tx.{Result, ok, err, not_found}
use trade_alpha.Session.{
  SessionStatus, opened, closed, day_of, day_seconds, time_text, opening_text, closing_text,
}
use trade_alpha.Valuation.{PriceCache, PortfolioValuation, get_valuation}
use trade_alpha.Positions.{has_portfolio_id}
use trade_alpha.Orders.Closing.{expire_order}

abbrev pub is_sweepable : OrderStatus → Bool
is_sweepable accepted = true
is_sweepable pending = true
is_sweepable partially_filled = true
is_sweepable _ = false

-- A row of `portfolio_snapshots`. The date is the number of its day.
pub record PortfolioSnapshot : Type 0 where
  pub portfolio_id : ℕ
  pub snapshot_date : ℕ
  pub total_cash : ℤ
  pub market_value : ℤ
  pub total_nav : ℤ
  pub unrealized_pnl : ℤ
  pub realized_pnl : ℤ
  pub is_stale : Bool

-- The unique key of `portfolio_snapshots`.
abbrev pub has_snapshot : ℕ → ℕ → PortfolioSnapshot → Bool
has_snapshot id date r = r.portfolio_id == id && r.snapshot_date == date

-- The table, and the counters of the loop.
pub record Progress : Type 0 where
  pub snapshots : List PortfolioSnapshot
  pub processed_count : ℕ
  pub failure_count : ℕ
  pub db_query_count : ℕ

abbrev pub page_size : ℕ
page_size = 100

module _ (c : Column) where
  -- The loop over the orders. An expiry that throws is logged. Each is a transaction of its own:
  -- `between` is what other calls do to the store before that of an order.
  unfoldable pub expire_all : (ℕ → Store → Store) → List Order → Store → Store
  expire_all between [] s = s
  expire_all between (o ∷ os) s = expire_all between os (expire_order c o.id (between o.id s)).1

  unfoldable pub execute_sweep : (ℕ → Store → Store) → Store → Store
  execute_sweep between s =
      expire_all between (filter_where (λ o. is_sweepable o.status) s.orders) s

  module _ (prices : PriceCache) (s : Store) where
    -- `getValuation(p.id)`
    unfoldable pub value_portfolio : ℕ → Result PortfolioValuation
    value_portfolio id = elim (find (has_portfolio_id id) s.portfolios) [
      | none ↦ err not_found
      | some portfolio ↦
          get_valuation c (some prices) portfolio
            (filter_where (λ p. p.portfolio_id == portfolio.id) s.positions)
    ]

    abbrev pub snapshot_of : ℕ → ℕ → PortfolioValuation → PortfolioSnapshot
    snapshot_of id date val = record {
      portfolio_id = id;
      snapshot_date = date;
      total_cash = val.total_cash;
      market_value = val.market_value;
      total_nav = val.total_nav;
      unrealized_pnl = val.unrealized_pnl;
      realized_pnl = val.realized_pnl;
      is_stale = val.is_stale;
    }

    -- What a visit does with the snapshot that is there, if any, and with the valuation. The
    -- valuation only reads.
    abbrev pub capture :
        ℕ → ℕ → Option PortfolioSnapshot → Result PortfolioValuation → Progress → Progress
    capture date id (some _) val run = record run { processed_count = run.processed_count + 1 }
    capture date id none (err e) run = record run { failure_count = run.failure_count + 1 }
    capture date id none (ok val) run = record {
      snapshots = snapshot_of id date val ∷ run.snapshots;
      processed_count = run.processed_count + 1;
      failure_count = run.failure_count;
      db_query_count = run.db_query_count + 3;
    }

    unfoldable pub snapshot_one : ℕ → ℕ → Progress → Progress
    snapshot_one date id run =
        capture date id (find (has_snapshot id date) run.snapshots) (value_portfolio id)
          (record run { db_query_count = run.db_query_count + 1 })

    unfoldable pub snapshot_each : ℕ → List ℕ → Progress → Progress
    snapshot_each date [] run = run
    snapshot_each date (id ∷ ids) run = snapshot_each date ids (snapshot_one date id run)

    -- The loop over the pages, on the identifiers in their order.
    unfoldable pub snapshot_pages : ℕ → ℕ → List ℕ → ℕ → Progress → Option Progress
    snapshot_pages date zero ids skip run = none
    snapshot_pages date (suc fuel) ids skip run =
        let page = take page_size (drop skip ids) in
        let looked = record run { db_query_count = run.db_query_count + 1 } in
        let rest =
          snapshot_pages date fuel ids (skip + page_size) (snapshot_each date page looked) in
        elim page [ [] ↦ some looked | _ ∷ _ ↦ rest ]

    abbrev pub no_progress : List PortfolioSnapshot → Progress
    no_progress snapshots = record {
      snapshots = snapshots;
      processed_count = 0;
      failure_count = 0;
      db_query_count = 0;
    }

    -- `snapshotDate` is the day of the universal time, 5:30 hours behind. The fuel is enough.
    unfoldable pub snapshot_portfolios : ℕ → List PortfolioSnapshot → Option Progress
    snapshot_portfolios now snapshots =
        let ids = map (λ (p : Portfolio). p.id) s.portfolios in
        snapshot_pages ((now - 19_800) / day_seconds) (length ids / 100 + 2) ids 0
          (no_progress snapshots)

-- `eod:sweep:global:${day}` and `bod:sweep:global:${day}`.
pub data LeaseKey : Type 0 where
  eod bod : (day : ℕ) → LeaseKey

abbrev pub same_key : LeaseKey → LeaseKey → Bool
same_key (eod a) (eod b) = a == b
same_key (bod a) (bod b) = a == b
same_key _ _ = false

pub record Lease : Type 0 where
  pub key : LeaseKey
  pub expires : ℕ

-- What the processes share, and the session states that were emitted.
pub record Floor : Type 0 where
  pub store : Store
  pub snapshots : List PortfolioSnapshot
  pub leases : List Lease
  pub emitted : List SessionStatus

abbrev pub holds_key : ℕ → LeaseKey → Lease → Bool
holds_key now key l = same_key l.key key && ltb now l.expires

abbrev pub eq_text : List ℕ → List ℕ → Bool
eq_text [] [] = true
eq_text (a ∷ xs) (b ∷ ys) = a == b && eq_text xs ys
eq_text _ _ = false

-- `redis.set(key, 'locked', 'EX', 60, 'NX')`: no answer if the key is there.
abbrev pub acquire : ℕ → LeaseKey → Floor → Option Floor
acquire now key f = elim (find (holds_key now key) f.leases) [
  | some _ ↦ none
  | none ↦ some (record f { leases = record { key = key; expires = now + 60 } ∷ f.leases })
]

-- What only the process does that gets the lease.
unfoldable pub under_lease : ℕ → LeaseKey → (Floor → Option Floor) → Floor → Option Floor
under_lease now key work f = elim (acquire now key f) [ none ↦ some f | some held ↦ work held ]

abbrev pub start_session : Floor → Option Floor
start_session f = some (record f { emitted = opened ∷ f.emitted })

module _ (c : Column) (prices : PriceCache) (between : ℕ → Store → Store) where
  -- The end of the session: no answer if the loop over the pages does not end.
  unfoldable pub end_session : ℕ → Floor → Option Floor
  end_session now f =
      let swept = execute_sweep c between f.store in
      elim (snapshot_portfolios c prices swept now f.snapshots) [
        | none ↦ none
        | some progress ↦ some (record f {
          store = swept;
          snapshots = progress.snapshots;
          emitted = closed ∷ f.emitted;
        })
      ]

  unfoldable pub tick : ℕ → Floor → Option Floor
  tick now f =
      if eq_text (time_text now) closing_text
      then under_lease now (eod (day_of now)) (end_session now) f
      else if eq_text (time_text now) opening_text
      then under_lease now (bod (day_of now)) start_session f
      else some f
