-- ===== src/Execution.antt =====
-- apps/api/src/workers/execution.worker.ts: the job that fills an order.
pub mod Repeated
pub mod Tests
use trade_alpha.Base.{ℕ, Bool, true, false, not, Option, none, some, String, if◌then◌else◌}
use trade_alpha.Int.{ℤ}
use trade_alpha.Column.{Column}
use trade_alpha.Store.Rows.{Store, Order}
use trade_alpha.Store.Tx.{Result, Error, ok, err, invalid_state_transition, not_found}
use trade_alpha.Session.{session_at, is_open, opened, closed}
use trade_alpha.Orders.Filling.{FillOrderDto, process_fill}

-- `originTimestamp` is the instant of the tick. The correlation and the metadata only go to logs.
pub record ExecuteFillJob : Type 0 where
  pub order_id : ℕ
  pub price : ℤ
  pub quantity : ℤ
  pub execution_idempotency_key : String
  pub origin_timestamp : Option ℕ

abbrev pub dto_of : ExecuteFillJob → FillOrderDto
dto_of job = record {
  order_id = job.order_id;
  price = job.price;
  quantity = job.quantity;
  fill_idempotency_key = job.execution_idempotency_key;
}

-- What the worker does with an error of `processFill`: a stale fill is dropped, anything else is
-- thrown, so that the queue tries the job again.
unfoldable pub is_stale_fill : Error → Bool
is_stale_fill (invalid_state_transition _ _) = true
is_stale_fill not_found = true
is_stale_fill _ = false

-- Whether the session allows the job that runs at `now`.
unfoldable pub is_in_session : ℕ → ExecuteFillJob → Bool
is_in_session now job = elim job.origin_timestamp [
  | some origin ↦ elim (session_at origin) [ opened ↦ true | closed ↦ false ]
  | none ↦ is_open now
]

-- A job completes, or throws and is tried again.
unfoldable pub process_job : Column → ℕ → ExecuteFillJob → Store → Result (Unit {0}) × Store
process_job c now job s =
    let (answer, s') = process_fill c (dto_of job) s in
    if not (is_in_session now job) then (ok tt, s) else elim answer [
      | ok _ ↦ (ok tt, s')
      | err e ↦ if is_stale_fill e then (ok tt, s') else (err e, s')
    ]
