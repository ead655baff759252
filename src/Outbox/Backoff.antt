-- ===== src/Outbox/Backoff.antt =====
-- When an event that has failed is due again.
use Prim.Native.Nat.{◌^◌}
use trade_alpha.Base.{ℕ, ◌+◌, ◌*◌, ◌≡◌, ◌||◌, leb, arith}
use trade_alpha.Outbox.{OutboxRow, is_due, record_failure, max_retries}

-- A row whose failure is recorded is due again at any time if this was its fifth attempt or a
-- later one; before that, from a delay of 2 to the number of its attempts, in seconds, after the
-- failure.
pub failed_due :
    (now later : ℕ) (event r : OutboxRow)
    → is_due later (record_failure now event r)
      ≡ (leb max_retries (event.attempts + 1) || leb (now + 2 ^ (event.attempts + 1) * 1000) later)
unfolding record_failure
failed_due now later event r = ground arith
