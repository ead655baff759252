-- ===== src/Outbox.antt =====
-- apps/api/src/workers/outbox.worker.ts: the events of the outbox on their way to the queue. Times
-- count milliseconds, and a round takes none. The rows stand in the order of `created_at`.
pub mod Delivery
pub mod Backoff
pub mod Drain
pub mod Tests
use Prim.Native.Nat.{◌^◌}
use trade_alpha.Base.{
  ℕ, zero, suc, ◌+◌, ◌*◌, ◌==◌, leb, Bool, true, false, not, ◌&&◌, ◌||◌, Option, none, some, List,
  [], ◌∷◌, if◌then◌else◌,
}
use trade_alpha.Store.Rows.{OutboxEvent}
use trade_alpha.Store.Tables.{update_where}

pub data EventStatus : Type 0 where
  pending published failed : EventStatus

-- A row of `outbox_events`, less its texts of errors.
pub record OutboxRow : Type 0 where
  pub id : ℕ
  pub event : OutboxEvent
  pub status : EventStatus
  pub attempts : ℕ
  pub next_retry_at : Option ℕ
  pub published_at : Option ℕ

abbrev pub max_retries : ℕ
max_retries = 5

abbrev pub batch_size : ℕ
batch_size = 50

abbrev pub is_published : OutboxRow → Bool
is_published r = elim r.status [ pending ↦ false | published ↦ true | failed ↦ false ]

abbrev pub has_come : ℕ → Option ℕ → Bool
has_come now none = true
has_come now (some t) = leb t now

-- `status IN ('PENDING', 'FAILED') AND (next_retry_at IS NULL OR next_retry_at <= NOW())`
abbrev pub is_due : ℕ → OutboxRow → Bool
is_due now r = not (is_published r) && has_come now r.next_retry_at

abbrev pub leased : ℕ → OutboxRow → OutboxRow
leased now r = record r { next_retry_at = some (now + 60_000) }

-- The claim: the first rows that are due and that no other worker has locked get a new time for
-- their next try. The claimed rows, and the table.
unfoldable pub claim : (OutboxRow → Bool) → ℕ → ℕ → List OutboxRow → List OutboxRow × List OutboxRow
claim locked now n [] = ([], [])
claim locked now zero (r ∷ rs) = ([], r ∷ rs)
claim locked now (suc n) (r ∷ rs) =
    let (more, rest) = claim locked now n rs in
    let (others, kept) = claim locked now (suc n) rs in
    if is_due now r && not (locked r)
    then (leased now r ∷ more, leased now r ∷ rest)
    else (others, r ∷ kept)

-- How the publication of one event ends: the queue has taken it and the row says so; something has
-- failed, which the row says; or not even that could be written, which ends the round. The flag
-- tells whether the queue has taken the event.
pub data Outcome : Type 0 where
  acknowledged : Outcome
  unacknowledged aborted : (handed : Bool) → Outcome

pub record Outbox : Type 0 where
  pub rows : List OutboxRow
  pub queue : List ℕ

abbrev pub has_row_id : ℕ → OutboxRow → Bool
has_row_id id r = r.id == id

abbrev pub acknowledge : ℕ → OutboxRow → OutboxRow
acknowledge now r = record r { status = published; published_at = some now }

-- `event` is the row that the claim has returned.
unfoldable pub record_failure : ℕ → OutboxRow → OutboxRow → OutboxRow
record_failure now event r =
    let attempts = event.attempts + 1 in
    record r {
      status = failed;
      attempts = attempts;
      next_retry_at = if leb max_retries attempts then none else some (now + 2 ^ attempts * 1000);
    }

abbrev hand_over : Bool → ℕ → List ℕ → List ℕ
hand_over handed id queue = if handed then id ∷ queue else queue

-- What the publication of one event leaves behind.
unfoldable pub settle : ℕ → Outcome → OutboxRow → Outbox → Outbox
settle now acknowledged e box = record {
  rows = update_where (has_row_id e.id) (acknowledge now) box.rows;
  queue = e.id ∷ box.queue;
}
settle now (unacknowledged handed) e box = record {
  rows = update_where (has_row_id e.id) (record_failure now e) box.rows;
  queue = hand_over handed e.id box.queue;
}
settle now (aborted handed) e box = record box { queue = hand_over handed e.id box.queue }

abbrev pub is_aborted : Outcome → Bool
is_aborted (aborted _) = true
is_aborted _ = false

abbrev pub published_by : Outcome → ℕ
published_by acknowledged = 1
published_by _ = 0

-- The loop over the claimed events, with the number of those that were published.
unfoldable pub process_events : ℕ → (ℕ → Outcome) → List OutboxRow → Outbox → ℕ → Outbox × ℕ
process_events now answer [] box count = (box, count)
process_events now answer (e ∷ es) box count =
    let settled = settle now (answer e.id) e box in
    let rest = process_events now answer es settled (count + published_by (answer e.id)) in
    if is_aborted (answer e.id) then (settled, count) else rest

unfoldable pub process_outbox : (OutboxRow → Bool) → ℕ → (ℕ → Outcome) → Outbox → Outbox × ℕ
process_outbox locked now answer box =
    let (claimed, rows) = claim locked now batch_size box.rows in
    process_events now answer claimed (record box { rows = rows }) 0
