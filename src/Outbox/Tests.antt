-- ===== src/Outbox/Tests.antt =====
-- Rounds of the outbox over two events.
use trade_alpha.Base.{
  ℕ, ◌*◌, ◌==◌, if◌then◌else◌, ◌≤◌, ◌≡◌, refl, true, false, none, List, [], ◌∷◌, All, length, arith,
  inl, inr,
}
use trade_alpha.Store.Rows.{order_moved}
use trade_alpha.Outbox.{
  OutboxRow, Outbox, Outcome, acknowledged, unacknowledged, pending, is_published, claim, settle,
  process_events, process_outbox,
}
use trade_alpha.Outbox.Delivery.{IsDelivered, IsHonest, process_outbox-IsHonest}
use trade_alpha.Outbox.Drain.{
  IsReady, nothing_locked, count_unpublished, run_rounds, run_rounds_drains,
}

abbrev row : ℕ → OutboxRow
row id = record {
  id = id;
  event = record {
    event_type = "ORDER_CANCELLED";
    aggregate_type = "Order";
    aggregate_id = 3;
    payload = order_moved 3 1;
  };
  status = pending;
  attempts = 0;
  next_retry_at = none;
  published_at = none;
}

abbrev box : Outbox
box = record { rows = row 1 ∷ row 2 ∷ []; queue = [] }

box-IsHonest : IsHonest box
unfolding IsHonest IsDelivered
box-IsHonest = (inl refl, (inl refl, tt))

-- The queue takes the first event and refuses the second one.
abbrev takes_first : ℕ → Outcome
takes_first id = if id == 1 then acknowledged else unacknowledged false

one_published : (process_outbox nothing_locked 1000 takes_first box).1 ≡ 1
unfolding process_outbox process_events settle claim
one_published = refl

process_outbox-IsHonest_example : IsHonest (process_outbox nothing_locked 1000 takes_first box).0
process_outbox-IsHonest_example =
    process_outbox-IsHonest nothing_locked 1000 takes_first box box-IsHonest

abbrev times : List ℕ
times = 1000 ∷ []

box-IsReady : All (IsReady 1000) box.rows
unfolding IsReady
box-IsReady = (inr refl, (inr refl, tt))

box_count : count_unpublished box.rows ≤ 50 * length times
unfolding count_unpublished
box_count = omega arith

run_rounds_drains_example : All (λ r. is_published r ≡ true) (run_rounds times box).rows
run_rounds_drains_example = run_rounds_drains 1000 times box (omega arith, tt) box-IsReady box_count
