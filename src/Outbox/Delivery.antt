-- ===== src/Outbox/Delivery.antt =====
-- What a published row stands for.
use trade_alpha.Base.{
  ℕ, zero, suc, ◌==◌, ◌≡◌, refl, Bool, true, false, ◌||◌, List, [], ◌∷◌, All, inl, inr, ◌⊎◌,
  Bool-cases, arith, not, ◌&&◌,
}
use trade_alpha.Store.Tables.{update_where, update_where-All_cases, All-map}
use trade_alpha.Outbox.{
  OutboxRow, Outbox, Outcome, settle, is_aborted, acknowledged, unacknowledged, aborted,
  is_published, is_due, claim, leased, acknowledge, record_failure, process_events, process_outbox,
  has_row_id, hand_over,
}

abbrev pub was_handed : List ℕ → ℕ → Bool
was_handed [] id = false
was_handed (x ∷ xs) id = x == id || was_handed xs id

-- A published row has gone to the queue.
unfoldable pub IsDelivered : List ℕ → OutboxRow → Type 0
IsDelivered queue r = (is_published r ≡ false) ⊎ (was_handed queue r.id ≡ true)

-- What all rows satisfy before and after they are leased, they satisfy after a claim.
pub claim-All :
    (P : OutboxRow → Type 0) (locked : OutboxRow → Bool) (now n : ℕ) (rs : List OutboxRow)
    → ((r : OutboxRow) → P r → P (leased now r))
    → All P rs
    → All P (claim locked now n rs).1
unfolding claim
claim-All P locked now n [] keep h = tt
claim-All P locked now zero (r ∷ rs) keep h = h
claim-All P locked now (suc n) (r ∷ rs) keep h =
    elim (Bool-cases (is_due now r && not (locked r))) [
      | inl hit ↦ rw hit (keep r h.0, claim-All P locked now n rs keep h.1)
      | inr miss ↦ rw miss (h.0, claim-All P locked now (suc n) rs keep h.1)
    ]

IsDelivered-hand_over :
    (handed : Bool) (id : ℕ) (queue : List ℕ) (r : OutboxRow)
    → IsDelivered queue r
    → IsDelivered (hand_over handed id queue) r
unfolding IsDelivered
IsDelivered-hand_over handed id queue r h = ground arith

acknowledged_rows :
    (now id : ℕ) (queue : List ℕ) (rows : List OutboxRow)
    → All (IsDelivered queue) rows
    → All (IsDelivered (id ∷ queue)) (update_where (has_row_id id) (acknowledge now) rows)
unfolding IsDelivered
acknowledged_rows now id queue rows =
    update_where-All_cases (IsDelivered queue) (IsDelivered (id ∷ queue)) (has_row_id id)
      (acknowledge now) rows (λ r hit h. inr (ground arith))
      (λ r miss. IsDelivered-hand_over true id queue r)

failed_rows :
    (now : ℕ) (e : OutboxRow) (handed : Bool) (queue : List ℕ) (rows : List OutboxRow)
    → All (IsDelivered queue) rows
    → All
        (IsDelivered (hand_over handed e.id queue))
        (update_where (has_row_id e.id) (record_failure now e) rows)
unfolding IsDelivered record_failure
failed_rows now e handed queue rows =
    update_where-All_cases (IsDelivered queue) (IsDelivered (hand_over handed e.id queue))
      (has_row_id e.id) (record_failure now e) rows (λ r hit h. inl refl)
      (λ r miss. IsDelivered-hand_over handed e.id queue r)

-- Every published row has gone to the queue.
unfoldable pub IsHonest : Outbox → Type 0
IsHonest box = All (IsDelivered box.queue) box.rows

settle-IsHonest :
    (now : ℕ) (o : Outcome) (e : OutboxRow) (box : Outbox)
    → IsHonest box
    → IsHonest (settle now o e box)
unfolding settle IsHonest
settle-IsHonest now acknowledged e box h = acknowledged_rows now e.id box.queue box.rows h
settle-IsHonest now (unacknowledged handed) e box h = failed_rows now e handed box.queue box.rows h
settle-IsHonest now (aborted handed) e box h =
    All-map (IsDelivered box.queue) _ box.rows (IsDelivered-hand_over handed e.id box.queue) h

process_events-IsHonest :
    (now : ℕ) (answer : ℕ → Outcome) (es : List OutboxRow) (box : Outbox) (count : ℕ)
    → IsHonest box
    → IsHonest (process_events now answer es box count).0
unfolding process_events
process_events-IsHonest now answer [] box count h = h
process_events-IsHonest now answer (e ∷ es) box count h =
    let settled = settle-IsHonest now (answer e.id) e box h in
    elim (Bool-cases (is_aborted (answer e.id))) [
      | inl stopped ↦ rw stopped settled
      | inr goes_on ↦ rw goes_on (process_events-IsHonest now answer es _ _ settled)
    ]

-- A round of the outbox worker keeps the invariant that every published row has been handed to the
-- queue, whatever rows are locked and however the publication of each event ends.
pub process_outbox-IsHonest :
    (locked : OutboxRow → Bool) (now : ℕ) (answer : ℕ → Outcome) (box : Outbox)
    → IsHonest box
    → IsHonest (process_outbox locked now answer box).0
unfolding process_outbox IsDelivered IsHonest
process_outbox-IsHonest locked now answer box h =
    process_events-IsHonest now answer _ _ 0
      (claim-All (IsDelivered box.queue) locked now 50 box.rows (λ r p. p) h)
