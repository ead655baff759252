-- ===== src/Outbox/Drain.antt =====
-- The rounds of a worker whose queue takes every event, with no other worker beside it.
use trade_alpha.Base.{
  Option-cases, ℕ, zero, suc, ◌+◌, ◌-◌, ◌*◌, ◌≤◌, ◌≡◌, refl, Bool, true, false, ◌||◌, List, [], ◌∷◌,
  All, map, length, inl, inr, ◌⊎◌, Bool-cases, arith, if◌then◌else◌,
}
use trade_alpha.Store.Tables.{update_where, update_where-All_cases, All-map}
use trade_alpha.Outbox.{
  OutboxRow, Outbox, Outcome, acknowledged, is_published, is_due, has_come, claim, acknowledge,
  settle, process_events, process_outbox, has_row_id,
}
use trade_alpha.Outbox.Delivery.{was_handed}

abbrev pub nothing_locked : OutboxRow → Bool
nothing_locked _ = false

abbrev pub takes_all : ℕ → Outcome
takes_all _ = acknowledged

-- One round at each of the times.
unfoldable pub run_rounds : List ℕ → Outbox → Outbox
run_rounds [] box = box
run_rounds (now ∷ times) box = run_rounds times (process_outbox nothing_locked now takes_all box).0

-- The rows that wait for their publication.
unfoldable pub count_unpublished : List OutboxRow → ℕ
count_unpublished [] = 0
count_unpublished (r ∷ rs) = (if is_published r then 0 else 1) + count_unpublished rs

-- Those of them that the events do not name.
count_left : List ℕ → List OutboxRow → ℕ
count_left ids [] = 0
count_left ids (r ∷ rs) =
    (if is_published r || was_handed ids r.id then 0 else 1) + count_left ids rs

abbrev ids_of : List OutboxRow → List ℕ
ids_of = map (λ r. r.id)

-- A row is published, or the time of its next try has come.
unfoldable pub IsReady : ℕ → OutboxRow → Type 0
IsReady t r = (is_published r ≡ true) ⊎ (has_come t r.next_retry_at ≡ true)

IsReadyOrNamed : ℕ → List ℕ → OutboxRow → Type 0
IsReadyOrNamed t ids r = IsReady t r ⊎ (was_handed ids r.id ≡ true)

count_left-none : (rs : List OutboxRow) → count_left [] rs ≡ count_unpublished rs
unfolding count_left count_unpublished
count_left-none [] = refl
count_left-none (r ∷ rs) = ground (arith, count_left-none rs)

count_left_more :
    (id : ℕ) (ids : List ℕ) (rs : List OutboxRow) → count_left (id ∷ ids) rs ≤ count_left ids rs
unfolding count_left
count_left_more id ids [] = omega arith
count_left_more id ids (r ∷ rs) = ground (arith, count_left_more id ids rs)

count_left-acknowledge :
    (now id : ℕ) (ids : List ℕ) (rs : List OutboxRow)
    → count_left ids (update_where (has_row_id id) (acknowledge now) rs) ≤ count_left (id ∷ ids) rs
unfolding count_left update_where
count_left-acknowledge now id ids [] = omega arith
count_left-acknowledge now id ids (r ∷ rs) = ground (arith, count_left-acknowledge now id ids rs)

process_events_count :
    (now : ℕ) (es : List OutboxRow) (box : Outbox) (count : ℕ)
    → count_unpublished (process_events now takes_all es box count).0.rows
      ≤ count_left (ids_of es) box.rows
unfolding process_events settle
process_events_count now [] box count = rw (count_left-none box.rows) (omega arith)
process_events_count now (e ∷ es) box count =
    let rest = process_events_count now es (settle now acknowledged e box) (count + 1) in
    let here = count_left-acknowledge now e.id (ids_of es) box.rows in omega arith

process_events-IsReady :
    (t now : ℕ) (es : List OutboxRow) (box : Outbox) (count : ℕ)
    → All (IsReadyOrNamed t (ids_of es)) box.rows
    → All (IsReady t) (process_events now takes_all es box count).0.rows
unfolding process_events settle IsReadyOrNamed IsReady
process_events-IsReady t now [] box count h =
    All-map (IsReadyOrNamed t []) (IsReady t) box.rows (λ r p. ground arith) h
process_events-IsReady t now (e ∷ es) box count h = process_events-IsReady t now es _ (count + 1) (
    update_where-All_cases (IsReadyOrNamed t (ids_of (e ∷ es))) (IsReadyOrNamed t (ids_of es))
      (has_row_id e.id) (acknowledge now) box.rows (λ r hit p. inl (inl refl))
      (λ r miss p. ground arith) h)

ready_is_due :
    (t now : ℕ) (r : OutboxRow)
    → t ≤ now
    → IsReady t r
    → is_published r ≡ false
    → is_due now r ≡ true
unfolding IsReady
ready_is_due t now r le h waits = ground (arith, Option-cases r.next_retry_at)

claim_count :
    (t now n : ℕ) (rs : List OutboxRow)
    → t ≤ now
    → All (IsReady t) rs
    → let (claimed, rows) = claim nothing_locked now n rs in
      count_left (ids_of claimed) rows ≤ count_unpublished rs - n
unfolding claim count_left count_unpublished IsReady
claim_count t now n [] le h = omega arith
claim_count t now zero (r ∷ rs) le h = rw (count_left-none (r ∷ rs)) (omega arith)
claim_count t now (suc n) (r ∷ rs) le h = elim (Bool-cases (is_published r)) [
  | inl done ↦ let fewer = claim_count t now (suc n) rs le h.1 in ground (arith, fewer)
  | inr waits ↦
      let due = ready_is_due t now r le h.0 waits in
      let rest = claim nothing_locked now n rs in
      let fewer = claim_count t now n rs le h.1 in
      let more = count_left_more r.id (ids_of rest.0) rest.1 in
      rw (due, waits) (ground (arith, fewer, more))
]

claim-IsReady :
    (t now n : ℕ) (rs : List OutboxRow)
    → All (IsReady t) rs
    → let (claimed, rows) = claim nothing_locked now n rs in
      All (IsReadyOrNamed t (ids_of claimed)) rows
unfolding claim IsReadyOrNamed
claim-IsReady t now n [] h = tt
claim-IsReady t now zero (r ∷ rs) h = All-map (IsReady t) _ (r ∷ rs) (λ x p. inl p) h
claim-IsReady t now (suc n) (r ∷ rs) h = elim (Bool-cases (is_due now r)) [
  | inl due ↦
      let rest = claim nothing_locked now n rs in
      rw due (
        inr (ground arith),
        All-map (IsReadyOrNamed t (ids_of rest.0)) _ rest.1 (λ x p. ground arith)
            (claim-IsReady t now n rs h.1),
      )
  | inr other ↦ rw other (inl h.0, claim-IsReady t now (suc n) rs h.1)
]

count_unpublished-zero :
    (rs : List OutboxRow) → count_unpublished rs ≤ 0 → All (λ r. is_published r ≡ true) rs
unfolding count_unpublished
count_unpublished-zero [] h = tt
count_unpublished-zero (r ∷ rs) h = (ground arith, count_unpublished-zero rs (omega arith))

-- If every row is published or the time of its next try has come at an instant, no row is locked,
-- the queue takes every event, and rounds run at that instant or later, then after one round for
-- every 50 rows that wait, every row is published.
pub run_rounds_drains :
    (t : ℕ) (times : List ℕ) (box : Outbox)
    → All (λ now. t ≤ now) times
    → All (IsReady t) box.rows
    → count_unpublished box.rows ≤ 50 * length times
    → All (λ r. is_published r ≡ true) (run_rounds times box).rows
unfolding run_rounds process_outbox
run_rounds_drains t [] box late ready few = count_unpublished-zero box.rows (omega arith)
run_rounds_drains t (now ∷ times) box late ready few =
    let claimed = claim nothing_locked now 50 box.rows in
    let first = record box { rows = claimed.1 } in
    let fewer = claim_count t now 50 box.rows late.0 ready in
    let done = process_events_count now claimed.0 first 0 in
    run_rounds_drains t times (process_events now takes_all claimed.0 first 0).0 late.1
      (process_events-IsReady t now claimed.0 first 0 (claim-IsReady t now 50 box.rows ready))
      (omega arith)
