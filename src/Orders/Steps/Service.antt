-- ===== src/Orders/Steps/Service.antt =====
-- The order service as a whole: its calls, one after another.
use trade_alpha.Base.{ℕ, ◌≡◌, sym, subst, List, [], ◌∷◌, All, arith, inl, inr, ◌⊎◌, Option-cases}
use trade_alpha.Column.{Column}
use trade_alpha.Store.Rows.{Store}
use trade_alpha.Store.Tables.{find}
use trade_alpha.Store.Tx.{ok, Result-cases, ◌>>◌}
use trade_alpha.Session.{assert_open}
use trade_alpha.Orders.Rows.{has_user_key}
use trade_alpha.Orders.Placing.{PlaceOrderDto, check_request, place_body, place_order}
use trade_alpha.Orders.Pending.{mark_order_pending, activate_stop_limit}
use trade_alpha.Orders.Filling.{FillOrderDto, process_fill}
use trade_alpha.Orders.Closing.{cancel_order, expire_order}
use trade_alpha.Orders.Steps.{Step, placed, Run, start, after}
use trade_alpha.Orders.Steps.Invariant.{IsSound}
use trade_alpha.Orders.Steps.Sound.{Run-IsSound}
use trade_alpha.Orders.Steps.Calls.{
  process_fill-Step, expire_order-Step, cancel_order-Step, mark_order_pending-Step,
  activate_stop_limit-Step,
}

pub data Call : Type 0 where
  place : (now : ℕ) (interim : Store → Store) (dto : PlaceOrderDto) → Call
  mark_pending : (first second id : ℕ) → Call
  activate_stop : (id : ℕ) → Call
  fill : FillOrderDto → Call
  cancel expire : (id : ℕ) → Call

-- The database after a call.
unfoldable pub run_call : Column → Call → Store → Store
run_call c (place now interim dto) s = (place_order c now interim dto s).1
run_call c (mark_pending first second id) s = (mark_order_pending c first second id s).1
run_call c (activate_stop id) s = (activate_stop_limit id s).1
run_call c (fill dto) s = (process_fill c dto s).1
run_call c (cancel id) s = (cancel_order c id s).1
run_call c (expire id) s = (expire_order c id s).1

unfoldable pub run_calls : Column → List Call → Store → Store
run_calls c [] s = s
run_calls c (x ∷ xs) s = run_calls c xs (run_call c x s)

-- What runs in the middle of a placement commits transactions too.
abbrev pub IsInterleaved : Column → Call → Type 0
IsInterleaved c (place now interim dto) = (t : Store) → Run c t (interim t)
IsInterleaved c _ = Unit

checks_pass :
    (dto : PlaceOrderDto) (now : ℕ) (s s' : Store) (u : Unit {0}) (t : Store)
    → (check_request dto >> assert_open now) s ≡ ok (u, t)
    → check_request dto s' ≡ ok (tt, s')
unfolding check_request assert_open
checks_pass dto now s s' u t h = ground arith

module _ (c : Column) where
  pub Run-trans : (s t u : Store) → Run c s t → Run c t u → Run c s u
  Run-trans s t u r start = r
  Run-trans s t u r (after {t = v} q st) = after (Run-trans s t v r q) st

  pub of_Step : (s t : Store) → (t ≡ s) ⊎ Step c s t → Run c s t
  of_Step s t (inl same) = subst (Run c s) (sym same) start
  of_Step s t (inr st) = after start st

  place-Run :
      (now : ℕ) (interim : Store → Store) (dto : PlaceOrderDto) (s : Store)
      → ((t : Store) → Run c t (interim t))
      → Run c s (place_order c now interim dto s).1
  unfolding place_order
  place-Run now interim dto s between =
      elim (Result-cases ((check_request dto >> assert_open now) s)) [
        | inl (e, failed) ↦ of_Step s _ (inl (ground arith))
        | inr ((u, t), passed) ↦
            let checked = checks_pass dto now s (interim s) u t passed in
            elim (Option-cases (find (has_user_key dto.user_id dto.idempotency_key) s.orders)) [
              | inr (existing, found) ↦ of_Step s _ (inl (ground arith))
              | inl missing ↦ elim (Result-cases (place_body c dto (interim s))) [
                | inl (e, failed) ↦
                    let same : (place_order c now interim dto s).1 ≡ interim s = ground arith in
                    rw same (between s)
                | inr ((o, s'), run) ↦
                    let same : (place_order c now interim dto s).1 ≡ s' = ground arith in
                    rw same (after (between s) (placed dto o checked run))
              ]
            ]
      ]

  -- A call commits transactions of the step relation, one after another.
  run_call-Run : (call : Call) (s : Store) → IsInterleaved c call → Run c s (run_call c call s)
  unfolding run_call
  run_call-Run (place now interim dto) s h = place-Run now interim dto s h
  run_call-Run (mark_pending first second id) s h =
      of_Step s _ (mark_order_pending-Step c s first second id)
  run_call-Run (activate_stop id) s h = of_Step s _ (activate_stop_limit-Step c s id)
  run_call-Run (fill dto) s h = of_Step s _ (process_fill-Step c s dto)
  run_call-Run (cancel id) s h = of_Step s _ (cancel_order-Step c s id)
  run_call-Run (expire id) s h = of_Step s _ (expire_order-Step c s id)

  -- Any calls of the order service, one after another, whatever they answer, are a run of
  -- committed transactions of the step relation, if what runs in the middle of a placement is one.
  run_calls-Run :
      (calls : List Call) (s : Store) → All (IsInterleaved c) calls → Run c s (run_calls c calls s)
  unfolding run_calls
  run_calls-Run [] s h = start
  run_calls-Run (x ∷ xs) s h =
      Run-trans s (run_call c x s) _ (run_call-Run x s h.0) (run_calls-Run xs (run_call c x s) h.1)

  -- Whatever calls of the order service run one after another, with whatever answers, errors
  -- included: if every order is consistent at first, with a filled quantity that its fills add up
  -- to, so it is afterwards. What runs in the middle of a placement is taken to commit
  -- transactions of the order service.
  pub run_calls-IsSound :
      (calls : List Call) (s : Store)
      → IsSound s
      → All (IsInterleaved c) calls
      → IsSound (run_calls c calls s)
  run_calls-IsSound calls s sound h = Run-IsSound c s _ sound (run_calls-Run calls s h)
