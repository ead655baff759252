-- ===== src/Engine/Dispatch.antt =====
-- The jobs that an engine queues.
use trade_alpha.Base.{
  ℕ, ◌≡◌, refl, sym, ◌∙◌, ◌⊎◌, inl, inr, true, false, Option, some, none, ◌∷◌, arith, ap,
  Bool-cases, String,
}
use trade_alpha.Int.{ℤ, pos, ◌+ℤ◌, ◌-ℤ◌, ◌≤ℤ◌, ◌<ℤ◌, leb_ℤ, min_ℤ}
use trade_alpha.Int.Ring.{int_laws}
use trade_alpha.Store.Rows.{Store, Order, OrderSide, buy, sell, limit}
use trade_alpha.Liquidity.{get_liquidity_profile, calculate_executable_price}
use trade_alpha.Liquidity.Prices.{get_liquidity_profile-IsUsable}
use trade_alpha.Engine.{
  Engine, EngineOrder, Job, owns, job_for, remove_order, trigger_execution, evaluate_limit,
  evaluate_order, can_fill, change_entry,
}

-- A job that is for an order, within what remains of it and within the depth of its market. Its key
-- names what will be filled after it.
pub record IsFor (order : Order) (job : Job) : Type 0 where
  pub order_id : job.order_id ≡ order.id
  pub quantity_pos : pos 0 <ℤ job.quantity
  pub fits : order.filled_quantity +ℤ job.quantity ≤ℤ order.requested_quantity
  pub within_depth : job.quantity ≤ℤ pos (get_liquidity_profile order.symbol).available_depth
  pub key_order : job.execution_idempotency_key.order_id ≡ order.id
  pub key_filled :
      job.execution_idempotency_key.filled_quantity ≡ order.filled_quantity +ℤ job.quantity

min_ℤ_bounds :
    (a b : ℤ) → pos 0 <ℤ a → pos 0 <ℤ b → (pos 0 <ℤ min_ℤ a b) × (min_ℤ a b ≤ℤ a) × (min_ℤ a b ≤ℤ b)
unfolding min_ℤ
min_ℤ_bounds a b h k = ground arith

pub job_for-IsFor :
    (entry : EngineOrder) (tick : ℤ)
    → entry.order.filled_quantity <ℤ entry.order.requested_quantity
    → IsFor entry.order (job_for entry tick)
unfolding job_for
job_for-IsFor entry tick h =
    let u = get_liquidity_profile-IsUsable entry.order.symbol in
    let (p, r, d) =
      min_ℤ_bounds (entry.order.requested_quantity -ℤ entry.order.filled_quantity)
        (pos (get_liquidity_profile entry.order.symbol).available_depth) (omega int_laws)
        (omega (arith, u.depth_pos)) in
    record {
      order_id = refl;
      quantity_pos = p;
      fits = omega (int_laws, r);
      within_depth = d;
      key_order = refl;
      key_filled = refl;
    }

not_leb : (a b : ℤ) → leb_ℤ a b ≡ false → b <ℤ a
not_leb a b h = ground arith

change_keeps_jobs :
    (entry : EngineOrder) (f : EngineOrder → EngineOrder) (e : Engine)
    → (change_entry entry f e).jobs ≡ e.jobs
unfolding change_entry
change_keeps_jobs entry f e = ground arith

remove_keeps_jobs :
    (id : ℕ) (symbol : Option String) (e : Engine) → (remove_order id symbol e).jobs ≡ e.jobs
unfolding remove_order
remove_keeps_jobs id none e = refl
remove_keeps_jobs id (some symbol) e = ground arith

pub trigger_execution_dispatches :
    (entry : EngineOrder) (tick : ℤ) (e : Engine)
    → let e' = trigger_execution entry tick e in
      (e'.jobs ≡ e.jobs)
      ⊎ ((e'.jobs ≡ job_for entry tick ∷ e.jobs) × IsFor entry.order (job_for entry tick))
unfolding trigger_execution
trigger_execution_dispatches entry tick e = elim (Bool-cases (owns e entry.order.symbol)) [
  | inr lost ↦ inl (rw lost refl)
  | inl held ↦
      rw held
        (elim (Bool-cases
          (leb_ℤ (entry.order.requested_quantity -ℤ entry.order.filled_quantity) (pos 0))) [
            | inl done ↦
                inl (rw done (remove_keeps_jobs entry.order.id (some entry.order.symbol) e))
            | inr left ↦
                let remaining : entry.order.filled_quantity <ℤ entry.order.requested_quantity =
                  omega (
                    int_laws,
                    not_leb (entry.order.requested_quantity -ℤ entry.order.filled_quantity) (pos 0)
                        left,
                  ) in
                rw left (
                  inr (
                    ap (λ t. job_for entry tick ∷ t) (change_keeps_jobs entry _ e),
                    job_for-IsFor entry tick remaining,
                  ))
          ])
]

can_fill_sound :
    (side : OrderSide) (limit_price price : ℤ)
    → can_fill side (some limit_price) price ≡ true
    → ((side ≡ sell) ⊎ (price ≤ℤ limit_price)) × ((side ≡ buy) ⊎ (limit_price ≤ℤ price))
can_fill_sound buy limit_price price h = (inr (ground arith), inl refl)
can_fill_sound sell limit_price price h = (inl refl, inr (ground arith))

-- The evaluation of a limit order queues no job or one: a job for a positive quantity within what
-- remains of the order and within the depth of its market, at a price that is not above the limit
-- of a purchase and not below the limit of a sale.
pub limit_respected :
    (interim : Engine → Engine) (entry : EngineOrder) (limit_price tick : ℤ) (e : Engine)
    (s : Store)
    → entry.order.order_type ≡ limit
    → entry.order.limit_price ≡ some limit_price
    → let e' = (evaluate_order interim entry tick e s).0 in
      (e'.jobs ≡ e.jobs)
      ⊎ ((job : Job) × (e'.jobs ≡ job ∷ e.jobs)
          × IsFor entry.order job
          × (((entry.order.side ≡ sell) ⊎ (job.price ≤ℤ limit_price))
              × ((entry.order.side ≡ buy) ⊎ (limit_price ≤ℤ job.price))))
unfolding evaluate_order evaluate_limit job_for
limit_respected interim entry limit_price tick e s type price =
    elim (Bool-cases (owns e entry.order.symbol)) [
      | inr lost ↦ inl (ground arith)
      | inl held ↦
          let at =
            calculate_executable_price entry.order.side tick
              (get_liquidity_profile entry.order.symbol) entry.order.filled_quantity in
          elim (Bool-cases (can_fill entry.order.side entry.order.limit_price at)) [
            | inr worse ↦ inl (ground arith)
            | inl better ↦
                let run : (evaluate_order interim entry tick e s).0
                    ≡ trigger_execution entry tick e =
                  ground arith in
                elim (trigger_execution_dispatches entry tick e) [
                  | inl same ↦ inl (ap (λ t. t.jobs) run ∙ same)
                  | inr (jobs, fits) ↦ inr (
                    job_for entry tick,
                    ap (λ t. t.jobs) run ∙ jobs,
                    fits,
                    can_fill_sound entry.order.side limit_price at
                        (ap (λ o. can_fill entry.order.side o at) (sym price) ∙ better),
                  )
                ]
          ]
    ]
