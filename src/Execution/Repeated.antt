-- ===== src/Execution/Repeated.antt =====
-- A job that the queue delivers more than once.

use trade_alpha.Base.{
  ℕ, ◌≡◌, refl, sym, ap, ◌∙◌, ◌⊎◌, inl, inr, true, Bool-cases, arith, if◌then◌else◌,
}
use trade_alpha.Column.{Column}
use trade_alpha.Store.Rows.{Store}
use trade_alpha.Store.Tx.{Result-cases}
use trade_alpha.Orders.Filling.{process_fill}
use trade_alpha.Orders.Steps.{Step}
use trade_alpha.Orders.Steps.Calls.{process_fill-Step, process_fill_twice}
use trade_alpha.Execution.{ExecuteFillJob, dto_of, is_in_session, process_job}

module _ (c : Column) where
  -- The database after a job.
  job_store :
      (now : ℕ) (job : ExecuteFillJob) (s : Store)
      → (process_job c now job s).1
        ≡ (if is_in_session now job then (process_fill c (dto_of job) s).1 else s)
  unfolding process_job
  job_store now job s = elim (Bool-cases (is_in_session now job)) [
    | inr out ↦ rw out refl
    | inl within ↦ rw within (elim (Result-cases (process_fill c (dto_of job) s).0) [
      | inl (e, failed) ↦ ground arith
      | inr (o, done) ↦ ground arith
    ])
  ]

  -- If a job runs within its session, then delivering it again at any time, whatever the first run
  -- has done, leaves the database as it is.
  pub process_job_twice :
      (now later : ℕ) (job : ExecuteFillJob) (s : Store)
      → is_in_session now job ≡ true
      → let s' = (process_job c now job s).1 in (process_job c later job s').1 ≡ s'
  process_job_twice now later job s within =
      let fill = λ (t : Store). (process_fill c (dto_of job) t).1 in
      let s' = (process_job c now job s).1 in
      let first : s' ≡ fill s = job_store now job s ∙ rw within refl in
      elim (Bool-cases (is_in_session later job)) [
        | inr out ↦ job_store later job s' ∙ rw out refl
        | inl again ↦
            job_store later job s'
            ∙ rw again (ap fill first ∙ process_fill_twice c (dto_of job) s ∙ sym first)
      ]

  -- A job leaves the database as it was, or it is within its session and commits one transaction
  -- of the step relation.
  pub process_job-Step :
      (now : ℕ) (job : ExecuteFillJob) (s : Store)
      → let s' = (process_job c now job s).1 in
        (s' ≡ s) ⊎ ((is_in_session now job ≡ true) × Step c s s')
  process_job-Step now job s = elim (Bool-cases (is_in_session now job)) [
    | inr out ↦ inl (job_store now job s ∙ rw out refl)
    | inl within ↦
        let run : (process_job c now job s).1 ≡ (process_fill c (dto_of job) s).1 =
          job_store now job s ∙ rw within refl in
        rw run (elim (process_fill-Step c s (dto_of job)) [
          | inl same ↦ inl same
          | inr step ↦ inr (within, step)
        ])
  ]
