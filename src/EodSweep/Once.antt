-- ===== src/EodSweep/Once.antt =====
-- A tick that two processes see.
use trade_alpha.Base.{
  ap, ◌∙◌, ◌-◌, ℕ, ◌+◌, ◌/◌, ◌≡◌, refl, Option, some, List, ◌∷◌, map, length, arith, inl, inr,
  Option-cases, Bool-cases,
}
use trade_alpha.Column.{Column}
use trade_alpha.Store.Rows.{Store, Portfolio}
use trade_alpha.Store.Tables.{find}
use trade_alpha.Session.{opened, closed, day_of, day_seconds, time_text, opening_text, closing_text}
use trade_alpha.Valuation.{PriceCache}
use trade_alpha.EodSweep.{
  Floor, Lease, LeaseKey, eod, bod, holds_key, eq_text, under_lease, start_session, execute_sweep,
  no_progress, end_session, tick, Progress, PortfolioSnapshot, snapshot_portfolios, snapshot_each,
}
use trade_alpha.EodSweep.Paging.{snapshot_pages_ends, add_queries, page_queries}

-- A piece of work that ends, and leaves the leases.
KeepsLeases : (Floor → Option Floor) → Type 0
KeepsLeases work = (f : Floor) → (f' : Floor) × (work f ≡ some f') × (f'.leases ≡ f.leases)

lease_found :
    (now : ℕ) (key : LeaseKey) (leases : List Lease)
    → (l : Lease) × (find (holds_key now key) (record { key = key; expires = now + 60 } ∷ leases)
        ≡ some l)
unfolding find
lease_found now (eod day) leases = (record { key = eod day; expires = now + 60 }, ground arith)
lease_found now (bod day) leases = (record { key = bod day; expires = now + 60 }, ground arith)

held_already :
    (now : ℕ) (key : LeaseKey) (work : Floor → Option Floor) (f : Floor) (l : Lease)
    → find (holds_key now key) f.leases ≡ some l
    → under_lease now key work f ≡ some f
unfolding under_lease
held_already now key work f l found = rw (found, under_lease) refl

under_lease_once :
    (now : ℕ) (key : LeaseKey) (work : Floor → Option Floor) (f : Floor)
    → KeepsLeases work
    → (f' : Floor) × (under_lease now key work f ≡ some f')
      × (under_lease now key work f' ≡ some f')
unfolding KeepsLeases under_lease
under_lease_once now key work f keeps = elim (Option-cases (find (holds_key now key) f.leases)) [
  | inr (l, found) ↦ (f, held_already now key work f l found, held_already now key work f l found)
  | inl missing ↦
      let held = record f { leases = record { key = key; expires = now + 60 } ∷ f.leases } in
      let (f', done, leases) = keeps held in
      let (l, found) = lease_found now key f.leases in
      (
        f',
        (rw (missing, under_lease) done),
        held_already now key work f' l (ap (find (holds_key now key)) leases ∙ found),
      )
]

module _ (c : Column) (prices : PriceCache) where
  -- The progress of a run over all portfolios.
  abbrev full_progress : ℕ → Store → List PortfolioSnapshot → Progress
  full_progress now s snapshots =
      let ids = map (λ (p : Portfolio). p.id) s.portfolios in
      add_queries (page_queries (length ids)) (
        snapshot_each c prices s ((now - 19_800) / day_seconds) ids
          (no_progress c prices s snapshots))

  snapshot_portfolios_ends :
      (now : ℕ) (s : Store) (snapshots : List PortfolioSnapshot)
      → snapshot_portfolios c prices s now snapshots ≡ some (full_progress now s snapshots)
  unfolding snapshot_portfolios
  snapshot_portfolios_ends now s snapshots =
      let ids = map (λ (p : Portfolio). p.id) s.portfolios in
      snapshot_pages_ends c prices s ((now - 19_800) / day_seconds) (length ids / 100 + 2) ids
        (no_progress c prices s snapshots) (omega arith)

  module _ (between : ℕ → Store → Store) where
    end_session_ends : (now : ℕ) → KeepsLeases (end_session c prices between now)
    unfolding KeepsLeases end_session
    end_session_ends now f =
        let swept = execute_sweep c between f.store in
        (
          record f {
            store = swept;
            snapshots = (full_progress now swept f.snapshots).snapshots;
            emitted = closed ∷ f.emitted;
          },
          (rw (snapshot_portfolios_ends now swept f.snapshots, end_session) refl),
          refl,
        )

    -- A tick always ends, whatever other calls commit during its sweep, and a second tick at the
    -- same time, which is that of another process, leaves everything as the first one left it.
    pub tick_once :
        (now : ℕ) (f : Floor)
        → (f' : Floor) × (tick c prices between now f ≡ some f')
          × (tick c prices between now f' ≡ some f')
    unfolding tick KeepsLeases
    tick_once now f = elim (Bool-cases (eq_text (time_text now) closing_text)) [
      | inl at_end ↦ rw at_end (
          under_lease_once now (eod (day_of now)) (end_session c prices between now) f
            (end_session_ends now))
      | inr not_end ↦ elim (Bool-cases (eq_text (time_text now) opening_text)) [
        | inl at_start ↦
            rw (not_end, at_start)
              (under_lease_once now (bod (day_of now)) start_session f
                (λ g. (record g { emitted = opened ∷ g.emitted }, refl, refl)))
        | inr neither ↦ rw (not_end, neither) (f, refl, refl)
      ]
    ]
