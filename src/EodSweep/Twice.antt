-- ===== src/EodSweep/Twice.antt =====
-- The snapshots of a date that are already there.
use trade_alpha.Base.{
  sym, subst, Bool-cases, ℕ, ◌≡◌, refl, Option, none, some, List, [], ◌∷◌, All, arith, inl, inr,
  ◌⊎◌, ◌∙◌,
}
use trade_alpha.Column.{Column}
use trade_alpha.Store.Rows.{Store}
use trade_alpha.Store.Tables.{find}
use trade_alpha.Store.Tx.{Error, Result, ok, err}
use trade_alpha.Valuation.{PriceCache, PortfolioValuation}
use trade_alpha.EodSweep.{
  PortfolioSnapshot, snapshot_of, Progress, capture, snapshot_one, snapshot_each, value_portfolio,
  has_snapshot,
}

module _ (c : Column) (prices : PriceCache) (s : Store) (date : ℕ) where
  -- The portfolio has a snapshot of the date, or its valuation throws.
  IsVisited : List PortfolioSnapshot → ℕ → Type 0
  IsVisited rows id =
      ((row : PortfolioSnapshot) × (find (has_snapshot id date) rows ≡ some row))
      ⊎ ((e : Error) × (value_portfolio c prices s id ≡ err e))

  again :
      (id : ℕ) (existing : Option PortfolioSnapshot) (val : Result PortfolioValuation)
      (run : Progress)
      → ((row : PortfolioSnapshot) × (existing ≡ some row)) ⊎ ((e : Error) × (val ≡ err e))
      → (capture c prices s date id existing val run).snapshots ≡ run.snapshots
  again id (some row) val run h = refl
  again id none (err e) run h = refl
  again id none (ok val) run h = ground arith

  visited_again :
      (id : ℕ) (run : Progress)
      → IsVisited run.snapshots id
      → (snapshot_one c prices s date id run).snapshots ≡ run.snapshots
  unfolding IsVisited snapshot_one
  visited_again id run h = again id _ (value_portfolio c prices s id) _ h

  visits :
      (id : ℕ) (existing : Option PortfolioSnapshot) (val : Result PortfolioValuation)
      (run : Progress)
      → find (has_snapshot id date) run.snapshots ≡ existing
      → value_portfolio c prices s id ≡ val
      → IsVisited (capture c prices s date id existing val run).snapshots id
  unfolding IsVisited find
  visits id (some row) val run found valued = inl (row, found)
  visits id none (err e) run found valued = inr (e, valued)
  visits id none (ok val) run found valued = inl (snapshot_of c prices s id date val, ground arith)

  visit_keeps :
      (id other : ℕ) (existing : Option PortfolioSnapshot) (val : Result PortfolioValuation)
      (run : Progress)
      → IsVisited run.snapshots id
      → IsVisited (capture c prices s date other existing val run).snapshots id
  unfolding IsVisited find
  visit_keeps id other (some row) val run h = h
  visit_keeps id other none (err e) run h = h
  visit_keeps id other none (ok val) run (inr failed) = inr failed
  visit_keeps id other none (ok val) run (inl (row, found)) =
      let new = snapshot_of c prices s other date val in
      elim (Bool-cases (has_snapshot id date new)) [
        | inl hit ↦ inl (new, rw hit refl)
        | inr miss ↦ inl (row, rw miss found)
      ]

  each_keeps :
      (ids : List ℕ) (id : ℕ) (run : Progress)
      → IsVisited run.snapshots id
      → IsVisited (snapshot_each c prices s date ids run).snapshots id
  unfolding snapshot_each snapshot_one
  each_keeps [] id run h = h
  each_keeps (other ∷ ids) id run h = each_keeps ids id (snapshot_one c prices s date other run) (
      visit_keeps id other (find (has_snapshot other date) run.snapshots)
        (value_portfolio c prices s other) _ h)

  each_visits :
      (ids : List ℕ) (run : Progress)
      → All (IsVisited (snapshot_each c prices s date ids run).snapshots) ids
  unfolding snapshot_each snapshot_one
  each_visits [] run = tt
  each_visits (id ∷ ids) run = (
    each_keeps ids id (snapshot_one c prices s date id run) (
        visits id (find (has_snapshot id date) run.snapshots) (value_portfolio c prices s id) _ refl
          refl),
    each_visits ids (snapshot_one c prices s date id run),
  )

  each_again :
      (ids : List ℕ) (run : Progress)
      → All (IsVisited run.snapshots) ids
      → (snapshot_each c prices s date ids run).snapshots ≡ run.snapshots
  unfolding snapshot_each
  each_again [] run h = refl
  each_again (id ∷ ids) run h =
      let same = visited_again id run h.0 in
      each_again ids (snapshot_one c prices s date id run)
        (subst (λ rows. All (IsVisited rows) ids) (sym same) h.1)
      ∙ same

  -- Once the portfolios have been visited for a date, visiting them again with the same database
  -- and prices adds no snapshot.
  pub snapshot_each_twice :
      (ids : List ℕ) (run later : Progress)
      → later.snapshots ≡ (snapshot_each c prices s date ids run).snapshots
      → (snapshot_each c prices s date ids later).snapshots ≡ later.snapshots
  snapshot_each_twice ids run later same =
      each_again ids later
        (subst (λ rows. All (IsVisited rows) ids) (sym same) (each_visits ids run))

  -- No two snapshots are of the same portfolio and date.
  pub IsUnique : List PortfolioSnapshot → Type 0
  IsUnique [] = Unit
  IsUnique (r ∷ rs) = (find (has_snapshot r.portfolio_id r.snapshot_date) rs ≡ none) × IsUnique rs

  capture-IsUnique :
      (id : ℕ) (existing : Option PortfolioSnapshot) (val : Result PortfolioValuation)
      (run : Progress)
      → find (has_snapshot id date) run.snapshots ≡ existing
      → IsUnique run.snapshots
      → IsUnique (capture c prices s date id existing val run).snapshots
  unfolding IsUnique
  capture-IsUnique id (some row) val run e h = h
  capture-IsUnique id none (err e) run missing h = h
  capture-IsUnique id none (ok val) run missing h = (missing, h)

  -- The snapshots of a date leave no two snapshots of the same portfolio and date.
  pub snapshot_each-IsUnique :
      (ids : List ℕ) (run : Progress)
      → IsUnique run.snapshots
      → IsUnique (snapshot_each c prices s date ids run).snapshots
  unfolding snapshot_each snapshot_one
  snapshot_each-IsUnique [] run h = h
  snapshot_each-IsUnique (id ∷ ids) run h =
      snapshot_each-IsUnique ids (snapshot_one c prices s date id run) (
        capture-IsUnique id (find (has_snapshot id date) run.snapshots)
          (value_portfolio c prices s id) _ refl h)
