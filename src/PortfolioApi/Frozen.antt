-- ===== src/PortfolioApi/Frozen.antt =====
-- The history of a portfolio that has been there for a while.
use trade_alpha.Base.{
  ℕ, zero, suc, ◌≤◌, ◌<◌, ◌≡◌, refl, ap, ◌∙◌, leb, Option, none, List, [], ◌∷◌, ◌++◌, All, take,
  length, arith, Bool-cases, inl, inr,
}
use trade_alpha.Store.Rows.{Store}
use trade_alpha.Store.Tables.{filter_where}
use trade_alpha.EodSweep.{PortfolioSnapshot}
use trade_alpha.PortfolioApi.History.{
  insert_by_date, sort_by_date, limit_or_30, is_shown, get_history, owned_or_403,
}

-- The date of a row is before a date.
abbrev pub IsBefore : ℕ → PortfolioSnapshot → Type 0
IsBefore date r = r.snapshot_date < date

insert-IsBefore :
    (date : ℕ) (x : PortfolioSnapshot) (ys : List PortfolioSnapshot)
    → IsBefore date x
    → All (IsBefore date) ys
    → All (IsBefore date) (insert_by_date x ys)
unfolding insert_by_date
insert-IsBefore date x [] h all = (h, tt)
insert-IsBefore date x (y ∷ ys) h all = elim (Bool-cases (leb x.snapshot_date y.snapshot_date)) [
  | inl first ↦ rw first (h, all)
  | inr later ↦ rw later (all.0, insert-IsBefore date x ys h all.1)
]

sort-IsBefore :
    (date : ℕ) (xs : List PortfolioSnapshot)
    → All (IsBefore date) xs
    → All (IsBefore date) (sort_by_date xs)
unfolding sort_by_date
sort-IsBefore date [] all = tt
sort-IsBefore date (x ∷ xs) all =
    insert-IsBefore date x (sort_by_date xs) all.0 (sort-IsBefore date xs all.1)

insert_last :
    (x : PortfolioSnapshot) (ys : List PortfolioSnapshot)
    → All (IsBefore x.snapshot_date) ys
    → insert_by_date x ys ≡ ys ++ (x ∷ [])
unfolding insert_by_date
insert_last x [] all = refl
insert_last x (y ∷ ys) all = ground (arith, insert_last x ys all.1)

length-insert :
    (x : PortfolioSnapshot) (ys : List PortfolioSnapshot)
    → length (insert_by_date x ys) ≡ suc (length ys)
unfolding insert_by_date
length-insert x [] = refl
length-insert x (y ∷ ys) = ground (arith, length-insert x ys)

length-sort : (xs : List PortfolioSnapshot) → length (sort_by_date xs) ≡ length xs
unfolding sort_by_date
length-sort [] = refl
length-sort (x ∷ xs) = length-insert x (sort_by_date xs) ∙ ap suc (length-sort xs)

take_front :
    (n : ℕ) (xs ys : List PortfolioSnapshot) → n ≤ length xs → take n (xs ++ ys) ≡ take n xs
take_front zero xs ys h = refl
take_front (suc n) [] ys h = absurd (omega arith)
take_front (suc n) (x ∷ xs) ys h = ap (λ zs. x ∷ zs) (take_front n xs ys (omega arith))

shown_too :
    (now portfolio_id : ℕ) (x : PortfolioSnapshot) (snapshots : List PortfolioSnapshot)
    → x.portfolio_id ≡ portfolio_id
    → filter_where (is_shown now none portfolio_id) (x ∷ snapshots)
      ≡ x ∷ filter_where (is_shown now none portfolio_id) snapshots
unfolding filter_where
shown_too now portfolio_id x snapshots own = ground arith

late_row :
    (x : PortfolioSnapshot) (rows : List PortfolioSnapshot) (count : ℕ)
    → All (IsBefore x.snapshot_date) rows
    → count ≤ length rows
    → take count (sort_by_date (x ∷ rows)) ≡ take count (sort_by_date rows)
unfolding sort_by_date
late_row x rows count all full =
    ap (take count) (insert_last x (sort_by_date rows) (sort-IsBefore x.snapshot_date rows all))
    ∙ take_front count (sort_by_date rows) (x ∷ []) (omega (arith, length-sort rows))

-- Once a portfolio has as many snapshots as the history is limited to, 30 if nothing else is
-- asked, a snapshot of a later date changes nothing in the history that is shown without a number
-- of days.
pub history_frozen :
    (now later portfolio_id : ℕ) (user limit : Option ℕ) (x : PortfolioSnapshot)
    (snapshots : List PortfolioSnapshot) (s : Store)
    → x.portfolio_id ≡ portfolio_id
    → let shown = filter_where (is_shown now none portfolio_id) snapshots in
      All (IsBefore x.snapshot_date) shown
      → limit_or_30 limit ≤ length shown
      → get_history later user portfolio_id limit none (x ∷ snapshots) s
        ≡ get_history now user portfolio_id limit none snapshots s
unfolding get_history
history_frozen now later portfolio_id user limit x snapshots s own all full =
    let shown = filter_where (is_shown now none portfolio_id) snapshots in
    let count = limit_or_30 limit in
    let added =
      ap (λ rows. take count (sort_by_date rows)) (shown_too later portfolio_id x snapshots own) in
    ap (owned_or_403 user portfolio_id s) (added ∙ late_row x shown count all full)
