-- ===== src/EodSweep/Paging.antt =====
-- The loop over the pages ends, and visits every portfolio once.
use trade_alpha.Base.{
  subst, none, Option, ℕ, zero, suc, ◌+◌, ◌-◌, ◌*◌, ◌/◌, ◌≤◌, ◌≡◌, refl, sym, ◌∙◌, ap, List, [],
  ◌∷◌, some, length, take, drop, arith,
}
use trade_alpha.Column.{Column}
use trade_alpha.Store.Rows.{Store}
use trade_alpha.Store.Tables.{find}
use trade_alpha.Store.Tx.{Result, ok, err}
use trade_alpha.Valuation.{PriceCache, PortfolioValuation}
use trade_alpha.EodSweep.{
  PortfolioSnapshot, snapshot_of, Progress, capture, snapshot_one, snapshot_each, snapshot_pages,
  value_portfolio, has_snapshot,
}

abbrev pub add_queries : ℕ → Progress → Progress
add_queries n run = record run { db_query_count = run.db_query_count + n }

module _ (c : Column) (prices : PriceCache) (s : Store) (date : ℕ) where
  capture-add_queries :
      (n id : ℕ) (existing : Option PortfolioSnapshot) (val : Result PortfolioValuation)
      (run : Progress)
      → capture c prices s date id existing val
          (record run { db_query_count = run.db_query_count + n + 1 })
        ≡ add_queries n (
            capture c prices s date id existing val
              (record run { db_query_count = run.db_query_count + 1 }))
  capture-add_queries n id (some row) val run =
      ap (λ k. record run { processed_count = run.processed_count + 1; db_query_count = k })
        (omega arith)
  capture-add_queries n id none (err e) run =
      ap (λ k. record run { failure_count = run.failure_count + 1; db_query_count = k })
        (omega arith)
  capture-add_queries n id none (ok val) run =
      ap
        (λ k. record run {
          snapshots = snapshot_of c prices s id date val ∷ run.snapshots;
          processed_count = run.processed_count + 1;
          db_query_count = k;
        })
        (omega arith)

  snapshot_one-add_queries :
      (n id : ℕ) (run : Progress)
      → snapshot_one c prices s date id (add_queries n run)
        ≡ add_queries n (snapshot_one c prices s date id run)
  unfolding snapshot_one
  snapshot_one-add_queries n id run =
      capture-add_queries n id (find (has_snapshot id date) run.snapshots)
        (value_portfolio c prices s id) run

  snapshot_each-add_queries :
      (n : ℕ) (ids : List ℕ) (run : Progress)
      → snapshot_each c prices s date ids (add_queries n run)
        ≡ add_queries n (snapshot_each c prices s date ids run)
  unfolding snapshot_each
  snapshot_each-add_queries n [] run = refl
  snapshot_each-add_queries n (id ∷ ids) run =
      ap (snapshot_each c prices s date ids) (snapshot_one-add_queries n id run)
      ∙ snapshot_each-add_queries n ids (snapshot_one c prices s date id run)

  snapshot_each-take :
      (n : ℕ) (ids : List ℕ) (run : Progress)
      → snapshot_each c prices s date (drop n ids) (snapshot_each c prices s date (take n ids) run)
        ≡ snapshot_each c prices s date ids run
  unfolding snapshot_each
  snapshot_each-take zero ids run = refl
  snapshot_each-take (suc n) [] run = refl
  snapshot_each-take (suc n) (id ∷ ids) run =
      snapshot_each-take n ids (snapshot_one c prices s date id run)

drop_empty : (n : ℕ) → drop {A = ℕ} n [] ≡ []
drop_empty zero = refl
drop_empty (suc n) = refl

drop-drop : (m n : ℕ) (xs : List ℕ) → drop (m + n) xs ≡ drop n (drop m xs)
drop-drop zero n xs = ap (λ k. drop k xs) (omega arith)
drop-drop (suc m) n [] = drop_empty (suc m + n) ∙ sym (drop_empty n)
drop-drop (suc m) n (x ∷ xs) =
    let shift : suc m + n ≡ suc (m + n) = omega arith in
    ap (λ k. drop k (x ∷ xs)) shift ∙ drop-drop m n xs

length-drop : (n : ℕ) (xs : List ℕ) → length (drop n xs) ≡ length xs - n
length-drop zero xs = omega arith
length-drop (suc n) [] = omega arith
length-drop (suc n) (x ∷ xs) = length-drop n xs ∙ omega arith

-- The queries for the pages, the last one empty.
abbrev pub page_queries : ℕ → ℕ
page_queries n = (n + 99) / 100 + 1

module _ (c : Column) (prices : PriceCache) (s : Store) (date : ℕ) where
  abbrev visit : List ℕ → Progress → Progress
  visit = snapshot_each c prices s date

  pages_of_rest :
      (fuel : ℕ) (ids : List ℕ) (skip : ℕ) (run : Progress) (rest : List ℕ)
      → drop skip ids ≡ rest
      → ((later : Progress)
          → length (drop 100 rest) + 100 ≤ 100 * fuel
          → snapshot_pages c prices s date fuel ids (skip + 100) later
            ≡ some (
                add_queries
                  (page_queries (length (drop 100 rest)))
                  (snapshot_each c prices s date (drop 100 rest) later)))
      → length rest + 100 ≤ 100 * suc fuel
      → snapshot_pages c prices s date (suc fuel) ids skip run
        ≡ some (add_queries (page_queries (length rest)) (snapshot_each c prices s date rest run))
  unfolding snapshot_pages snapshot_each
  pages_of_rest fuel ids skip run [] e next h = rw (e, snapshot_pages) refl
  pages_of_rest fuel ids skip run (id ∷ rest) e next h =
      let all = id ∷ rest in
      let looked = add_queries 1 run in
      let left = length-drop 100 all in
      let visited =
        ap (λ r. visit (drop 100 all) (visit (take 100 r) looked)) e
        ∙ snapshot_each-take c prices s date 100 all looked
        ∙ snapshot_each-add_queries c prices s date 1 all run in
      rw (e, snapshot_pages)
        (next (visit (take 100 (drop skip ids)) looked) (omega (arith, left))
          ∙ ap (λ p. some (add_queries (page_queries (length (drop 100 all))) p)) visited
          ∙ ap (λ k. some (record (visit all run) { db_query_count = k })) (omega (arith, left)))

  snapshot_pages_lem :
      (fuel : ℕ) (ids : List ℕ) (skip : ℕ) (run : Progress)
      → length (drop skip ids) + 100 ≤ 100 * fuel
      → snapshot_pages c prices s date fuel ids skip run
        ≡ some (
            add_queries
              (page_queries (length (drop skip ids)))
              (snapshot_each c prices s date (drop skip ids) run))
  snapshot_pages_lem zero ids skip run h = absurd (omega arith)
  snapshot_pages_lem (suc fuel) ids skip run h =
      pages_of_rest fuel ids skip run (drop skip ids) refl
        (λ later few.
          subst
            (λ rest.
              length rest + 100 ≤ 100 * fuel
              → snapshot_pages c prices s date fuel ids (skip + 100) later
                ≡ some (
                    add_queries (page_queries (length rest))
                      (snapshot_each c prices s date rest later)))
            (drop-drop skip 100 ids) (snapshot_pages_lem fuel ids (skip + 100) later) few)
        h

  -- The loop over the pages ends: with fuel for two more pages than there are hundreds of
  -- portfolios it answers what the visit of all portfolios in their order leaves, with one query
  -- counted for each page and one for the empty page at the end.
  pub snapshot_pages_ends :
      (fuel : ℕ) (ids : List ℕ) (run : Progress)
      → length ids / 100 + 2 ≤ fuel
      → snapshot_pages c prices s date fuel ids 0 run
        ≡ some (add_queries (page_queries (length ids)) (snapshot_each c prices s date ids run))
  snapshot_pages_ends fuel ids run h = snapshot_pages_lem fuel ids 0 run (omega arith)
