-- ===== src/OrderApi/Listed.antt =====
-- Which orders a user is shown.
use trade_alpha.Base.{
  ℕ, ◌≡◌, true, Bool, Option, some, List, [], ◌∷◌, All, arith, Option-cases, Bool-cases, inl, inr,
  ◌==◌, subst, sym,
}
use trade_alpha.Int.{ℤ, pos, ◌-ℤ◌, ◌*ℤ◌, ◌≤ℤ◌, min_ℤ}
use trade_alpha.Store.Rows.{Store, Order}
use trade_alpha.Store.Tables.{filter_where, All-map}
use trade_alpha.PortfolioApi.{answered}
use trade_alpha.OrderApi.{OrderQuery, OrderPage, get_orders, matches, or_default}

filter_where-own :
    (user_id : ℕ) (q : OrderQuery) (xs : List Order)
    → All (λ o. (o.user_id == user_id) ≡ true) (filter_where (matches user_id q) xs)
unfolding filter_where matches
filter_where-own user_id q [] = tt
filter_where-own user_id q (x ∷ xs) = elim (Bool-cases (matches user_id q x)) [
  | inl hit ↦ rw hit (ground arith, filter_where-own user_id q xs)
  | inr miss ↦ rw miss (filter_where-own user_id q xs)
]

size_bound : (n : ℤ) → min_ℤ n (pos 100) ≤ℤ pos 100
unfolding min_ℤ
size_bound n = ground arith

pub listed_own :
    (find_many : ℤ → ℤ → List Order → Option (List Order)) (user_id : ℕ) (q : OrderQuery)
    (s : Store) (page : OrderPage)
    → ((p : Order → Bool) (skip size : ℤ) (rows found : List Order)
        → find_many skip size rows ≡ some found
        → All (λ o. p o ≡ true) rows
        → All (λ o. p o ≡ true) found)
    → get_orders find_many (some user_id) q s ≡ answered page
    → All (λ o. o.user_id ≡ user_id) page.orders × (page.page_size ≤ℤ pos 100)
unfolding get_orders
listed_own find_many user_id q s page among h =
    let current = or_default (pos 1) q.page in
    let size = min_ℤ (or_default (pos 20) q.limit) (pos 100) in
    let rows = filter_where (matches user_id q) s.orders in
    elim (Option-cases (find_many ((current -ℤ pos 1) *ℤ size) size rows)) [
      | inl thrown ↦ ground arith
      | inr (found, run) ↦
          let same : page.orders ≡ found = ground arith in
          let sized : page.page_size ≡ size = ground arith in
          let own =
            among (λ o. o.user_id == user_id) ((current -ℤ pos 1) *ℤ size) size rows found run
              (filter_where-own user_id q s.orders) in
          (
            subst (All (λ (o : Order). o.user_id ≡ user_id)) (sym same) (
                All-map (λ (o : Order). (o.user_id == user_id) ≡ true)
                  (λ (o : Order). o.user_id ≡ user_id) found (λ o e. ground arith) own),
            rw sized (size_bound (or_default (pos 20) q.limit)),
          )
    ]
