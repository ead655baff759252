-- ===== src/PortfolioApi.antt =====
-- apps/api/src/controllers/portfolio.controller.ts: what the handlers of a portfolio, of its fills
-- and of its ledger answer to a user. `parseInt` is applied before: a query parameter is a number
-- or none. Tables stand with the last row first. A query that fails,
-- which answers 500, and the columns that are added to a row for display are left out.
pub mod Access
pub mod Pages
pub mod History
pub mod Frozen
pub mod Tests
use trade_alpha.Base.{
  ℕ, zero, suc, ◌+◌, ◌-◌, ◌*◌, ◌==◌, Bool, true, false, not, Option, none, some, List, [], ◌∷◌,
  ◌++◌, length, take, drop, if◌then◌else◌,
}
use trade_alpha.Int.{ℤ, pos, negsuc, pos_part}
use trade_alpha.Column.{Column}
use trade_alpha.Store.Rows.{
  Store, Portfolio, Order, OrderFill, Account, user_cash, LedgerEntry, LedgerTransaction,
}
use trade_alpha.Store.Tables.{find, filter_where}
use trade_alpha.Store.Tx.{Result, ok, err}
use trade_alpha.Valuation.{PriceCache, PortfolioValuation}
use trade_alpha.Positions.{has_portfolio_id}
use trade_alpha.Orders.Rows.{has_order_id}
use trade_alpha.EodSweep.{value_portfolio}

-- A status other than 200, or what a handler of that kind answers.
pub data Response (A : Type 0) : Type 0 where
  denied : (status : ℕ) → Response A
  answered : A → Response A

pub record Page (A : Type 0) : Type 0 where
  pub rows : List A
  pub total : ℕ
  pub page : ℕ
  pub limit : ℕ

-- `parseInt(…) || fallback`, at least 1.
abbrev pub at_least_one : ℕ → Option ℤ → ℕ
at_least_one fallback none = fallback
at_least_one fallback (some (pos zero)) = fallback
at_least_one fallback (some (pos (suc n))) = suc n
at_least_one fallback (some (negsuc _)) = 1

abbrev pub min_ℕ : ℕ → ℕ → ℕ
min_ℕ a b = a - (a - b)

abbrev pub page_of : Option ℤ → ℕ
page_of = at_least_one 1

abbrev pub limit_of : Option ℤ → ℕ
limit_of parsed = min_ℕ (at_least_one 50 parsed) 100

-- `skip` and `take` of a query, with the count of all rows.
unfoldable pub paginate : {A : Type 0} → ℕ → ℕ → List A → Page A
paginate page limit rows = record {
  rows = take limit (drop ((page - 1) * limit) rows);
  total = length rows;
  page = page;
  limit = limit;
}

-- `where: { order: { portfolioId } }`
abbrev pub is_fill_of : ℕ → Store → OrderFill → Bool
is_fill_of portfolio_id s f = elim (find (has_order_id f.order_id) s.orders) [
  | none ↦ false
  | some order ↦ order.portfolio_id == portfolio_id
]

-- The account is named `user_cash_${userId}` or `user_sec_${userId}`, which no account of a symbol
-- is: those are named `user_sec_${userId}_${symbol}`.
abbrev pub is_listed : ℕ → LedgerEntry → Bool
is_listed user_id e = elim e.account_id [ user_cash id ↦ id == user_id | _ ↦ false ]

unfoldable pub entries_of : List LedgerTransaction → List LedgerEntry
entries_of [] = []
entries_of (t ∷ ts) = t.entries ++ entries_of ts

-- 404 for a portfolio of another user, as of one that is not there.
abbrev pub owned_or_404 : {A : Type 0} → ℕ → Option Portfolio → A → Response A
owned_or_404 user_id none body = denied 404
owned_or_404 user_id (some p) body =
    if not (p.user_id == user_id) then denied 404 else answered body

module _ (c : Column) (prices : PriceCache) (s : Store) where
  unfoldable pub get_portfolio : Option ℕ → ℕ → Response (Portfolio × PortfolioValuation)
  get_portfolio none portfolio_id = denied 401
  get_portfolio (some user_id) portfolio_id =
      elim (find (has_portfolio_id portfolio_id) s.portfolios) [
        | none ↦ denied 404
        | some p ↦
            if not (p.user_id == user_id)
            then denied 403
            else elim (value_portfolio c prices s p.id)
                as (λ _. Response (Portfolio × PortfolioValuation)) [
                  | err e ↦ denied 500
                  | ok valuation ↦ answered (p, valuation)
                ]
      ]

  unfoldable pub get_fills : Option ℕ → ℕ → Option ℤ → Option ℤ → Response (Page OrderFill)
  get_fills none portfolio_id page limit = denied 404
  get_fills (some user_id) portfolio_id page limit =
      owned_or_404 user_id (find (has_portfolio_id portfolio_id) s.portfolios) (
        paginate (page_of page) (limit_of limit) (filter_where (is_fill_of portfolio_id s) s.fills))

  unfoldable pub get_ledger : Option ℕ → ℕ → Option ℤ → Option ℤ → Response (Page LedgerEntry)
  get_ledger none portfolio_id page limit = denied 404
  get_ledger (some user_id) portfolio_id page limit =
      owned_or_404 user_id (find (has_portfolio_id portfolio_id) s.portfolios) (
        paginate (page_of page) (limit_of limit)
          (filter_where (is_listed user_id) (entries_of s.ledger)))
