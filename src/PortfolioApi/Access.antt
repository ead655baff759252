-- ===== src/PortfolioApi/Access.antt =====
-- A portfolio of another user.
use trade_alpha.Base.{ℕ, ◌≡◌, ◌≢◌, Option, some, arith}
use trade_alpha.Int.{ℤ}
use trade_alpha.Column.{Column}
use trade_alpha.Store.Rows.{Store, Portfolio}
use trade_alpha.Store.Tables.{find}
use trade_alpha.Valuation.{PriceCache}
use trade_alpha.Positions.{has_portfolio_id}
use trade_alpha.PortfolioApi.{denied, get_portfolio, get_fills, get_ledger}

-- A user who asks for a portfolio that is there and belongs to another user is denied: with 403
-- for the portfolio, and with 404 for its fills and its ledger, whatever page is asked for.
pub owner_only :
    (c : Column) (prices : PriceCache) (s : Store) (user_id portfolio_id : ℕ) (p : Portfolio)
    (page limit : Option ℤ)
    → find (has_portfolio_id portfolio_id) s.portfolios ≡ some p
    → p.user_id ≢ user_id
    → (get_portfolio c prices s (some user_id) portfolio_id ≡ denied 403)
      × (get_fills c prices s (some user_id) portfolio_id page limit ≡ denied 404)
      × (get_ledger c prices s (some user_id) portfolio_id page limit ≡ denied 404)
unfolding get_portfolio get_fills get_ledger
owner_only c prices s user_id portfolio_id p page limit found other =
    (ground arith, ground arith, ground arith)
