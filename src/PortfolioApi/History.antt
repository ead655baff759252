-- ===== src/PortfolioApi/History.antt =====
-- `getPositions` and `getHistory`. A day counts 86,400 seconds of the universal time; the prices of
-- the cache and the arithmetic of floating point are parameters. `limit` and `days` are what
-- `parseInt` gives; a negative number is left out.
use trade_alpha.Base.{
  ℕ, zero, suc, ◌+◌, ◌*◌, ◌==◌, leb, Bool, true, not, ◌&&◌, Option, none, some, List, [], ◌∷◌, map,
  String, take, if◌then◌else◌,
}
use trade_alpha.Int.{ℤ}
use trade_alpha.Store.Rows.{Store, Position}
use trade_alpha.Store.Tables.{find, filter_where}
use trade_alpha.Session.{day_seconds}
use trade_alpha.Positions.{has_portfolio_id}
use trade_alpha.PriceCache.{PriceAnswer}
use trade_alpha.Simulator.{Floats}
use trade_alpha.EodSweep.{PortfolioSnapshot}
use trade_alpha.PortfolioApi.{Response, denied, answered}

-- A portfolio of the user, 404 if it is not there, and 403 if it is another user's.
abbrev pub owned_or_403 : {A : Type 0} → Option ℕ → ℕ → Store → A → Response A
owned_or_403 none portfolio_id s body = denied 401
owned_or_403 (some user_id) portfolio_id s body =
    elim (find (has_portfolio_id portfolio_id) s.portfolios) [
      | none ↦ denied 404
      | some p ↦ if not (p.user_id == user_id) then denied 403 else answered body
    ]

-- A position as it is shown.
pub record PositionView : Type 0 where
  pub position : Position
  pub quote : PriceAnswer
  pub unrealized_pnl : Option ℤ
  pub total_value : Option ℤ

module _ {N : Type 0} (f : Floats N) where
  unfoldable pub view_of : PriceAnswer → Position → PositionView
  view_of quote p =
      let hidden : PositionView = record {
        position = p;
        quote = quote;
        unrealized_pnl = none;
        total_value = none;
      } in
      if quote.is_stale then hidden else elim quote.price [
        | none ↦ hidden
        | some price ↦
            let gain = f.sub (f.from_units price) (f.from_units p.average_entry_price) in
            let quantity = f.from_units p.quantity in
            record hidden {
              unrealized_pnl = some (f.to_fixed (f.mul gain quantity));
              total_value = some (f.to_fixed (f.mul (f.from_units price) quantity));
            }
      ]

  unfoldable pub get_positions :
      (String → PriceAnswer) → Option ℕ → ℕ → Store → Response (List PositionView)
  unfolding view_of
  get_positions prices user portfolio_id s = owned_or_403 user portfolio_id s (
      map (λ (p : Position). view_of (prices p.symbol) p)
        (filter_where (λ p. p.portfolio_id == portfolio_id) s.positions))

-- `orderBy: { snapshotDate: 'asc' }`; a portfolio has one snapshot for a date.
unfoldable pub insert_by_date : PortfolioSnapshot → List PortfolioSnapshot → List PortfolioSnapshot
insert_by_date x [] = x ∷ []
insert_by_date x (y ∷ ys) =
    let rest = insert_by_date x ys in
    if leb x.snapshot_date y.snapshot_date then x ∷ y ∷ ys else y ∷ rest

unfoldable pub sort_by_date : List PortfolioSnapshot → List PortfolioSnapshot
sort_by_date [] = []
sort_by_date (x ∷ xs) = insert_by_date x (sort_by_date xs)

-- `parsed || 30`
abbrev pub limit_or_30 : Option ℕ → ℕ
limit_or_30 none = 30
limit_or_30 (some zero) = 30
limit_or_30 (some (suc n)) = suc n

-- `snapshotDate: { gte: fromDate }`, with the hours of the present day.
abbrev pub is_recent : ℕ → Option ℕ → PortfolioSnapshot → Bool
is_recent now none r = true
is_recent now (some days) r = leb now (r.snapshot_date * day_seconds + days * day_seconds)

abbrev pub is_shown : ℕ → Option ℕ → ℕ → PortfolioSnapshot → Bool
is_shown now days portfolio_id r = r.portfolio_id == portfolio_id && is_recent now days r

unfoldable pub get_history :
    ℕ
    → Option ℕ
    → ℕ
    → Option ℕ
    → Option ℕ
    → List PortfolioSnapshot
    → Store
    → Response (List PortfolioSnapshot)
get_history now user portfolio_id limit days snapshots s = owned_or_403 user portfolio_id s (
    take (limit_or_30 limit)
      (sort_by_date (filter_where (is_shown now days portfolio_id) snapshots)))
