-- ===== src/Valuation/Tests.antt =====
-- The valuation of concrete portfolios.
use trade_alpha.Base.{◌≡◌, refl, false, some, List, [], ◌∷◌}
use trade_alpha.Int.{ℤ, pos, negsuc, ◌*ℤ◌}
use trade_alpha.Column.HalfAway.{nearest, half_away, half_up}
use trade_alpha.Store.Rows.{Position, opened}
use trade_alpha.Valuation.{PriceCache, margin_level_of}

abbrev prices : PriceCache
prices symbol = record { price = some (pos 1_100_000); is_stale = false }

abbrev position : ℤ → Position
position quantity = record {
  id = 1;
  portfolio_id = 1;
  symbol = "TCS";
  quantity = quantity;
  locked_quantity = pos 0;
  average_entry_price = pos 1_000_000;
  realized_pnl = pos 0;
  status = opened;
}

abbrev positions : List Position
positions = position (pos 20_000) ∷ position (negsuc 9_999) ∷ []

called_level : margin_level_of nearest (pos 110) (pos 10_000) ≡ some (pos 1_100_000)
unfolding margin_level_of half_away half_up ◌*ℤ◌
called_level = refl
