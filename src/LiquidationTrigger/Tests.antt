-- ===== src/LiquidationTrigger/Tests.antt =====
-- A tick of the symbol that a portfolio holds, and ticks that queue nothing.
use trade_alpha.Base.{◌≡◌, ◌⊎◌, refl, false, none, some, [], ◌∷◌, map}
use trade_alpha.Int.{pos}
use trade_alpha.Store.Rows.{Store, Portfolio, Position}
use trade_alpha.Store.Tables.{find}
use trade_alpha.Liquidation.Tests.{before}
use trade_alpha.LiquidationTrigger.{
  TickMessage, handle_message, exposed_portfolios, is_exposed, enqueue_each,
}
use trade_alpha.LiquidationTrigger.Once.{jobs_for, HoldsOpen, HasMargin, handle_message_once}

abbrev envelope : TickMessage
envelope = record { symbol = none; payload_symbol = some "TCS" }

one_job :
    handle_message (λ id. 100) (some envelope) before
    ≡ record { portfolio_id = 1; second = 100 } ∷ []
unfolding handle_message exposed_portfolios is_exposed enqueue_each find
one_job = refl

abbrev without_margin : Store
without_margin = record before {
  portfolios = map (λ (p : Portfolio). record p { is_margin_enabled = false }) before.portfolios;
}

no_margin_no_job : handle_message (λ id. 100) (some envelope) without_margin ≡ []
unfolding handle_message exposed_portfolios is_exposed enqueue_each find
no_margin_no_job = refl

abbrev sold_out : Store
sold_out = record before {
  positions = map (λ (p : Position). record p { quantity = pos 0 }) before.positions;
}

sold_out_no_job : handle_message (λ id. 100) (some envelope) sold_out ≡ []
unfolding handle_message exposed_portfolios is_exposed enqueue_each find
sold_out_no_job = refl

handle_message_once_example :
    let jobs = jobs_for 1 (handle_message (λ id. 100) (some envelope) before) in
    ((jobs ≡ 1) × HoldsOpen "TCS" 1 before.positions × HasMargin 1 before.portfolios)
    ⊎ ((jobs ≡ 0) × ¬ (HoldsOpen "TCS" 1 before.positions × HasMargin 1 before.portfolios))
handle_message_once_example = handle_message_once (λ id. 100) envelope before "TCS" 1 refl
