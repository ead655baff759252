-- ===== src/OrderApi/Tests.antt =====
-- Requests of the user of one portfolio.
use trade_alpha.Base.{◌≡◌, refl, true, Bool, Option, none, some, List, [], ◌∷◌}
use trade_alpha.Int.{ℤ, pos, min_ℤ}
use trade_alpha.Column.HalfAway.{nearest}
use trade_alpha.Store.Rows.{Order}
use trade_alpha.Store.Tables.{filter_where}
use trade_alpha.Store.Tx.{Error}
use trade_alpha.Orders.Tests.{request, empty_store, open_store, order_at, morning, no_interim}
use trade_alpha.Orders.Placing.{order_data}
use trade_alpha.PortfolioApi.{answered}
use trade_alpha.OrderApi.{PlaceOrderBody, OrderQuery, OrderPage, place, cancel, get_orders}
use trade_alpha.OrderApi.Placed.{Answers, place-Answers}
use trade_alpha.OrderApi.Cancelled.{Cancels, cancel-Cancels}

abbrev silent : Error → Bool
silent _ = true

-- The body names another user, and no portfolio.
abbrev body : PlaceOrderBody
body = record { request = record request { user_id = 9 }; portfolio_id = none }

place-Answers_example :
    let after = place nearest silent (some 7) morning no_interim body empty_store in
    Answers nearest 7 body no_interim empty_store after.0 after.1
place-Answers_example = place-Answers nearest silent 7 morning no_interim body empty_store

cancel-Cancels_example :
    let after = cancel nearest silent (some 7) 3 no_interim open_store in
    Cancels nearest 7 3 no_interim open_store after.0 after.1
cancel-Cancels_example = cancel-Cancels nearest silent 7 3 no_interim open_store

abbrev all_orders : OrderQuery
all_orders = record {
  page = none;
  limit = none;
  statuses = none;
  symbol = none;
  side = none;
  order_type = none;
}

-- A database that answers every query with all rows.
abbrev everything : ℤ → ℤ → List Order → Option (List Order)
everything skip size rows = some rows

abbrev one_page : OrderPage
one_page = record {
  orders = order_at (pos 0) ∷ [];
  total_records = 1;
  current_page = pos 1;
  page_size = pos 20;
}

one_listed : get_orders everything (some 7) all_orders open_store ≡ answered one_page
unfolding get_orders filter_where order_data min_ℤ
one_listed = refl
