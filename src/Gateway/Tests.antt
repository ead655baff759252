-- ===== src/Gateway/Tests.antt =====
-- A user who joins the room of a market and that of a portfolio.
use trade_alpha.Base.{◌≡◌, refl, false, some, List, [], ◌∷◌, arith}
use trade_alpha.Int.{pos}
use trade_alpha.Store.Rows.{Portfolio}
use trade_alpha.Store.Tables.{find}
use trade_alpha.Gateway.{
  Socket, SocketEvent, portfolio_room, joins_portfolio, joins_market, leaves_market, without_symbol,
  without_room, join_portfolio, join_market, leave_market, handle_event, handle_socket_events,
}
use trade_alpha.Gateway.Rooms.{IsGuarded, handle_socket_events-IsGuarded}

abbrev portfolios : List Portfolio
portfolios =
    record {
      id = 1;
      user_id = 7;
      total_cash = pos 0;
      locked_cash = pos 0;
      is_margin_enabled = false;
      locked_margin = pos 0;
    }
    ∷ []

abbrev socket : Socket
socket = record { user_id = 7; market_subscriptions = []; rooms = [] }

abbrev events : List SocketEvent
events = joins_market (some "TCS") ∷ joins_portfolio (some 1) ∷ leaves_market "TCS" ∷ []

rooms_after : (handle_socket_events portfolios events socket).rooms ≡ portfolio_room 1 ∷ []
unfolding handle_socket_events handle_event join_market join_portfolio leave_market find
    without_symbol without_room
rooms_after = refl

socket-IsGuarded : IsGuarded portfolios socket
socket-IsGuarded = record { permitted = tt; bounded = omega arith }

handle_socket_events-IsGuarded_example :
    IsGuarded portfolios (handle_socket_events portfolios events socket)
handle_socket_events-IsGuarded_example =
    handle_socket_events-IsGuarded portfolios events socket socket-IsGuarded
