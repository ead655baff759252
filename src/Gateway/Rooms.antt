-- ===== src/Gateway/Rooms.antt =====
-- The rooms and the subscriptions of a socket.
use trade_alpha.Base.{
  ℕ, ◌≤◌, ◌==◌, leb, ◌≡◌, refl, true, false, Option, none, some, List, [], ◌∷◌, All, String, str_eq,
  str_eq_iff, length, arith, inl, inr, Bool-cases,
}
use trade_alpha.Store.Rows.{Portfolio}
use trade_alpha.Store.Tables.{find, All-map}
use trade_alpha.Positions.{has_portfolio_id}
use trade_alpha.Gateway.{
  Socket, Room, portfolio_room, market_room, SocketEvent, joins_portfolio, joins_market,
  leaves_market, max_market_subscriptions, same_room, has_symbol, without_symbol, without_room,
  admit_owner, join_portfolio, join_market, leave_market, handle_event, handle_socket_events,
}

-- A room of a portfolio belongs to the user, and a room of a market to a subscription.
abbrev pub IsPermitted : List Portfolio → ℕ → List String → Room → Type 0
IsPermitted portfolios user_id symbols (portfolio_room id) =
    (p : Portfolio) × (find (has_portfolio_id id) portfolios ≡ some p) × (p.user_id ≡ user_id)
IsPermitted portfolios user_id symbols (market_room symbol) = has_symbol symbol symbols ≡ true

pub record IsGuarded (portfolios : List Portfolio) (k : Socket) : Type 0 where
  pub permitted : All (IsPermitted portfolios k.user_id k.market_subscriptions) k.rooms
  pub bounded : length k.market_subscriptions ≤ 50

module _ (portfolios : List Portfolio) where
  more_symbols :
      (user_id : ℕ) (symbol : String) (symbols : List String) (r : Room)
      → IsPermitted portfolios user_id symbols r
      → IsPermitted portfolios user_id (symbol ∷ symbols) r
  more_symbols user_id symbol symbols (portfolio_room id) h = h
  more_symbols user_id symbol symbols (market_room other) h = ground arith

  without_symbol-has_symbol :
      (symbol other : String) (symbols : List String)
      → str_eq other symbol ≡ false
      → has_symbol other symbols ≡ true
      → has_symbol other (without_symbol symbol symbols) ≡ true
  unfolding without_symbol
  without_symbol-has_symbol symbol other [] differs h = h
  without_symbol-has_symbol symbol other (x ∷ xs) differs h = ground (
    arith,
    str_eq_iff x symbol,
    str_eq_iff x other,
    str_eq_iff other symbol,
    without_symbol-has_symbol symbol other xs differs,
  )

  fewer_symbols :
      (user_id : ℕ) (symbol : String) (symbols : List String) (r : Room)
      → same_room r (market_room symbol) ≡ false
      → IsPermitted portfolios user_id symbols r
      → IsPermitted portfolios user_id (without_symbol symbol symbols) r
  fewer_symbols user_id symbol symbols (portfolio_room id) differs h = h
  fewer_symbols user_id symbol symbols (market_room other) differs h =
      without_symbol-has_symbol symbol other symbols differs h

  without_room-IsPermitted :
      (user_id : ℕ) (symbol : String) (symbols : List String) (rs : List Room)
      → All (IsPermitted portfolios user_id symbols) rs
      → All
          (IsPermitted portfolios user_id (without_symbol symbol symbols))
          (without_room (market_room symbol) rs)
  unfolding without_room
  without_room-IsPermitted user_id symbol symbols [] h = tt
  without_room-IsPermitted user_id symbol symbols (r ∷ rs) h =
      let rest = without_room-IsPermitted user_id symbol symbols rs h.1 in
      elim (Bool-cases (same_room r (market_room symbol))) [
        | inl same ↦ rw same rest
        | inr differs ↦ rw differs (fewer_symbols user_id symbol symbols r differs h.0, rest)
      ]

  length-without_symbol :
      (symbol : String) (symbols : List String)
      → length (without_symbol symbol symbols) ≤ length symbols
  unfolding without_symbol
  length-without_symbol symbol [] = omega arith
  length-without_symbol symbol (x ∷ xs) =
      ground (arith, Bool-cases (str_eq x symbol), length-without_symbol symbol xs)

  join_market-IsGuarded :
      (argument : Option String) (k : Socket)
      → IsGuarded portfolios k
      → IsGuarded portfolios (join_market argument k).1
  unfolding join_market
  join_market-IsGuarded none k h = h
  join_market-IsGuarded (some symbol) k h =
      elim (Bool-cases (has_symbol symbol k.market_subscriptions)) [
        | inl subscribed ↦ rw subscribed h
        | inr new ↦
            elim (Bool-cases (leb max_market_subscriptions (length k.market_subscriptions))) [
              | inl full ↦ rw (new, full) h
              | inr room ↦
                  rw (new, room)
                    (record {
                      permitted = (
                        ground (arith, str_eq_iff symbol symbol),
                        All-map (IsPermitted portfolios k.user_id k.market_subscriptions) _ k.rooms
                            (more_symbols k.user_id symbol k.market_subscriptions) h.permitted,
                      );
                      bounded = ground arith;
                    })
            ]
      ]

  admit_owner-IsGuarded :
      (id : ℕ) (found : Option Portfolio) (k : Socket)
      → find (has_portfolio_id id) portfolios ≡ found
      → IsGuarded portfolios k
      → IsGuarded portfolios (admit_owner id found k).1
  admit_owner-IsGuarded id none k e h = h
  admit_owner-IsGuarded id (some p) k e h = elim (Bool-cases (p.user_id == k.user_id)) [
    | inl own ↦
        rw own (record { permitted = ((p, e, ground arith), h.permitted); bounded = h.bounded })
    | inr other ↦ rw other h
  ]

  handle_event-IsGuarded :
      (e : SocketEvent) (k : Socket)
      → IsGuarded portfolios k
      → IsGuarded portfolios (handle_event portfolios e k).1
  unfolding handle_event join_portfolio leave_market
  handle_event-IsGuarded (joins_portfolio none) k h = h
  handle_event-IsGuarded (joins_portfolio (some id)) k h =
      admit_owner-IsGuarded id (find (has_portfolio_id id) portfolios) k refl h
  handle_event-IsGuarded (joins_market symbol) k h = join_market-IsGuarded symbol k h
  handle_event-IsGuarded (leaves_market symbol) k h =
      let fewer = length-without_symbol symbol k.market_subscriptions in
      let bound = h.bounded in
      record {
        permitted =
            without_room-IsPermitted k.user_id symbol k.market_subscriptions k.rooms h.permitted;
        bounded = omega arith;
      }

  -- Whatever a socket asks for, one event after another with the portfolios as they are, it stays
  -- guarded: every room of a portfolio that it is in belongs to its user, every room of a market
  -- to one of its subscriptions, and it has at most 50 of these.
  pub handle_socket_events-IsGuarded :
      (es : List SocketEvent) (k : Socket)
      → IsGuarded portfolios k
      → IsGuarded portfolios (handle_socket_events portfolios es k)
  unfolding handle_socket_events
  handle_socket_events-IsGuarded [] k h = h
  handle_socket_events-IsGuarded (e ∷ es) k h =
      handle_socket_events-IsGuarded es (handle_event portfolios e k).1
        (handle_event-IsGuarded e k h)
