-- ===== src/Gateway.antt =====
-- apps/api/src/websocket.ts: what a client of the web socket may join. Times count seconds. The
-- check of a token by the library `jsonwebtoken` is a parameter. The rooms of a socket are those of
-- its handlers, and one may be listed twice; the messages that are passed on to everybody are left out.
pub mod Rooms
pub mod Tests
use trade_alpha.Base.{
  ℕ, zero, suc, ◌+◌, ◌==◌, ltb, leb, Bool, true, false, not, ◌&&◌, ◌||◌, Option, none, some, List,
  [], ◌∷◌, String, str_eq, length, if◌then◌else◌,
}
use trade_alpha.Store.Rows.{Portfolio}
use trade_alpha.Store.Tables.{find}
use trade_alpha.Positions.{has_portfolio_id}

abbrev pub max_market_subscriptions : ℕ
max_market_subscriptions = 50

pub data Room : Type 0 where
  portfolio_room : (portfolio_id : ℕ) → Room
  market_room : (symbol : String) → Room

pub record Socket : Type 0 where
  pub user_id : ℕ
  pub market_subscriptions : List String
  pub rooms : List Room

pub data Reply : Type 0 where
  success invalid_argument portfolio_not_found unauthorized too_many : Reply

abbrev pub same_room : Room → Room → Bool
same_room (portfolio_room a) (portfolio_room b) = a == b
same_room (market_room a) (market_room b) = str_eq a b
same_room _ _ = false

-- `Set.has` and `Set.delete`
abbrev pub has_symbol : String → List String → Bool
has_symbol symbol [] = false
has_symbol symbol (x ∷ xs) = str_eq x symbol || has_symbol symbol xs

unfoldable pub without_symbol : String → List String → List String
without_symbol symbol [] = []
without_symbol symbol (x ∷ xs) =
    let rest = without_symbol symbol xs in if str_eq x symbol then rest else x ∷ rest

unfoldable pub without_room : Room → List Room → List Room
without_room room [] = []
without_room room (x ∷ xs) =
    let rest = without_room room xs in if same_room x room then rest else x ∷ rest

-- The counter of an address, and when it is gone.
pub record Counter : Type 0 where
  pub requests : ℕ
  pub expires : Option ℕ

abbrev pub max_connections : ℕ
max_connections = 20

abbrev pub is_gone : ℕ → Counter → Bool
is_gone now k = elim k.expires [ none ↦ false | some t ↦ leb t now ]

-- `incr`, and `expire` on the first request: the counter, and whether the connection goes on. With
-- no answer of Redis it does.
unfoldable pub count_connection : ℕ → Bool → Counter → Counter × Bool
count_connection now answers k =
    let before = if is_gone now k then 0 else k.requests in
    let expires = if before == 0 then some (now + 60) else k.expires in
    if not answers then (k, true) else (
      record { requests = before + 1; expires = expires },
      not (ltb max_connections (before + 1)),
    )

-- A connection, with what the library says of the token, if there is one.
unfoldable pub connect : Bool → Option String → (String → Option ℕ) → Option Socket
connect admitted none verify = none
connect admitted (some token) verify = elim (verify token) as (λ _. Option Socket) [
  | none ↦ none
  | some user_id ↦
      if admitted
      then some (record { user_id = user_id; market_subscriptions = []; rooms = [] })
      else none
]

abbrev pub admit_owner : ℕ → Option Portfolio → Socket → Reply × Socket
admit_owner portfolio_id none k = (portfolio_not_found, k)
admit_owner portfolio_id (some p) k =
    if not (p.user_id == k.user_id)
    then (unauthorized, k)
    else (success, record k { rooms = portfolio_room portfolio_id ∷ k.rooms })

-- An argument that is missing or of another type is none.
unfoldable pub join_portfolio : List Portfolio → Option ℕ → Socket → Reply × Socket
join_portfolio portfolios none k = (invalid_argument, k)
join_portfolio portfolios (some portfolio_id) k =
    admit_owner portfolio_id (find (has_portfolio_id portfolio_id) portfolios) k

unfoldable pub join_market : Option String → Socket → Reply × Socket
join_market none k = (invalid_argument, k)
join_market (some symbol) k =
    if has_symbol symbol k.market_subscriptions
    then (success, k)
    else if leb max_market_subscriptions (length k.market_subscriptions)
    then (too_many, k)
    else (
      success,
      record k {
        market_subscriptions = symbol ∷ k.market_subscriptions;
        rooms = market_room symbol ∷ k.rooms;
      },
    )

unfoldable pub leave_market : String → Socket → Reply × Socket
leave_market symbol k = (
  success,
  record k {
    market_subscriptions = without_symbol symbol k.market_subscriptions;
    rooms = without_room (market_room symbol) k.rooms;
  },
)

pub data SocketEvent : Type 0 where
  joins_portfolio : Option ℕ → SocketEvent
  joins_market : Option String → SocketEvent
  leaves_market : String → SocketEvent

unfoldable pub handle_event : List Portfolio → SocketEvent → Socket → Reply × Socket
handle_event portfolios (joins_portfolio id) k = join_portfolio portfolios id k
handle_event portfolios (joins_market symbol) k = join_market symbol k
handle_event portfolios (leaves_market symbol) k = leave_market symbol k

-- The events of a socket, each handled before the next one.
unfoldable pub handle_socket_events : List Portfolio → List SocketEvent → Socket → Socket
handle_socket_events portfolios [] k = k
handle_socket_events portfolios (e ∷ es) k =
    handle_socket_events portfolios es (handle_event portfolios e k).1
