-- ===== src/Engine.antt =====
-- apps/api/src/engine/trading-engine.ts: the books of open orders in the memory of an engine, what
-- triggers an execution, and the jobs that it queues. Prices and quantities count units of 10^-4.
pub mod Handlers
pub mod Leases
pub mod Cluster
pub mod Exclusive
pub mod Dispatch
pub mod Books
pub mod Tests
use mathlib.Core.Option.{get_or}
use trade_alpha.Base.{
  ℕ, ◌+◌, ◌==◌, Bool, true, false, not, ◌&&◌, ◌||◌, Option, none, some, List, [], ◌∷◌, ◌++◌, String,
  str_eq, if◌then◌else◌,
}
use trade_alpha.Int.{ℤ, pos, ◌+ℤ◌, ◌-ℤ◌, ltb_ℤ, leb_ℤ, min_ℤ}
use trade_alpha.Dict.{Dict, lookup, insert}
use trade_alpha.Store.Rows.{
  Store, Order, OrderSide, OrderType, buy, sell, market, limit, stop, stop_limit,
}
use trade_alpha.Store.Tables.{find, update_where, filter_where}
use trade_alpha.Store.Tx.{Result, ok, err}
use trade_alpha.Liquidity.{get_liquidity_profile, calculate_executable_price}
use trade_alpha.Orders.Pending.{activate_stop_limit}

pub data EngineOrderState : Type 0 where
  ready queued : EngineOrderState

-- An order in memory: an object of the heap, named by `ref`, with an order in it that is an object of
-- its own, named by `order_ref`. The metadata for tracing are left out.
pub record EngineOrder : Type 0 where
  pub ref : ℕ
  pub order : Order
  pub order_ref : ℕ
  pub state : EngineOrderState
  pub correlation_id : Option String
  pub expected_filled_quantity : ℤ

-- `exec_${order.id}_${resultingFilledQuantity}`
pub record ExecutionKey : Type 0 where
  pub order_id : ℕ
  pub filled_quantity : ℤ

pub record Job : Type 0 where
  pub order_id : ℕ
  pub price : ℤ
  pub quantity : ℤ
  pub execution_idempotency_key : ExecutionKey
  pub correlation_id : Option String

-- The symbols that the engine holds the lease of, a book for each symbol, the jobs that were queued,
-- the last one first, and the name of the next object.
pub record Engine : Type 0 where
  pub owned_symbols : List String
  pub orders : Dict (List EngineOrder)
  pub jobs : List Job
  pub next_ref : ℕ

unfoldable pub contains : List String → String → Bool
contains [] s = false
contains (x ∷ xs) s = str_eq x s || contains xs s

abbrev pub owns : Engine → String → Bool
owns e symbol = contains e.owned_symbols symbol

abbrev pub is_entry : ℕ → EngineOrder → Bool
is_entry id x = x.order.id == id

abbrev pub put_book : String → List EngineOrder → Engine → Engine
put_book symbol book e = record e { orders = insert symbol book e.orders }

abbrev pub is_object : ℕ → EngineOrder → Bool
is_object ref x = x.ref == ref

-- A change of an object. The book sees it as long as it holds that object.
unfoldable pub change_entry : EngineOrder → (EngineOrder → EngineOrder) → Engine → Engine
change_entry entry f e = elim (lookup entry.order.symbol e.orders) [
  | none ↦ e
  | some book ↦ put_book entry.order.symbol (update_where (is_object entry.ref) f book) e
]

-- The object as it is by now. One that is no longer in the book is taken as it was.
unfoldable pub object_now : EngineOrder → Engine → EngineOrder
object_now entry e =
    get_or (find (is_object entry.ref) (get_or (lookup entry.order.symbol e.orders) [])) entry

abbrev pub allocate : Engine → Engine
allocate e = record e { next_ref = e.next_ref + 1 }

abbrev first_of : Option String → Option String → Option String
first_of (some x) _ = some x
first_of none y = y

abbrev pub new_entry : ℕ → Order → Option String → EngineOrder
new_entry ref order correlation_id = record {
  ref = ref;
  order = order;
  order_ref = ref;
  state = ready;
  correlation_id = correlation_id;
  expected_filled_quantity = order.filled_quantity;
}

-- An order that is queued becomes ready again only when the database has caught up with what was
-- dispatched.
unfoldable pub add_order : Order → Option String → Engine → Engine
add_order order correlation_id e =
    let book = get_or (lookup order.symbol e.orders) [] in
    if not (owns e order.symbol) then e else elim (find (is_entry order.id) book) [
      | none ↦
          allocate
            (put_book order.symbol (book ++ (new_entry e.next_ref order correlation_id ∷ [])) e)
      | some existing ↦ elim existing.state [
        | queued ↦
            if ltb_ℤ order.filled_quantity existing.expected_filled_quantity
            then e
            else allocate (
                put_book order.symbol
                  (update_where (is_entry order.id)
                    (λ x. record x {
                      order = order;
                      order_ref = e.next_ref;
                      state = ready;
                      correlation_id = first_of correlation_id x.correlation_id;
                    })
                    book)
                  e)
        | ready ↦ allocate (
            put_book order.symbol
              (update_where (is_entry order.id) (λ _. new_entry e.next_ref order correlation_id)
                book)
              e)
      ]
    ]

abbrev pub drop_entry : ℕ → List EngineOrder → List EngineOrder
drop_entry id = filter_where (λ x. not (is_entry id x))

-- Without a symbol: the first book that has the order.
pub drop_first : ℕ → Dict (List EngineOrder) → Dict (List EngineOrder)
drop_first id [] = []
drop_first id ((symbol, book) ∷ books) = elim (find (is_entry id) book) [
  | some _ ↦ (symbol, drop_entry id book) ∷ books
  | none ↦ (symbol, book) ∷ drop_first id books
]

unfoldable pub remove_order : ℕ → Option String → Engine → Engine
unfolding drop_first
remove_order id none e = record e { orders = drop_first id e.orders }
remove_order id (some symbol) e = elim (lookup symbol e.orders) [
  | none ↦ e
  | some book ↦ put_book symbol (drop_entry id book) e
]

-- The job for what remains of an order, bounded by the depth of the market.
unfoldable pub job_for : EngineOrder → ℤ → Job
job_for entry tick =
    let order = entry.order in
    let profile = get_liquidity_profile order.symbol in
    let quantity =
      min_ℤ (order.requested_quantity -ℤ order.filled_quantity) (pos profile.available_depth) in
    record {
      order_id = order.id;
      price = calculate_executable_price order.side tick profile order.filled_quantity;
      quantity = quantity;
      execution_idempotency_key = record {
        order_id = order.id;
        filled_quantity = order.filled_quantity +ℤ quantity;
      };
      correlation_id = entry.correlation_id;
    }

unfoldable pub trigger_execution : EngineOrder → ℤ → Engine → Engine
trigger_execution entry tick e =
    let order = entry.order in
    let job = job_for entry tick in
    if not (owns e order.symbol)
    then e
    else if leb_ℤ (order.requested_quantity -ℤ order.filled_quantity) (pos 0)
    then remove_order order.id (some order.symbol) e
    else let marked =
        change_entry entry
          (λ x. record x {
            state = queued;
            expected_filled_quantity = job.execution_idempotency_key.filled_quantity;
          })
          e in
      record marked { jobs = job ∷ marked.jobs }

-- `triggered`: the tick has reached the stop price. An order without one makes `new Decimal` throw,
-- which nothing follows.
abbrev pub is_triggered : OrderSide → Option ℤ → ℤ → Bool
is_triggered _ none tick = false
is_triggered buy (some price) tick = leb_ℤ price tick
is_triggered sell (some price) tick = leb_ℤ tick price

abbrev pub can_fill : OrderSide → Option ℤ → ℤ → Bool
can_fill _ none price = false
can_fill buy (some limit_price) price = leb_ℤ price limit_price
can_fill sell (some limit_price) price = leb_ℤ limit_price price

-- The evaluation as a limit order: the test is on an order, and the object is dispatched.
unfoldable pub evaluate_limit : Order → EngineOrder → ℤ → Engine → Engine
evaluate_limit order entry tick e =
    let price =
      calculate_executable_price order.side tick (get_liquidity_profile order.symbol)
        order.filled_quantity in
    if can_fill order.side order.limit_price price then trigger_execution entry tick e else e

abbrev set_activated : Bool → EngineOrder → EngineOrder
set_activated b x = record x { order = record x.order { is_activated = b } }

-- The order that was captured is marked. An object that has got another order by then is not changed.
abbrev set_back : ℕ → EngineOrder → EngineOrder
set_back order_ref x = if x.order_ref == order_ref then set_activated false x else x

-- A stop-limit order whose stop price is reached. While the database answers, other handlers run:
-- `interim` is what they do to the engine. Then the object that was captured gets the answer, whether
-- or not the book still holds it; the test of the limit is on the order that was captured.
unfoldable pub activate : (Engine → Engine) → EngineOrder → ℤ → Engine → Store → Engine × Store
unfolding object_now
activate interim entry tick e s =
    let order = entry.order in
    let later = interim (change_entry entry (set_activated true) e) in
    let (answer, s') = activate_stop_limit order.id s in
    elim answer [
      | err _ ↦ (change_entry entry (set_back entry.order_ref) later, s')
      | ok activated ↦ if not (owns later order.symbol) then (later, s') else (
        evaluate_limit order
            (record (object_now entry later) { order = activated; order_ref = later.next_ref }) tick
            (allocate (
              change_entry entry (λ x. record x { order = activated; order_ref = later.next_ref })
                later)),
        s',
      )
    ]

unfoldable pub evaluate_order :
    (Engine → Engine) → EngineOrder → ℤ → Engine → Store → Engine × Store
evaluate_order interim entry tick e s =
    let order = entry.order in
    let reached = is_triggered order.side order.stop_price tick in
    if not (owns e order.symbol) then (e, s) else elim order.order_type [
      | stop ↦ if reached then (trigger_execution entry tick e, s) else (e, s)
      | stop_limit ↦
          if order.is_activated
          then (evaluate_limit order entry tick e, s)
          else if reached
          then activate interim entry tick e s
          else (e, s)
      | limit ↦ (evaluate_limit order entry tick e, s)
      | market ↦ (trigger_execution entry tick e, s)
    ]
