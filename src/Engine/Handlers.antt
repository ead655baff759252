-- ===== src/Engine/Handlers.antt =====
-- The messages and the periodic work of an engine.
use mathlib.Core.Option.{get_or}
use trade_alpha.Base.{
  ℕ, Bool, true, false, not, ◌&&◌, ◌||◌, Option, none, some, List, [], ◌∷◌, map, String, str_eq,
  if◌then◌else◌,
}
use trade_alpha.Int.{ℤ, pos, ◌-ℤ◌, ltb_ℤ}
use trade_alpha.Dict.{lookup}
use trade_alpha.Store.Rows.{Store, Order, pending, partially_filled, status_eq}
use trade_alpha.Store.Tables.{find, filter_where}
use trade_alpha.Valuation.{PriceCache}
use trade_alpha.Orders.Rows.{has_order_id}
use trade_alpha.Engine.{
  Engine, EngineOrder, ready, queued, owns, is_entry, put_book, add_order, remove_order,
  evaluate_order,
}

-- The loop over the orders of a symbol, by their identifiers: it skips what is queued, and ends
-- when the symbol is lost. One evaluation ends before the next one starts.
unfoldable pub evaluate_book :
    (Engine → Engine) → String → List ℕ → ℤ → Engine → Store → Engine × Store
evaluate_book interim symbol [] tick e s = (e, s)
evaluate_book interim symbol (id ∷ ids) tick e s =
    let skip = evaluate_book interim symbol ids tick e s in
    elim (find (is_entry id) (get_or (lookup symbol e.orders) [])) [
      | none ↦ skip
      | some entry ↦ elim entry.state [
        | queued ↦ skip
        | ready ↦
            if not (owns e symbol)
            then (e, s)
            else (let (e', s') = evaluate_order interim entry tick e s in
                evaluate_book interim symbol ids tick e' s')
      ]
    ]

abbrev pub ids_of : Engine → String → List ℕ
ids_of e symbol = map (λ (x : EngineOrder). x.order.id) (get_or (lookup symbol e.orders) [])

-- A message on `market:tick:…`.
unfoldable pub handle_tick : (Engine → Engine) → String → ℤ → Engine → Store → Engine × Store
handle_tick interim symbol tick e s =
    if not (owns e symbol) then (e, s) else evaluate_book interim symbol (ids_of e symbol) tick e s

abbrev pub is_actionable : Order → Bool
is_actionable order = status_eq order.status pending || status_eq order.status partially_filled

abbrev pub has_remaining : Order → Bool
has_remaining order = ltb_ℤ (pos 0) (order.requested_quantity -ℤ order.filled_quantity)

-- A message on `engine:route:…`: the order is read from the database.
unfoldable pub handle_route : ℕ → String → Option String → Store → Engine → Engine
handle_route order_id symbol correlation_id s e =
    if not (owns e symbol) then e else elim (find (has_order_id order_id) s.orders) [
      | none ↦ remove_order order_id (some symbol) e
      | some order ↦
          if not (owns e order.symbol)
          then e
          else if has_remaining order && is_actionable order
          then add_order order correlation_id e
          else remove_order order.id (some order.symbol) e
    ]

-- The orders that an engine loads.
abbrev pub actionable : Engine → Store → List Order
actionable e s = filter_where (λ o. owns e o.symbol && is_actionable o) s.orders

unfoldable pub add_all : List Order → Engine → Engine
add_all [] e = e
add_all (o ∷ os) e = add_all os (if has_remaining o then add_order o none e else e)

-- Every owned symbol with a fresh price.
unfoldable pub evaluate_symbols :
    (Engine → Engine) → PriceCache → List String → Engine → Store → Engine × Store
evaluate_symbols interim prices [] e s = (e, s)
evaluate_symbols interim prices (symbol ∷ symbols) e s =
    let latest = prices symbol in
    let skip = evaluate_symbols interim prices symbols e s in
    if latest.is_stale then skip else elim latest.price [
      | none ↦ skip
      | some tick ↦
          let (e', s') = evaluate_book interim symbol (ids_of e symbol) tick e s in
          evaluate_symbols interim prices symbols e' s'
    ]

unfoldable pub hydrate : (Engine → Engine) → PriceCache → Engine → Store → Engine × Store
hydrate interim prices e s =
    evaluate_symbols interim prices e.owned_symbols (add_all (actionable e s) e) s

abbrev pub is_known : Engine → Order → Bool
is_known e o = elim (find (is_entry o.id) (get_or (lookup o.symbol e.orders) [])) [
  | none ↦ false
  | some _ ↦ true
]

-- The orders that memory lacks, with whether there was one.
unfoldable pub recover_all : List Order → Engine → Bool → Engine × Bool
recover_all [] e recovered = (e, recovered)
recover_all (o ∷ os) e recovered =
    let lacking = has_remaining o && not (is_known e o) in
    recover_all os (if lacking then add_order o none e else e) (recovered || lacking)

abbrev pub is_one_of : List Order → EngineOrder → Bool
is_one_of orders x = elim (find (has_order_id x.order.id) orders) [ none ↦ false | some _ ↦ true ]

-- The entries of the owned symbols that the database does not have open are evicted.
unfoldable pub evict : List Order → List String → Engine → Engine
evict open_orders [] e = e
evict open_orders (symbol ∷ symbols) e =
    let rest : Engine = elim (lookup symbol e.orders) [
      | none ↦ e
      | some book ↦ put_book symbol (filter_where (is_one_of open_orders) book) e
    ] in
    evict open_orders symbols rest

unfoldable pub reconcile : (Engine → Engine) → PriceCache → Engine → Store → Engine × Store
reconcile interim prices e s =
    let open_orders = actionable e s in
    let (recovered, any) = recover_all open_orders e false in
    let kept = evict open_orders recovered.owned_symbols recovered in
    if any then evaluate_symbols interim prices kept.owned_symbols kept s else (kept, s)

-- A heartbeat that finds the lease taken.
unfoldable pub handle_lease_loss : String → Engine → Engine
handle_lease_loss symbol e = record e {
  owned_symbols = filter_where (λ x. not (str_eq x symbol)) e.owned_symbols;
  orders = filter_where (λ entry. not (str_eq entry.0 symbol)) e.orders;
}
