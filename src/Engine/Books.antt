-- ===== src/Engine/Books.antt =====
-- The books of an engine: what is queued, what is evicted, and what a lost lease leaves.
use mathlib.Core.Option.{get_or}
use trade_alpha.Base.{
  ◌≡◌, refl, sym, subst, inl, inr, Bool, true, false, not, Option, some, none, List, ◌∷◌, [], arith,
  Bool-cases, Option-cases, String, str_eq, str_eq_iff, All,
}
use trade_alpha.Int.{ℤ, pos, ◌-ℤ◌, ◌<ℤ◌, leb_ℤ, ltb_ℤ}
use trade_alpha.Int.Ring.{int_laws}
use trade_alpha.Store.Rows.{Store, Order}
use trade_alpha.Store.Tables.{find, update_where, filter_where, find-update_where_by}
use trade_alpha.Dict.{Dict, lookup, lookup-insert}
use trade_alpha.Engine.{
  Engine, EngineOrder, queued, owns, contains, is_entry, is_object, job_for, trigger_execution,
  change_entry, add_order, put_book,
}
use trade_alpha.Engine.Handlers.{evaluate_book, handle_tick, handle_lease_loss, evict, is_one_of}

-- The entry of an order that was dispatched.
abbrev queued_entry : EngineOrder → ℤ → EngineOrder
queued_entry entry tick = record entry {
  state = queued;
  expected_filled_quantity = (job_for entry tick).execution_idempotency_key.filled_quantity;
}

-- What the books of an engine hold for an order.
abbrev pub Holds : Engine → Order → EngineOrder → Type 0
Holds e order entry =
    (owns e order.symbol ≡ true)
    × (find (is_entry order.id) (get_or (lookup order.symbol e.orders) []) ≡ some entry)

-- What may happen to an order in a book: it is added again, as the database has it, or a tick
-- evaluates it.
pub data BookEvent : Type 0 where
  adds : Order → Option String → BookEvent
  evaluates : (tick : ℤ) → BookEvent

unfoldable pub handle_book_events :
    (Engine → Engine) → Order → List BookEvent → Engine → Store → Engine × Store
handle_book_events interim order [] e s = (e, s)
handle_book_events interim order (adds again correlation_id ∷ events) e s =
    handle_book_events interim order events (add_order again correlation_id e) s
handle_book_events interim order (evaluates tick ∷ events) e s =
    let after = evaluate_book interim order.symbol (order.id ∷ []) tick e s in
    handle_book_events interim order events after.0 after.1

leb_false : (a b : ℤ) → b <ℤ a → leb_ℤ a b ≡ false
leb_false a b h = ground arith

ltb_true : (a b : ℤ) → a <ℤ b → ltb_ℤ a b ≡ true
ltb_true a b h = ground arith

module _ (entry : EngineOrder) (tick : ℤ) (e : Engine) where
  trigger-Holds :
      Holds e entry.order entry
      → entry.order.filled_quantity <ℤ entry.order.requested_quantity
      → Holds (trigger_execution entry tick e) entry.order (queued_entry entry tick)
  unfolding trigger_execution change_entry find
  trigger-Holds (owned, found) left = elim (Option-cases (lookup entry.order.symbol e.orders)) [
    | inl missing ↦ ground arith
    | inr (book, known) ↦
        let mark = λ (x : EngineOrder). record x {
          state = queued;
          expected_filled_quantity = (job_for entry tick).execution_idempotency_key.filled_quantity;
        } in
        let here : find (is_entry entry.order.id) book ≡ some entry = ground arith in
        let written =
          find-update_where_by (is_entry entry.order.id) (is_object entry.ref) mark book {x = entry}
            (λ x. refl) here in
        let stored =
          lookup-insert entry.order.symbol entry.order.symbol
            (update_where (is_object entry.ref) mark book) e.orders in
        let some_left =
          leb_false (entry.order.requested_quantity -ℤ entry.order.filled_quantity) (pos 0)
            (omega (int_laws, left)) in
        ground (arith, written, stored, some_left, str_eq_iff entry.order.symbol entry.order.symbol)
  ]

  -- The order is added again, with less filled than was dispatched.
  abbrev pub IsBehind : BookEvent → Type 0
  IsBehind (adds order correlation_id) =
      (order.id ≡ entry.order.id)
      × (order.symbol ≡ entry.order.symbol)
      × (order.filled_quantity <ℤ (job_for entry tick).execution_idempotency_key.filled_quantity)
  IsBehind (evaluates later) = Unit

  add_changes_nothing :
      (order : Order) (correlation_id : Option String) (e' : Engine)
      → Holds e' entry.order (queued_entry entry tick)
      → IsBehind (adds order correlation_id)
      → add_order order correlation_id e' ≡ e'
  unfolding add_order
  add_changes_nothing order correlation_id e' (owned, found) (same, symbol, less) =
      let owned_own : owns e' order.symbol ≡ true =
        subst (λ t. owns e' t ≡ true) (sym symbol) owned in
      let found_own : find (is_entry order.id) (get_or (lookup order.symbol e'.orders) [])
          ≡ some (queued_entry entry tick) =
        subst
          (λ t.
            find (is_entry order.id) (get_or (lookup t e'.orders) [])
            ≡ some (queued_entry entry tick))
          (sym symbol)
          (subst
            (λ k.
              find (is_entry k) (get_or (lookup entry.order.symbol e'.orders) [])
              ≡ some (queued_entry entry tick))
            (sym same) found) in
      ground (
        arith,
        owned_own,
        found_own,
        ltb_true order.filled_quantity
            (job_for entry tick).execution_idempotency_key.filled_quantity less,
      )

  events_change_nothing :
      (interim : Engine → Engine) (events : List BookEvent) (e' : Engine) (s : Store)
      → Holds e' entry.order (queued_entry entry tick)
      → All IsBehind events
      → handle_book_events interim entry.order events e' s ≡ (e', s)
  unfolding handle_book_events evaluate_book
  events_change_nothing interim [] e' s held behind = refl
  events_change_nothing interim (adds order correlation_id ∷ events) e' s held behind =
      let same = add_changes_nothing order correlation_id e' held behind.0 in
      rw same (events_change_nothing interim events e' s held behind.1)
  events_change_nothing interim (evaluates later ∷ events) e' s held behind =
      let same : evaluate_book interim entry.order.symbol (entry.order.id ∷ []) later e' s
          ≡ (e', s) =
        ground (arith, held.1) in
      rw same (events_change_nothing interim events e' s held behind.1)

  -- If an owned order with something left to fill is in its book and is dispatched, then one job
  -- is queued for it; and any sequence of adding the order again, with less of it filled than that
  -- job makes it, and of evaluating it at ticks changes neither the engine nor the database after
  -- that. An activation that was already waiting for the database is not among these events.
  pub dispatched_once :
      (interim : Engine → Engine) (events : List BookEvent) (s : Store)
      → Holds e entry.order entry
      → entry.order.filled_quantity <ℤ entry.order.requested_quantity
      → All IsBehind events
      → let e' = trigger_execution entry tick e in
        (e'.jobs ≡ job_for entry tick ∷ e.jobs)
        × (handle_book_events interim entry.order events e' s ≡ (e', s))
  unfolding trigger_execution change_entry
  dispatched_once interim events s held left behind =
      let some_left =
        leb_false (entry.order.requested_quantity -ℤ entry.order.filled_quantity) (pos 0)
          (omega (int_laws, left)) in
      (
        ground (arith, held.0, some_left),
        events_change_nothing interim events (trigger_execution entry tick e) s
            (trigger-Holds held left) behind,
      )

pub not_contained :
    (symbol : String) (xs : List String)
    → contains (filter_where (λ x. not (str_eq x symbol)) xs) symbol ≡ false
unfolding contains filter_where
not_contained symbol [] = refl
not_contained symbol (x ∷ xs) = ground (arith, not_contained symbol xs)

not_looked_up :
    (symbol : String) (books : Dict (List EngineOrder))
    → lookup symbol (filter_where (λ entry. not (str_eq entry.0 symbol)) books) ≡ none
unfolding filter_where
not_looked_up symbol [] = refl
not_looked_up symbol ((k, book) ∷ books) = ground (arith, not_looked_up symbol books)

-- After the loss of a lease the engine has no book for the symbol, a tick of it changes nothing,
-- and no order of it is added.
pub lease_loss_stops :
    (interim : Engine → Engine) (order : Order) (correlation_id : Option String) (tick : ℤ)
    (e : Engine) (s : Store)
    → let e' = handle_lease_loss order.symbol e in
      (lookup order.symbol e'.orders ≡ none)
      × (handle_tick interim order.symbol tick e' s ≡ (e', s))
      × (add_order order correlation_id e' ≡ e')
unfolding handle_tick handle_lease_loss add_order
lease_loss_stops interim order correlation_id tick e s =
    let lost = not_contained order.symbol e.owned_symbols in
    (not_looked_up order.symbol e.orders, rw lost refl, rw lost refl)

-- Every entry that an engine holds for a symbol is one of the given orders.
pub IsClean : List Order → String → Engine → Type 0
IsClean orders symbol e = All (λ x. is_one_of orders x ≡ true) (get_or (lookup symbol e.orders) [])

filter_where-All :
    (p : EngineOrder → Bool) (xs : List EngineOrder) → All (λ x. p x ≡ true) (filter_where p xs)
unfolding filter_where
filter_where-All p [] = tt
filter_where-All p (x ∷ xs) = elim (Bool-cases (p x)) [
  | inl hit ↦ rw hit (hit, filter_where-All p xs)
  | inr miss ↦ rw miss (filter_where-All p xs)
]

module _ (orders : List Order) where
  -- The eviction from one book.
  abbrev evict_one : String → Engine → Engine
  evict_one symbol e = elim (lookup symbol e.orders) [
    | none ↦ e
    | some book ↦ put_book symbol (filter_where (is_one_of orders) book) e
  ]

  evict_one-IsClean : (symbol : String) (e : Engine) → IsClean orders symbol (evict_one symbol e)
  unfolding IsClean
  evict_one-IsClean symbol e = elim (Option-cases (lookup symbol e.orders)) [
    | inl missing ↦ rw (evict_one, missing, missing) tt
    | inr (book, known) ↦
        rw
          (
            evict_one,
            known,
            lookup-insert symbol symbol (filter_where (is_one_of orders) book) e.orders,
            (str_eq_iff symbol symbol).1 refl,
          )
          (filter_where-All (is_one_of orders) book)
  ]

  evict_one_keeps :
      (other symbol : String) (e : Engine)
      → IsClean orders symbol e
      → IsClean orders symbol (evict_one other e)
  unfolding IsClean
  evict_one_keeps other symbol e h = elim (Option-cases (lookup other e.orders)) [
    | inl missing ↦ rw (evict_one, missing) h
    | inr (book, known) ↦ elim (Bool-cases (str_eq other symbol)) [
      | inl same ↦
          rw
            (
              evict_one,
              known,
              lookup-insert other symbol (filter_where (is_one_of orders) book) e.orders,
              same,
            )
            (filter_where-All (is_one_of orders) book)
      | inr apart ↦
          rw
            (
              evict_one,
              known,
              lookup-insert other symbol (filter_where (is_one_of orders) book) e.orders,
              apart,
            )
            h
    ]
  ]

  evict_keeps :
      (symbols : List String) (symbol : String) (e : Engine)
      → IsClean orders symbol e
      → IsClean orders symbol (evict orders symbols e)
  unfolding evict
  evict_keeps [] symbol e h = h
  evict_keeps (other ∷ symbols) symbol e h =
      evict_keeps symbols symbol (evict_one other e) (evict_one_keeps other symbol e h)

  -- After the eviction over a list of symbols, the book of each of them holds only orders that are
  -- among the open ones of the database.
  pub evict-IsClean :
      (symbols : List String) (symbol : String) (e : Engine)
      → contains symbols symbol ≡ true
      → IsClean orders symbol (evict orders symbols e)
  unfolding evict contains
  evict-IsClean [] symbol e h = cc
  evict-IsClean (other ∷ symbols) symbol e h = elim (Bool-cases (str_eq other symbol)) [
    | inl same ↦ evict_keeps symbols symbol (evict_one other e) (
        subst (λ t. IsClean orders t (evict_one other e)) ((str_eq_iff other symbol).0 same)
          (evict_one-IsClean other e))
    | inr apart ↦ evict-IsClean symbols symbol (evict_one other e) (ground arith)
  ]
