-- ===== src/Store/Tx.antt =====
-- A database transaction: it reads and writes the store, or throws. `prisma.$transaction` commits
-- what a body that returns has written, and rolls back one that throws.
use trade_alpha.Base.{
  Bool, true, false, ◌≡◌, refl, ◌⊎◌, inl, inr, Option, none, some, String, arith,
}
use trade_alpha.Store.Rows.{Store, OrderStatus}

-- What the services throw; `not_found` is Prisma's P2025 and `unique_violation` its P2002, with the
-- index that was violated.
pub data Index : Type 0 where
  orders_user_idempotency fills_execution_idempotency positions_portfolio_symbol : Index

pub data Error : Type 0 where
  quantity_not_positive limit_price_required stop_price_required both_prices_required : Error
  market_closed unauthorized insufficient_free_margin insufficient_funds : Error
  no_position_found insufficient_quantity insufficient_locked_quantity : Error
  invalid_state_transition : OrderStatus → OrderStatus → Error
  cannot_activate : OrderStatus → Error
  fill_quantity_not_positive exceeds_requested_quantity : Error
  negative_ledger_entry : Error
  ledger_imbalance : String → Error
  symbol_mismatch : Error
  valuation_failed : Error
  not_found : Error
  unique_violation : Index → Error

pub data Result {ℓ} (A : Type ℓ) : Type ℓ where
  ok : A → Result A
  err : Error → Result A

abbrev pub Tx : Type 0 → Type 0
Tx A = Store → Result (A × Store)

module _ {A : Type 0} where
  abbrev pub pure : A → Tx A
  pure a s = ok (a, s)

  abbrev pub throw : Error → Tx A
  throw e s = err e

  abbrev pub gets : (Store → A) → Tx A
  gets f s = ok (f s, s)

  -- A computation that reads nothing.
  abbrev pub from_result : Result A → Tx A
  from_result (ok a) = pure a
  from_result (err e) = throw e

  -- `findUniqueOrThrow`
  abbrev pub or_throw : Option A → Error → Tx A
  or_throw none e = throw e
  or_throw (some a) _ = pure a

infixl 5 ◌>>=◌ ◌>>◌
abbrev pub ◌>>=◌ : {A B : Type 0} → Tx A → (A → Tx B) → Tx B
◌>>=◌ m f s = elim (m s) [ err e ↦ err e | ok (a, s') ↦ f a s' ]

abbrev pub ◌>>◌ : {A B : Type 0} → Tx A → Tx B → Tx B
m >> k = m >>= λ _. k

abbrev pub modify : (Store → Store) → Tx (Unit {0})
modify f s = ok (tt, f s)

abbrev pub throw_if : Bool → Error → Tx (Unit {0})
throw_if true e = throw e
throw_if false e = pure tt

-- `prisma.$transaction(body)`
abbrev pub transaction : {A : Type 0} → Tx A → Store → Result A × Store
transaction body s = elim (body s) [ err e ↦ (err e, s) | ok (a, s') ↦ (ok a, s') ]

pub Result-cases {ℓ} :
    {A : Type ℓ} (r : Result A) → ((e : Error) × (r ≡ err e)) ⊎ ((a : A) × (r ≡ ok a))
Result-cases (ok a) = inr (a, refl)
Result-cases (err e) = inl (e, refl)

-- A transaction changes nothing, or commits what its body has written.
pub transaction-cases :
    {A : Type 0} (body : Tx A) (s : Store)
    → ((transaction body s).1 ≡ s) ⊎ ((a : A) × (body s ≡ ok (a, (transaction body s).1)))
transaction-cases body s = elim (Result-cases (body s)) [
  | inl (e, failed) ↦ inl (ground arith)
  | inr ((a, s'), run) ↦ inr (a, ground arith)
]
