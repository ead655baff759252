-- ===== src/EodSweep/Blocked.antt =====
-- Why the expiry of an order throws.
use trade_alpha.Base.{
  ℕ, ◌≡◌, ◌≢◌, refl, true, none, some, arith, inl, inr, ◌⊎◌, Option-cases, Bool-cases,
}
use trade_alpha.Int.{ℤ, pos, ◌-ℤ◌, ltb_ℤ}
use trade_alpha.Column.{Column}
use trade_alpha.Store.Rows.{
  Store, Order, OrderStatus, accepted, pending, partially_filled, expired, sell,
}
use trade_alpha.Store.Tables.{find}
use trade_alpha.Store.Tx.{Error, err, Result-cases}
use trade_alpha.Positions.{has_portfolio_id, has_portfolio_symbol}
use trade_alpha.Orders.Status.{is_valid_transition, valid_transitions, includes}
use trade_alpha.Orders.Filling.Effects.{side-cases}
use trade_alpha.Orders.Closing.{close_body, release_locks, unlock_position}
use trade_alpha.EodSweep.Expiry.{row_of}

-- An order that is still to be filled.
abbrev pub IsActive : OrderStatus → Type 0
IsActive status = (status ≡ accepted) ⊎ (status ≡ pending) ⊎ (status ≡ partially_filled)

-- The order is gone, or not active any more, or the row that holds its locks is missing.
pub data IsBlocked (id : ℕ) (t : Store) : Type 0 where
  gone : row_of id t ≡ none → IsBlocked id t
  moved : (o : Order) → row_of id t ≡ some o → ¬ IsActive o.status → IsBlocked id t
  without_portfolio :
      (o : Order)
      → row_of id t ≡ some o
      → find (has_portfolio_id o.portfolio_id) t.portfolios ≡ none
      → IsBlocked id t
  without_position :
      (o : Order)
      → row_of id t ≡ some o
      → o.side ≡ sell
      → find (has_portfolio_symbol o.portfolio_id o.symbol) t.positions ≡ none
      → IsBlocked id t

IsActive-cases : (status : OrderStatus) → (IsActive status) ⊎ (¬ IsActive status)
IsActive-cases accepted = inl (inl refl)
IsActive-cases pending = inl (inr (inl refl))
IsActive-cases partially_filled = inl (inr (inr refl))
IsActive-cases status = inr (λ active. ground arith)

active_expires :
    (status : OrderStatus) → IsActive status → is_valid_transition status expired ≡ true
unfolding is_valid_transition valid_transitions includes
active_expires status active = ground arith

module _ (c : Column) where
  IsReleased : Order → Store → Type 0
  IsReleased o t = (remaining : ℤ) (e : Error) → release_locks c o remaining t ≢ err e

  locks-IsReleased :
      (o : Order) (t : Store)
      → IsReleased o t
        ⊎ (find (has_portfolio_id o.portfolio_id) t.portfolios ≡ none)
        ⊎ ((o.side ≡ sell)
            × (find (has_portfolio_symbol o.portfolio_id o.symbol) t.positions ≡ none))
  unfolding IsReleased release_locks unlock_position
  locks-IsReleased o t = elim (Option-cases (find (has_portfolio_id o.portfolio_id) t.portfolios)) [
    | inl missing ↦ inr (inl missing)
    | inr (p, found) ↦ elim (side-cases o.side) [
      | inl purchase ↦ inl (λ remaining e failed. ground (arith, found, purchase, failed))
      | inr sale ↦
          elim (Option-cases (find (has_portfolio_symbol o.portfolio_id o.symbol) t.positions)) [
            | inl missing ↦ inr (inr (sale, missing))
            | inr (q, held) ↦ inl (λ remaining e failed. ground (arith, found, sale, held, failed))
          ]
    ]
  ]

  released_closes :
      (o : Order) (id : ℕ) (t : Store) (e : Error)
      → row_of id t ≡ some o
      → IsActive o.status
      → IsReleased o t
      → close_body c expired "ORDER_EXPIRED" id t ≢ err e
  unfolding close_body IsReleased
  released_closes o id t e found active frees failed =
      let valid = active_expires o.status active in
      let remaining = o.requested_quantity -ℤ o.filled_quantity in
      elim (Bool-cases (ltb_ℤ (pos 0) remaining)) [
        | inl left ↦ elim (Result-cases (release_locks c o remaining t)) [
          | inl (e', stuck) ↦ frees remaining e' stuck
          | inr ((u, s'), done) ↦ ground (arith, found, valid, left, done, failed)
        ]
        | inr none_left ↦ ground (arith, found, valid, none_left, failed)
      ]

  -- An expiry throws only if something stands in its way.
  pub close_body-IsBlocked :
      (id : ℕ) (t : Store) (e : Error)
      → close_body c expired "ORDER_EXPIRED" id t ≡ err e
      → IsBlocked id t
  close_body-IsBlocked id t e failed = elim (Option-cases (row_of id t)) [
    | inl missing ↦ gone missing
    | inr (o, found) ↦ elim (IsActive-cases o.status) [
      | inr inactive ↦ moved o found inactive
      | inl active ↦ elim (locks-IsReleased o t) [
        | inl frees ↦ absurd (released_closes o id t e found active frees failed)
        | inr (inl missing) ↦ without_portfolio o found missing
        | inr (inr (sale, missing)) ↦ without_position o found sale missing
      ]
    ]
  ]
