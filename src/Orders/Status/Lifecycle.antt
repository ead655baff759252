-- ===== src/Orders/Status/Lifecycle.antt =====
-- The lives that the state machine allows.
use trade_alpha.Base.{ℕ, ◌<◌, ◌≡◌, refl, ◌⊎◌, inl, true, arith}
use trade_alpha.Store.Rows.{
  OrderStatus, received, validated, accepted, pending, partially_filled, filled, rejected,
  cancelled, expired,
}
use trade_alpha.Orders.Status.{is_valid_transition}

-- A run of valid transitions.
pub data Leads (from : OrderStatus) : OrderStatus → Type 0 where
  here : Leads from from
  next : {mid to : OrderStatus} → Leads from mid → is_valid_transition mid to ≡ true → Leads from to

-- How far along its life a status is.
abbrev stage : OrderStatus → ℕ
stage received = 0
stage validated = 1
stage accepted = 2
stage pending = 3
stage partially_filled = 4
stage filled = 5
stage rejected = 5
stage cancelled = 5
stage expired = 5

-- A valid transition goes on to a later stage, or is another partial fill.
transition_advances :
    (from to : OrderStatus)
    → is_valid_transition from to ≡ true
    → (stage from < stage to) ⊎ ((from ≡ partially_filled) × (to ≡ partially_filled))
unfolding is_valid_transition
transition_advances received to h = ground arith
transition_advances validated to h = ground arith
transition_advances accepted to h = ground arith
transition_advances pending to h = ground arith
transition_advances partially_filled to h = ground arith
transition_advances _ to h = ground arith

Leads-stage : {from to : OrderStatus} → Leads from to → (from ≡ to) ⊎ (stage from < stage to)
Leads-stage here = inl refl
Leads-stage {from} {to} (next {mid = mid} r v) =
    ground (arith, Leads-stage r, transition_advances mid to v)

-- If valid transitions lead from one status to another and back, the two are the same: no order
-- returns to a status that it has left.
pub lifecycle_acyclic : (a b : OrderStatus) → Leads a b → Leads b a → a ≡ b
lifecycle_acyclic a b there back = ground (arith, Leads-stage there, Leads-stage back)
