-- ===== src/Orders/Status.antt =====
-- The state machine of an order: the table `VALID_TRANSITIONS` and `isValidTransition`.
pub mod Lifecycle
use trade_alpha.Base.{Bool, true, false, ◌||◌, List, [], ◌∷◌}
use trade_alpha.Store.Rows.{
  OrderStatus, received, validated, accepted, pending, partially_filled, filled, rejected,
  cancelled, expired, status_eq,
}

unfoldable pub valid_transitions : OrderStatus → List OrderStatus
valid_transitions received = validated ∷ rejected ∷ []
valid_transitions validated = accepted ∷ rejected ∷ []
valid_transitions accepted = pending ∷ cancelled ∷ rejected ∷ expired ∷ []
valid_transitions pending = partially_filled ∷ filled ∷ cancelled ∷ expired ∷ rejected ∷ []
valid_transitions partially_filled = partially_filled ∷ filled ∷ cancelled ∷ expired ∷ []
valid_transitions filled = []
valid_transitions cancelled = []
valid_transitions rejected = []
valid_transitions expired = []

unfoldable pub includes : List OrderStatus → OrderStatus → Bool
includes [] to = false
includes (s ∷ ss) to = status_eq s to || includes ss to

unfoldable pub is_valid_transition : OrderStatus → OrderStatus → Bool
unfolding valid_transitions includes
is_valid_transition from to = includes (valid_transitions from) to
