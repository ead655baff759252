-- ===== src/Liquidation/Stuck.antt =====
-- A liquidation order that was placed, under the calls of the order service.
use trade_alpha.Base.{◌≡◌, ◌≢◌, refl, Bool, true, some, List, [], ◌∷◌, arith, inl, inr}
use trade_alpha.Int.{ℤ, pos, ◌<ℤ◌}
use trade_alpha.Column.{Column}
use trade_alpha.Store.Rows.{Store, Portfolio, Order}
use trade_alpha.Store.Tables.{find, filter_where}
use trade_alpha.Store.Tx.{ok}
use trade_alpha.Orders.Rows.{has_order_id}
use trade_alpha.Orders.Steps.{Run}
use trade_alpha.Orders.Steps.Invariant.{IsSound}
use trade_alpha.Orders.Steps.Frozen.{HasReceived, received_stays}
use trade_alpha.Liquidation.{Surroundings, liquidation_order, is_active_liquidation, act_on_level}
use trade_alpha.Liquidation.Effects.{PlacedEffect, list-cases}
use trade_alpha.Liquidation.System.{placed-IsSound}

-- A row that is found and satisfies another condition is among the rows that this selects.
selected :
    (p q : Order → Bool) (xs : List Order) (x : Order)
    → find p xs ≡ some x
    → q x ≡ true
    → filter_where q xs ≢ []
unfolding find filter_where
selected p q [] x found hit = cc
selected p q (y ∷ ys) x found hit = ground (arith, selected p q ys x)

module _ (c : Column) (w : Surroundings) where
  -- After the worker has placed a liquidation order in a database whose orders are sound, no run
  -- of the order service ever changes that order: it keeps the status RECEIVED, and at a margin
  -- level below 1.2 the worker does nothing for the portfolio any more.
  pub liquidation_stays :
      (portfolio : Portfolio) (s s' s'' : Store) (level : ℤ)
      → IsSound s
      → (e : PlacedEffect c w portfolio s s') → Run c s' s''
      → level <ℤ pos 1_200_000
      → HasReceived (record (liquidation_order portfolio e.top e.key) { id = s.next_id }) s''
        × (act_on_level c w portfolio level s'' ≡ ok (tt, s''))
  unfolding act_on_level liquidation_order find
  liquidation_stays portfolio s s' s'' level sound e r low =
      let o : Order = record (liquidation_order portfolio e.top e.key) { id = s.next_id } in
      let here : HasReceived o s' = record {
        found = rw e.orders (ground arith);
        is_received = refl;
      } in
      let stays = received_stays c o s' s'' (placed-IsSound c w portfolio s s' e sound) here r in
      let active =
        selected (has_order_id o.id) (is_active_liquidation portfolio.id) s''.orders o stays.found
          (ground arith) in
      (
        stays,
        elim (list-cases (filter_where (is_active_liquidation portfolio.id) s''.orders)) [
          | inl none_active ↦ absurd (active none_active)
          | inr (y, ys, some_active) ↦ ground arith
        ],
      )
