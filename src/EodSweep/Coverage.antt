-- ===== src/EodSweep/Coverage.antt =====
-- No active order is passed over by a sweep, whatever other calls commit meanwhile.
use trade_alpha.Base.{
  ℕ, ◌≡◌, refl, sym, subst, ◌∙◌, ap, true, some, List, [], ◌∷◌, ◌++◌, arith, inl, inr, ◌⊎◌, Bool,
  Bool-cases,
}
use trade_alpha.Column.{Column}
use trade_alpha.Store.Rows.{Store, Order, OrderStatus, expired}
use trade_alpha.Store.Tables.{find, filter_where, find-filter_where, find_sound}
use trade_alpha.Store.Tx.{Error, err, Result-cases}
use trade_alpha.Orders.Rows.{has_order_id}
use trade_alpha.Orders.Closing.{close_body, expire_order}
use trade_alpha.Orders.Steps.{Run, start}
use trade_alpha.Orders.Steps.Invariant.{IsSound}
use trade_alpha.Orders.Steps.Sound.{Run-IsSound}
use trade_alpha.Orders.Steps.Calls.{expire_order-Step}
use trade_alpha.Orders.Steps.Service.{Run-trans, of_Step}
use trade_alpha.Orders.Steps.Frozen.{frozen_stays}
use trade_alpha.EodSweep.{is_sweepable, expire_all, execute_sweep}
use trade_alpha.EodSweep.Blocked.{IsActive, IsBlocked, close_body-IsBlocked}
use trade_alpha.EodSweep.Expiry.{row_of, expired_row}

active_swept : (status : OrderStatus) → IsActive status → is_sweepable status ≡ true
active_swept status h = ground arith

record IsSplit (o : Order) (os : List Order) : Type 0 where
  pub front : List Order
  pub back : List Order
  pub split : os ≡ front ++ (o ∷ back)

find-IsSplit : (p : Order → Bool) (o : Order) (os : List Order) → find p os ≡ some o → IsSplit o os
unfolding find
find-IsSplit p o [] found = cc
find-IsSplit p o (x ∷ os) found = elim (Bool-cases (p x)) [
  | inl hit ↦
      let same : x ≡ o = ground arith in
      record { front = []; back = os; split = ap (λ y. y ∷ os) same }
  | inr miss ↦
      let rest = find-IsSplit p o os (ground arith) in
      record { front = x ∷ rest.front; back = rest.back; split = ap (λ xs. x ∷ xs) rest.split }
]

module _ (c : Column) (between : ℕ → Store → Store) where
  -- What other calls do commits transactions.
  abbrev pub IsInterleaving : Type 0
  IsInterleaving = (k : ℕ) (t : Store) → Run c t (between k t)

  expire_all-++ :
      (front back : List Order) (s : Store)
      → expire_all c between (front ++ back) s
        ≡ expire_all c between back (expire_all c between front s)
  unfolding expire_all
  expire_all-++ [] back s = refl
  expire_all-++ (x ∷ front) back s = expire_all-++ front back _

  expire_all-Run :
      IsInterleaving → (os : List Order) (s : Store) → Run c s (expire_all c between os s)
  unfolding expire_all
  expire_all-Run calls [] s = start
  expire_all-Run calls (o ∷ os) s =
      let t = between o.id s in
      let expiry = of_Step c t _ (expire_order-Step c t o.id) in
      Run-trans c s _ _ (Run-trans c s t _ (calls o.id s) expiry) (expire_all-Run calls os _)

  -- The sweep comes to the order after the orders in front, in the state `t`, which has the order as
  -- other calls have left it. It expires then, or its expiry throws for a reason.
  pub record IsReached (o : Order) (s : Store) : Type 0 where
    pub front : List Order
    pub back : List Order
    pub listed : filter_where (λ (x : Order). is_sweepable x.status) s.orders ≡ front ++ (o ∷ back)
    pub t : Store
    pub at : t ≡ between o.id (expire_all c between front s)
    pub expires :
        ((current : Order) × (row_of o.id t ≡ some current)
          × (row_of o.id (execute_sweep c between s) ≡ some (record current { status = expired })))
        ⊎ ((e : Error) × ((expire_order c o.id t).0 ≡ err e) × IsBlocked o.id t)

  -- What is left of an order that has expired in the middle of a sweep.
  expired_stays :
      (o : Order) (os : List Order) (t s' : Store)
      → IsSound s'
      → IsInterleaving
      → row_of o.id s' ≡ some o
      → o.status ≡ expired
      → row_of o.id (expire_all c between os s') ≡ some o
  expired_stays o os t s' sound calls found status =
      (frozen_stays c o s' _ sound (record { found = found; frozen = inr status })
        (expire_all-Run calls os s')).found

  expiry_ends :
      (o : Order) (back : List Order) (t : Store)
      → IsSound t
      → IsInterleaving
      → ((current : Order) × (row_of o.id t ≡ some current)
          × (row_of o.id (expire_all c between back (expire_order c o.id t).1)
              ≡ some (record current { status = expired })))
        ⊎ ((e : Error) × ((expire_order c o.id t).0 ≡ err e) × IsBlocked o.id t)
  unfolding expire_order
  expiry_ends o back t sound calls =
      elim (Result-cases (close_body c expired "ORDER_EXPIRED" o.id t)) [
        | inl (e, failed) ↦ inr (e, ground (arith, failed), close_body-IsBlocked c o.id t e failed)
        | inr ((o', s'), run) ↦
            let (current, here, active, written) = expired_row c o.id o' t s' run in
            let own = find_sound (has_order_id o.id) t.orders here in
            let same : o.id ≡ current.id = ground (arith, own) in
            let now : (expire_order c o.id t).1 ≡ s' = ground (arith, run) in
            let sound_now =
              Run-IsSound c t s' sound
                (subst (Run c t) now (of_Step c t _ (expire_order-Step c t o.id))) in
            let gone : Order = record current { status = expired } in
            let kept =
              expired_stays gone back t s' sound_now calls
                (subst (λ k. row_of k s' ≡ some gone) same written) refl in
            inl (
              current,
              here,
              rw now (
                  subst (λ k. row_of k (expire_all c between back s') ≡ some gone) (sym same) kept),
            )
      ]

  -- A sweep comes to every order that was accepted, pending or partially filled when it began,
  -- whatever transactions of the order service other calls commit before each expiry. Then either
  -- the order is expired at the end of the sweep, and otherwise as the sweep found it; or its
  -- expiry throws, and by then the order is gone or not active any more, or its portfolio is
  -- missing, or, for a sale, its position. At first the orders are consistent with their fills.
  pub execute_sweep_covers :
      (o : Order) (s : Store)
      → IsSound s
      → IsInterleaving
      → row_of o.id s ≡ some o
      → IsActive o.status
      → IsReached o s
  unfolding execute_sweep expire_order expire_all
  execute_sweep_covers o s sound calls found active =
      let listed = filter_where (λ (x : Order). is_sweepable x.status) s.orders in
      let parts = find-IsSplit (has_order_id o.id) o listed (
        find-filter_where (has_order_id o.id) (λ x. is_sweepable x.status) s.orders found
          (active_swept o.status active)) in
      let t = between o.id (expire_all c between parts.front s) in
      let sound_t =
        Run-IsSound c _ t (Run-IsSound c s _ sound (expire_all-Run calls parts.front s))
          (calls o.id _) in
      record {
        front = parts.front;
        back = parts.back;
        listed = parts.split;
        t = t;
        at = refl;
        expires =
            subst
              (λ final.
                ((current : Order) × (row_of o.id t ≡ some current)
                  × (row_of o.id final ≡ some (record current { status = expired })))
                ⊎ ((e : Error) × ((expire_order c o.id t).0 ≡ err e) × IsBlocked o.id t))
              (sym (
                ap (λ xs. expire_all c between xs s) parts.split
                ∙ expire_all-++ parts.front (o ∷ parts.back) s))
              (expiry_ends o parts.back t sound_t calls);
      }
