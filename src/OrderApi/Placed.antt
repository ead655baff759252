-- ===== src/OrderApi/Placed.antt =====
-- What the placement of an order answers, and what it leaves.
use trade_alpha.Base.{
  ℕ, ◌≡◌, refl, ◌⊎◌, inl, inr, Bool, true, some, arith, Option-cases, Bool-cases, subst, sym,
  str_eq_iff, ◌==◌,
}
use trade_alpha.Column.{Column}
use trade_alpha.Store.Rows.{Store, Portfolio, Order}
use trade_alpha.Store.Tables.{find, find_sound}
use trade_alpha.Store.Tx.{Result, Error, ok, err, unique_violation, Result-cases, ◌>>◌}
use trade_alpha.Session.{assert_open}
use trade_alpha.Positions.{has_portfolio_id}
use trade_alpha.Orders.Rows.{has_user_key}
use trade_alpha.Orders.Placing.{
  PlaceOrderDto, place_order, place_body, check_request, recover, order_data,
}
use trade_alpha.Orders.Placing.Effects.{PlaceEffect, place_body-PlaceEffect}
use trade_alpha.PortfolioApi.{Response, denied, answered}
use trade_alpha.OrderApi.{PlaceOrderBody, place, chosen_portfolio, respond, is_bad_request}

-- The portfolio of a request is there and belongs to its user.
pub record IsOwned (dto : PlaceOrderDto) (s : Store) : Type 0 where
  pub portfolio : Portfolio
  pub found : find (has_portfolio_id dto.portfolio_id) s.portfolios ≡ some portfolio
  pub owner : portfolio.user_id ≡ dto.user_id

module _ (c : Column) where
  place_body-IsOwned :
      (dto : PlaceOrderDto) (o : Order) (s s' : Store)
      → place_body c dto s ≡ ok (o, s')
      → IsOwned dto s
  unfolding place_body
  place_body-IsOwned dto o s s' h =
      elim (Option-cases (find (has_portfolio_id dto.portfolio_id) s.portfolios)) [
        | inl missing ↦ ground arith
        | inr (portfolio, found) ↦ elim (Bool-cases (portfolio.user_id == dto.user_id)) [
          | inr foreign ↦ ground arith
          | inl own ↦ record { portfolio = portfolio; found = found; owner = ground arith }
        ]
      ]

  -- The order of the request is found in the database.
  abbrev pub IsFound : PlaceOrderDto → Order → Store → Type 0
  IsFound dto o s = find (has_user_key dto.user_id dto.idempotency_key) s.orders ≡ some o

  -- An order that is answered has the user and the key of the request, and is one that was there or
  -- a new one in a portfolio of the user. An error leaves what other calls have left.
  abbrev pub Outcome : PlaceOrderDto → (Store → Store) → Store → Result Order → Store → Type 0
  Outcome dto interim s (err e) s' = (s' ≡ s) ⊎ (s' ≡ interim s)
  Outcome dto interim s (ok o) s' =
      (o.user_id ≡ dto.user_id)
      × (o.idempotency_key ≡ dto.idempotency_key)
      × (((s' ≡ s) × IsFound dto o s)
          ⊎ ((s' ≡ interim s) × IsFound dto o (interim s))
          ⊎ (IsOwned dto (interim s) × PlaceEffect c dto o (interim s) s'))

  keyed :
      (dto : PlaceOrderDto) (o : Order)
      → has_user_key dto.user_id dto.idempotency_key o ≡ true
      → (o.user_id ≡ dto.user_id) × (o.idempotency_key ≡ dto.idempotency_key)
  keyed dto o h = ground (arith, str_eq_iff o.idempotency_key dto.idempotency_key)

  recover-Outcome :
      (dto : PlaceOrderDto) (interim : Store → Store) (s : Store) (e : Error)
      → Outcome dto interim s (recover dto e (interim s)) (interim s)
  recover-Outcome dto interim s (unique_violation i) =
      let key = has_user_key dto.user_id dto.idempotency_key in
      let answer = recover dto (unique_violation i) (interim s) in
      elim (Option-cases (find key (interim s).orders)) [
        | inl missing ↦
            let gone : answer ≡ err (unique_violation i) = ground arith in
            subst (λ r. Outcome dto interim s r (interim s)) (sym gone) (inr refl)
        | inr (o, found) ↦
            let there : answer ≡ ok o = ground arith in
            let (owner, same) = keyed dto o (find_sound key (interim s).orders found) in
            subst (λ r. Outcome dto interim s r (interim s)) (sym there)
              (owner, same, inr (inl (refl, found)))
      ]
  recover-Outcome dto interim s e = inr refl

  place_order-Outcome :
      (now : ℕ) (interim : Store → Store) (dto : PlaceOrderDto) (s : Store)
      → let after = place_order c now interim dto s in Outcome dto interim s after.0 after.1
  unfolding place_order order_data
  place_order-Outcome now interim dto s =
      let key = has_user_key dto.user_id dto.idempotency_key in
      let Goal : Result Order × Store → Type 0 = λ r. Outcome dto interim s r.0 r.1 in
      let after = place_order c now interim dto s in
      elim (Result-cases ((check_request dto >> assert_open now) s)) [
        | inl (e, failed) ↦
            let ends : after ≡ (err e, s) = ground arith in subst Goal (sym ends) (inl refl)
        | inr (a, passed) ↦ elim (Option-cases (find key s.orders)) [
          | inr (o, found) ↦
              let ends : after ≡ (ok o, s) = ground arith in
              let (owner, same) = keyed dto o (find_sound key s.orders found) in
              subst Goal (sym ends) (owner, same, inl (refl, found))
          | inl new ↦ elim (Result-cases (place_body c dto (interim s))) [
            | inl (e, failed) ↦
                let ends : after ≡ (recover dto e (interim s), interim s) = ground arith in
                subst Goal (sym ends) (recover-Outcome dto interim s e)
            | inr ((o, s'), run) ↦
                let ends : after ≡ (ok o, s') = ground arith in
                let effect = place_body-PlaceEffect c dto o (interim s) s' run in
                subst Goal (sym ends) (
                  ground (arith, effect.result),
                  ground (arith, effect.result),
                  inr (inr (place_body-IsOwned dto o (interim s) s' run, effect)),
                )
          ]
        ]
      ]

  -- What a response of the handler means to the user it answers.
  abbrev pub Answers :
      ℕ → PlaceOrderBody → (Store → Store) → Store → Response Order → Store → Type 0
  Answers user_id body interim s (denied status) s' = (s' ≡ s) ⊎ (s' ≡ interim s)
  Answers user_id body interim s (answered o) s' =
      (portfolio_id : ℕ) × Outcome
        (record body.request { user_id = user_id; portfolio_id = portfolio_id }) interim s (ok o) s'

  respond-Answers :
      (bad : Error → Bool) (user_id portfolio_id : ℕ) (body : PlaceOrderBody)
      (interim : Store → Store) (s s' : Store) (r : Result Order)
      → Outcome
          (record body.request { user_id = user_id; portfolio_id = portfolio_id })
          interim
          s
          r
          s'
      → Answers user_id body interim s (respond bad r) s'
  respond-Answers bad user_id portfolio_id body interim s s' (ok o) h = (portfolio_id, h)
  respond-Answers bad user_id portfolio_id body interim s s' (err e) h = h

  -- Whatever user the body of a request names, an order that the placement answers has the user of
  -- the token and the key of the body; and either the database is as it was, or as other calls
  -- have left it, and has the order, or the order is a new one in a portfolio that belongs to that
  -- user. A placement that is denied leaves the database as it was, or as other calls have left
  -- it.
  pub place-Answers :
      (says : Error → Bool) (user_id now : ℕ) (interim : Store → Store) (body : PlaceOrderBody)
      (s : Store)
      → let after = place c says (some user_id) now interim body s in
        Answers user_id body interim s after.0 after.1
  unfolding place
  place-Answers says user_id now interim body s =
      let Goal : Response Order × Store → Type 0 = λ r. Answers user_id body interim s r.0 r.1 in
      let after = place c says (some user_id) now interim body s in
      elim (Option-cases (chosen_portfolio user_id body.portfolio_id s)) [
        | inl missing ↦
            let ends : after ≡ (denied 400, s) = ground arith in subst Goal (sym ends) (inl refl)
        | inr (id, chosen) ↦
            let dto : PlaceOrderDto = record body.request {
              user_id = user_id;
              portfolio_id = id;
            } in
            let r = place_order c now interim dto s in
            let ends : after ≡ (respond (is_bad_request says) r.0, r.1) = ground arith in
            subst Goal (sym ends) (
              respond-Answers (is_bad_request says) user_id id body interim s r.1 r.0
                (place_order-Outcome now interim dto s))
      ]
