-- ===== src/Liquidation.antt =====
-- apps/api/src/workers/liquidation.worker.ts: the order that closes the largest position of a
-- portfolio whose margin level is too low. Levels count units of 10^-4, a notional 10^-8 and a
-- margin 10^-10. The services below are parameters: what is cached of the prices, `localeCompare`
-- on symbols, and the text of an idempotency key.
pub mod Choice
pub mod Effects
pub mod Stuck
pub mod System
pub mod Tests
use trade_alpha.Base.{
  ℕ, zero, suc, ◌+◌, ◌==◌, Bool, true, false, not, ◌&&◌, Option, none, some, List, [], ◌∷◌, map,
  String, str_eq, length, if◌then◌else◌,
}
use trade_alpha.Int.{ℤ, pos, ◌*ℤ◌, ltb_ℤ, leb_ℤ, eqb_ℤ, abs}
use trade_alpha.Column.{Column}
use trade_alpha.Store.Rows.{
  Store, Portfolio, Position, Order, OrderStatus, OrderSide, buy, sell, market, received, validated,
  accepted, pending, partially_filled, cancelled, order_moved, order_placed,
}
use trade_alpha.Store.Tables.{find, filter_where}
use trade_alpha.Store.Tx.{Tx, Result, ok, err, pure, gets, from_result, transaction, ◌>>=◌, ◌>>◌}
use trade_alpha.Session.{is_open}
use trade_alpha.Liquidity.{get_liquidity_profile, calculate_executable_price}
use trade_alpha.Valuation.{PriceCache, get_valuation}
use trade_alpha.Positions.{has_portfolio_id, emit}
use trade_alpha.Orders.Rows.{write_order, create_order}

abbrev pub is_active : OrderStatus → Bool
is_active received = true
is_active validated = true
is_active accepted = true
is_active pending = true
is_active partially_filled = true
is_active _ = false

abbrev pub is_active_liquidation : ℕ → Order → Bool
is_active_liquidation portfolio_id o =
    o.portfolio_id == portfolio_id && o.is_liquidation && is_active o.status

pub record Candidate : Type 0 where
  pub symbol : String
  pub quantity : ℤ
  pub notional : ℤ
  pub im_contribution : ℤ

abbrev side_of : ℤ → OrderSide
side_of quantity = if ltb_ℤ (pos 0) quantity then sell else buy

-- `priceStr ? … : 0`
abbrev price_or_zero : Option ℤ → ℤ
price_or_zero none = pos 0
price_or_zero (some price) = price

unfoldable pub candidate_of : PriceCache → Position → Candidate
candidate_of prices p =
    let ref_price = price_or_zero (prices p.symbol).price in
    let executable =
      calculate_executable_price (side_of p.quantity) ref_price (get_liquidity_profile p.symbol)
        (pos 0) in
    record {
      symbol = p.symbol;
      quantity = p.quantity;
      notional = abs p.quantity *ℤ ref_price;
      im_contribution = abs p.quantity *ℤ executable *ℤ pos 50;
    }

-- The comparison of `sort` is not positive: `a` may stay before `b`.
abbrev pub stays_before : (String → String → Bool) → Candidate → Candidate → Bool
stays_before symbol_le a b =
    if ltb_ℤ b.im_contribution a.im_contribution
    then true
    else if ltb_ℤ a.im_contribution b.im_contribution
    then false
    else if ltb_ℤ b.notional a.notional
    then true
    else if ltb_ℤ a.notional b.notional
    then false
    else symbol_le a.symbol b.symbol

-- `Array.prototype.sort`, which is stable, as an insertion.
unfoldable pub insert_candidate :
    (String → String → Bool) → Candidate → List Candidate → List Candidate
insert_candidate symbol_le x [] = x ∷ []
insert_candidate symbol_le x (y ∷ ys) =
    let rest = insert_candidate symbol_le x ys in
    if stays_before symbol_le x y then x ∷ y ∷ ys else y ∷ rest

unfoldable pub sort_candidates : (String → String → Bool) → List Candidate → List Candidate
sort_candidates symbol_le [] = []
sort_candidates symbol_le (x ∷ xs) = insert_candidate symbol_le x (sort_candidates symbol_le xs)

-- The cancellation of one order. It writes the status without a look at the transitions.
abbrev pub cancel_one : Order → Tx (Unit {0})
cancel_one order = do
  updated ← write_order (record order { status = cancelled })
  emit (record {
    event_type = "ORDER_CANCELLED";
    aggregate_type = "Order";
    aggregate_id = order.id;
    payload = order_moved order.id order.portfolio_id;
  })

unfoldable pub cancel_all : List Order → Tx (Unit {0})
cancel_all [] = pure tt
cancel_all (o ∷ os) = cancel_one o >> cancel_all os

-- The data of `tx.order.create`.
unfoldable pub liquidation_order : Portfolio → Candidate → String → Order
liquidation_order portfolio top key = record {
  id = 0;
  user_id = portfolio.user_id;
  portfolio_id = portfolio.id;
  symbol = top.symbol;
  side = side_of top.quantity;
  order_type = market;
  requested_quantity = abs top.quantity;
  filled_quantity = pos 0;
  limit_price = none;
  stop_price = none;
  status = received;
  idempotency_key = key;
  reservation_price = none;
  reserved_margin = none;
  is_liquidation = true;
  is_activated = false;
}

-- What the worker takes from outside.
pub record Surroundings : Type 0 where
  pub prices : PriceCache
  pub symbol_le : String → String → Bool
  pub key_of : ℕ → String → ℕ → String

module _ (c : Column) (w : Surroundings) where
  -- The rounds of a symbol so far.
  abbrev pub round_count : Portfolio → String → Store → ℕ
  round_count portfolio symbol s = length (
      filter_where
        (λ (o : Order).
          o.portfolio_id == portfolio.id && str_eq o.symbol symbol && o.is_liquidation)
        s.orders)

  unfoldable pub place_liquidation : Portfolio → Candidate → Tx (Unit {0})
  unfolding liquidation_order
  place_liquidation portfolio top = do
    count ← gets (round_count portfolio top.symbol)
    let key = w.key_of portfolio.id top.symbol count
    order ← create_order (liquidation_order portfolio top key)
    emit (record {
      event_type = "ORDER_PLACED";
      aggregate_type = "Order";
      aggregate_id = order.id;
      payload = order_placed order.id order.symbol key order.portfolio_id;
    })

  unfoldable pub liquidate_top : Portfolio → List Candidate → Tx (Unit {0})
  liquidate_top portfolio [] = pure tt
  liquidate_top portfolio (top ∷ _) =
      if leb_ℤ top.notional (pos 0) then pure tt else place_liquidation portfolio top

  abbrev pub open_positions : ℕ → Store → List Position
  open_positions portfolio_id s =
      filter_where (λ p. p.portfolio_id == portfolio_id && not (eqb_ℤ p.quantity (pos 0)))
        s.positions

  abbrev pub candidates_of : ℕ → Store → List Candidate
  candidates_of portfolio_id s =
      sort_candidates w.symbol_le (map (candidate_of w.prices) (open_positions portfolio_id s))

  -- What follows once the margin level is known.
  unfoldable pub act_on_level : Portfolio → ℤ → Tx (Unit {0})
  act_on_level portfolio level = do
    active ← gets (λ s. filter_where (is_active_liquidation portfolio.id) s.orders)
    if leb_ℤ (pos 1_200_000) level
        then cancel_all active
        else if leb_ℤ (pos 1_000_000) level
        then pure tt
        else elim active [
          | _ ∷ _ ↦ pure tt
          | [] ↦ gets (candidates_of portfolio.id) >>= liquidate_top portfolio
        ]

  unfoldable pub evaluate_body : ℕ → Tx (Unit {0})
  evaluate_body portfolio_id s = elim (find (has_portfolio_id portfolio_id) s.portfolios) [
    | none ↦ ok (tt, s)
    | some portfolio ↦
        let held = filter_where (λ p. p.portfolio_id == portfolio.id) s.positions in
        if not portfolio.is_margin_enabled
        then ok (tt, s)
        else elim (get_valuation c (some w.prices) portfolio held) [
          | err e ↦ err e
          | ok valuation ↦ elim valuation.margin_level [
            | none ↦ ok (tt, s)
            | some level ↦ act_on_level portfolio level s
          ]
        ]
  ]

  unfoldable pub evaluate_portfolio : ℕ → ℕ → Store → Result (Unit {0}) × Store
  evaluate_portfolio now portfolio_id s =
      if not (is_open now) then (ok tt, s) else transaction (evaluate_body portfolio_id) s
