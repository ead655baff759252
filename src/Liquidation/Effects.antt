-- ===== src/Liquidation/Effects.antt =====
-- What an evaluation leaves in the database.
use trade_alpha.Base.{
  ℕ, ◌+◌, ◌==◌, ◌≡◌, refl, subst, false, some, List, [], ◌∷◌, map, All, arith, inl, inr, ◌⊎◌,
  Bool-cases, Option-cases, String,
}
use trade_alpha.Int.{ℤ, pos, ◌<ℤ◌, leb_ℤ, eqb_ℤ, abs}
use trade_alpha.Column.{Column}
use trade_alpha.Store.Rows.{Store, Portfolio, Position, Order}
use trade_alpha.Store.Tables.{find, filter_where, filter_where-All, All-map}
use trade_alpha.Store.Tx.{ok, Result-cases}
use trade_alpha.Valuation.{get_valuation}
use trade_alpha.Positions.{has_portfolio_id}
use trade_alpha.Orders.Rows.{has_user_key}
use trade_alpha.Liquidation.{
  Candidate, Surroundings, candidate_of, candidates_of, round_count, open_positions,
  is_active_liquidation, cancel_all, liquidation_order, place_liquidation, liquidate_top,
  act_on_level, evaluate_body,
}
use trade_alpha.Liquidation.Choice.{sort_candidates-All}

-- A liquidation order that is placed: there was no active one, and the quantity is not zero.
pub record PlacedEffect (c : Column) (w : Surroundings) (portfolio : Portfolio) (s s' : Store)
    : Type 0 where
  pub top : Candidate
  pub rest : List Candidate
  pub key : String
  pub chosen : candidates_of c w portfolio.id s ≡ top ∷ rest
  pub quantity_pos : pos 0 <ℤ abs top.quantity
  pub no_active : filter_where (is_active_liquidation portfolio.id) s.orders ≡ []
  pub orders :
      s'.orders ≡ record (liquidation_order portfolio top key) { id = s.next_id } ∷ s.orders
  pub fills : s'.fills ≡ s.fills
  pub next_id : s'.next_id ≡ s.next_id + 1

pub data EvaluateEffect (c : Column) (w : Surroundings) (s s' : Store) : Type 0 where
  unchanged : s' ≡ s → EvaluateEffect c w s s'
  recovered :
      (portfolio : Portfolio)
      → cancel_all (filter_where (is_active_liquidation portfolio.id) s.orders) s ≡ ok (tt, s')
      → EvaluateEffect c w s s'
  placed_one : (portfolio : Portfolio) → PlacedEffect c w portfolio s s' → EvaluateEffect c w s s'

pub list-cases : (xs : List Order) → (xs ≡ []) ⊎ ((y : Order) × (ys : List Order) × (xs ≡ y ∷ ys))
list-cases [] = inl refl
list-cases (x ∷ xs) = inr (x, xs, refl)

module _ (c : Column) (w : Surroundings) where
  abs_pos : (a : ℤ) → eqb_ℤ a (pos 0) ≡ false → pos 0 <ℤ abs a
  unfolding abs
  abs_pos a h = ground arith

  candidates_nonzero :
      (ps : List Position)
      → All (λ (p : Position). eqb_ℤ p.quantity (pos 0) ≡ false) ps
      → All (λ x. pos 0 <ℤ abs x.quantity) (map (candidate_of w.prices) ps)
  unfolding candidate_of
  candidates_nonzero [] h = tt
  candidates_nonzero (p ∷ ps) h = (abs_pos p.quantity h.0, candidates_nonzero ps h.1)

  All-positions : (ps : List Position) → All (λ p. Unit {0}) ps
  All-positions [] = tt
  All-positions (p ∷ ps) = (tt, All-positions ps)

  chosen_nonzero :
      (portfolio_id : ℕ) (s : Store) (top : Candidate) (rest : List Candidate)
      → candidates_of c w portfolio_id s ≡ top ∷ rest
      → pos 0 <ℤ abs top.quantity
  chosen_nonzero portfolio_id s top rest e =
      (subst (All (λ (x : Candidate). pos 0 <ℤ abs x.quantity)) e (
        sort_candidates-All w.symbol_le (λ x. pos 0 <ℤ abs x.quantity) _
          (candidates_nonzero (open_positions c w portfolio_id s) (
            All-map _ (λ (p : Position). eqb_ℤ p.quantity (pos 0) ≡ false) _ (λ p h. ground arith)
              (filter_where-All (λ p. Unit {0}) _ s.positions (All-positions s.positions)))))).0

  place_liquidation_effect :
      (portfolio : Portfolio) (top : Candidate) (s s' : Store) (u : Unit {0})
      → place_liquidation c w portfolio top s ≡ ok (u, s')
      → (key : String) × (s'.orders
          ≡ record (liquidation_order portfolio top key) { id = s.next_id } ∷ s.orders)
        × (s'.fills ≡ s.fills)
        × (s'.next_id ≡ s.next_id + 1)
  unfolding place_liquidation
  place_liquidation_effect portfolio top s s' u run =
      let key = w.key_of portfolio.id top.symbol (round_count c w portfolio top.symbol s) in
      elim (Option-cases (find (has_user_key portfolio.user_id key) s.orders)) [
        | inr (other, used) ↦ ground arith
        | inl new ↦ (key, ground arith, ground arith, ground arith)
      ]

  liquidate_top-EvaluateEffect :
      (portfolio : Portfolio) (candidates : List Candidate) (s s' : Store) (u : Unit {0})
      → candidates_of c w portfolio.id s ≡ candidates
      → filter_where (is_active_liquidation portfolio.id) s.orders ≡ []
      → liquidate_top c w portfolio candidates s ≡ ok (u, s')
      → EvaluateEffect c w s s'
  unfolding liquidate_top
  liquidate_top-EvaluateEffect portfolio [] s s' u e none_active run = unchanged (ground arith)
  liquidate_top-EvaluateEffect portfolio (top ∷ rest) s s' u e none_active run =
      elim (Bool-cases (leb_ℤ top.notional (pos 0))) [
        | inl worthless ↦ unchanged (ground arith)
        | inr worth ↦
            let (key, orders, fills, next) =
              place_liquidation_effect portfolio top s s' u (ground arith) in
            placed_one portfolio (record {
              top = top;
              rest = rest;
              key = key;
              chosen = e;
              quantity_pos = chosen_nonzero portfolio.id s top rest e;
              no_active = none_active;
              orders = orders;
              fills = fills;
              next_id = next;
            })
      ]

  act_on_level-EvaluateEffect :
      (portfolio : Portfolio) (level : ℤ) (s s' : Store) (u : Unit {0})
      → act_on_level c w portfolio level s ≡ ok (u, s')
      → EvaluateEffect c w s s'
  unfolding act_on_level
  act_on_level-EvaluateEffect portfolio level s s' u run =
      let active = filter_where (is_active_liquidation portfolio.id) s.orders in
      elim (Bool-cases (leb_ℤ (pos 1_200_000) level)) [
        | inl high ↦ recovered portfolio (ground arith)
        | inr low ↦ elim (Bool-cases (leb_ℤ (pos 1_000_000) level)) [
          | inl called ↦ unchanged (ground arith)
          | inr forced ↦
              elim (list-cases (filter_where (is_active_liquidation portfolio.id) s.orders)) [
                | inr (x, xs, some_active) ↦ unchanged (ground arith)
                | inl none_active ↦
                    liquidate_top-EvaluateEffect portfolio (candidates_of c w portfolio.id s) s s' u
                      refl none_active (ground arith)
              ]
        ]
      ]

  pub evaluate_body-EvaluateEffect :
      (id : ℕ) (s s' : Store) (u : Unit {0})
      → evaluate_body c w id s ≡ ok (u, s')
      → EvaluateEffect c w s s'
  unfolding evaluate_body
  evaluate_body-EvaluateEffect id s s' u run =
      elim (Option-cases (find (has_portfolio_id id) s.portfolios)) [
        | inl missing ↦ unchanged (ground arith)
        | inr (portfolio, found) ↦
            let held =
              filter_where (λ (p : Position). p.portfolio_id == portfolio.id) s.positions in
            elim (Bool-cases portfolio.is_margin_enabled) [
              | inr cash ↦ unchanged (ground arith)
              | inl margin ↦ elim (Result-cases (get_valuation c (some w.prices) portfolio held)) [
                | inl (e, failed) ↦ ground arith
                | inr (valuation, valued) ↦ elim (Option-cases valuation.margin_level) [
                  | inl absent ↦ unchanged (ground arith)
                  | inr (level, present) ↦
                      act_on_level-EvaluateEffect portfolio level s s' u (ground arith)
                ]
              ]
            ]
      ]
