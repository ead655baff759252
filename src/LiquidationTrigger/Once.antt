-- ===== src/LiquidationTrigger/Once.antt =====
-- Every exposed portfolio gets one job.
use trade_alpha.Base.{
  ℕ, ◌+◌, ◌≡◌, ◌≢◌, refl, sym, subst, ap, ◌∙◌, ◌==◌, ◌⊎◌, inl, inr, Bool-cases, Option-cases,
  str_eq, str_eq_iff, Bool, true, false, ◌&&◌, ◌||◌, some, List, [], ◌∷◌, String, arith,
  if◌then◌else◌,
}
use trade_alpha.Store.Rows.{Store, Portfolio, Position}
use trade_alpha.Int.{ℤ, pos, eqb_ℤ}
use trade_alpha.Int.Ring.{eq_of_parts}
use trade_alpha.Store.Tables.{find}
use trade_alpha.Positions.{has_portfolio_id}
use trade_alpha.LiquidationTrigger.{
  has_margin, TickMessage, RiskJob, symbol_of, is_exposed, is_member, exposed_portfolios,
  enqueue_each, handle_message,
}

pub jobs_for : ℕ → List RiskJob → ℕ
jobs_for id [] = 0
jobs_for id (j ∷ js) = (if j.portfolio_id == id then 1 else 0) + jobs_for id js

-- A portfolio with margin has an open position in the symbol.
holds_open : String → List Portfolio → ℕ → List Position → Bool
holds_open symbol portfolios id [] = false
holds_open symbol portfolios id (p ∷ ps) =
    (p.portfolio_id == id && is_exposed symbol portfolios p) || holds_open symbol portfolios id ps

module _ (symbol : String) (portfolios : List Portfolio) (id : ℕ) (second : ℕ → ℕ) where
  enqueued_member :
      (ids : List ℕ) → is_member id ids ≡ false → jobs_for id (enqueue_each second ids) ≡ 0
  unfolding enqueue_each jobs_for
  enqueued_member [] h = refl
  enqueued_member (x ∷ xs) h = ground (arith, enqueued_member xs)

  member-exposed :
      (ps : List Position)
      → is_member id (exposed_portfolios symbol portfolios ps) ≡ holds_open symbol portfolios id ps
  unfolding exposed_portfolios holds_open
  member-exposed [] = refl
  member-exposed (p ∷ ps) = ground (arith, member-exposed ps)

  jobs-exposed :
      (ps : List Position)
      → jobs_for id (enqueue_each second (exposed_portfolios symbol portfolios ps))
        ≡ (if holds_open symbol portfolios id ps then 1 else 0)
  unfolding exposed_portfolios holds_open enqueue_each jobs_for
  jobs-exposed [] = refl
  jobs-exposed (p ∷ ps) =
      let rest = exposed_portfolios symbol portfolios ps in
      ground (arith, jobs-exposed ps, member-exposed ps, enqueued_member rest)

-- A position of the portfolio in the symbol is open.
abbrev pub IsOpen : String → ℕ → Position → Type 0
IsOpen symbol id p = (p.portfolio_id ≡ id) × (p.symbol ≡ symbol) × (p.quantity ≢ pos 0)

abbrev pub HoldsOpen : String → ℕ → List Position → Type 0
HoldsOpen symbol id [] = ⊥
HoldsOpen symbol id (p ∷ ps) = IsOpen symbol id p ⊎ HoldsOpen symbol id ps

abbrev pub HasMargin : ℕ → List Portfolio → Type 0
HasMargin id portfolios =
    (p : Portfolio) × (find (has_portfolio_id id) portfolios ≡ some p)
    × (p.is_margin_enabled ≡ true)

module _ (symbol : String) (portfolios : List Portfolio) (id : ℕ) where
  has_margin_lem : has_margin id portfolios ≡ true → HasMargin id portfolios
  has_margin_lem h = elim (Option-cases (find (has_portfolio_id id) portfolios)) [
    | inl missing ↦ ground arith
    | inr (p, found) ↦ (p, found, ground arith)
  ]

  not_zero : (q : ℤ) → q ≢ pos 0 → eqb_ℤ q (pos 0) ≡ false
  not_zero q apart = elim (Bool-cases (eqb_ℤ q (pos 0))) [
    | inr differs ↦ differs
    | inl equal ↦ absurd (apart (eq_of_parts q (pos 0) (ground arith)))
  ]

  exposed_sound :
      (p : Position)
      → p.portfolio_id == id && is_exposed symbol portfolios p ≡ true
      → IsOpen symbol id p × HasMargin id portfolios
  unfolding is_exposed
  exposed_sound p h =
      let same : p.portfolio_id ≡ id = ground arith in
      let margin : has_margin p.portfolio_id portfolios ≡ true = ground arith in
      let named : str_eq p.symbol symbol ≡ true = ground arith in
      let some_left : eqb_ℤ p.quantity (pos 0) ≡ false = ground arith in
      (
        (same, (str_eq_iff p.symbol symbol).0 named, λ zero. ground (arith, some_left, zero)),
        has_margin_lem (subst (λ k. has_margin k portfolios ≡ true) same margin),
      )

  exposed_complete :
      (p : Position)
      → IsOpen symbol id p
      → HasMargin id portfolios
      → p.portfolio_id == id && is_exposed symbol portfolios p ≡ true
  unfolding is_exposed
  exposed_complete p (own, named, some_left) (owner, found, margin) =
      let found_own : find (has_portfolio_id p.portfolio_id) portfolios ≡ some owner =
        subst (λ k. find (has_portfolio_id k) portfolios ≡ some owner) (sym own) found in
      ground (arith, found_own, str_eq_iff p.symbol symbol, not_zero p.quantity some_left)

  holds_open_sound :
      (ps : List Position)
      → holds_open symbol portfolios id ps ≡ true
      → HoldsOpen symbol id ps × HasMargin id portfolios
  unfolding holds_open
  holds_open_sound [] h = cc
  holds_open_sound (p ∷ ps) h =
      elim (Bool-cases (p.portfolio_id == id && is_exposed symbol portfolios p)) [
        | inl hit ↦ (inl (exposed_sound p hit).0, (exposed_sound p hit).1)
        | inr miss ↦ let (later, margin) = holds_open_sound ps (ground arith) in (inr later, margin)
      ]

  holds_open_complete :
      (ps : List Position)
      → HoldsOpen symbol id ps
      → HasMargin id portfolios
      → holds_open symbol portfolios id ps ≡ true
  unfolding holds_open
  holds_open_complete [] held margin = elim held [ ]
  holds_open_complete (p ∷ ps) (inl here) margin = ground (arith, exposed_complete p here margin)
  holds_open_complete (p ∷ ps) (inr later) margin =
      ground (arith, holds_open_complete ps later margin)

-- A tick of a symbol queues exactly one evaluation for a portfolio if margin is enabled for it and
-- it has a position in the symbol with a quantity other than zero, and none otherwise.
pub handle_message_once :
    (second : ℕ → ℕ) (m : TickMessage) (s : Store) (symbol : String) (id : ℕ)
    → symbol_of m ≡ some symbol
    → let jobs = jobs_for id (handle_message second (some m) s) in
      ((jobs ≡ 1) × HoldsOpen symbol id s.positions × HasMargin id s.portfolios)
      ⊎ ((jobs ≡ 0) × ¬ (HoldsOpen symbol id s.positions × HasMargin id s.portfolios))
unfolding handle_message
handle_message_once second m s symbol id named =
    let rows = exposed_portfolios symbol s.portfolios s.positions in
    let sent : handle_message second (some m) s ≡ enqueue_each second rows = ground arith in
    let count = ap (jobs_for id) sent ∙ jobs-exposed symbol s.portfolios id second s.positions in
    elim (Bool-cases (holds_open symbol s.portfolios id s.positions)) [
      | inl held ↦
          let (holding, margin) = holds_open_sound symbol s.portfolios id s.positions held in
          inl (ground arith, holding, margin)
      | inr not_held ↦ inr (
        ground arith,
        λ (holding, margin).
            ground (arith, holds_open_complete symbol s.portfolios id s.positions holding margin),
      )
    ]
