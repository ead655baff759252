-- ===== src/Valuation/Equity.antt =====
-- The net market value of a portfolio against the cost of its positions.
use trade_alpha.Base.{
  ◌≡◌, ◌≢◌, refl, true, false, none, some, List, [], ◌∷◌, if◌then◌else◌, arith, inl, inr,
  Bool-cases,
}
use trade_alpha.Int.{ℤ, pos, ◌+ℤ◌, ◌-ℤ◌, ◌*ℤ◌, ◌≤ℤ◌, ltb_ℤ, eqb_ℤ, abs}
use trade_alpha.Int.Ring.{
  int_laws, mul_laws, parts, eq_of_parts, -ℤ-*ℤ, *ℤ--ℤ, *ℤ_comm, abs_nonpos, zero-*ℤ,
}
use trade_alpha.Store.Rows.{Position, opened}
use trade_alpha.Store.Tx.{ok, err, valuation_failed}
use trade_alpha.Valuation.{
  LatestPrice, PriceCache, Totals, no_totals, add_position, total_positions, is_skipped, bid_of,
  ask_of,
}

-- What the positions that count have cost: a short position counts negative.
pub cost_basis : List Position → ℤ
cost_basis [] = pos 0
cost_basis (p ∷ ps) =
    (if is_skipped p then pos 0 else p.quantity *ℤ p.average_entry_price) +ℤ cost_basis ps

-- How far the net market value, with what is not realized, is from a cost.
abbrev IsWorth : Totals → ℤ → Type 0
IsWorth t cost = t.long_market_value -ℤ t.short_liability_value ≡ cost +ℤ t.unrealized_pnl

-- The margins are fixed shares of the gross exposure.
abbrev pub IsMargined : Totals → Type 0
IsMargined t =
    (t.initial_margin ≡ (t.long_market_value +ℤ t.short_liability_value) *ℤ pos 50)
    × (t.maintenance_margin ≡ (t.long_market_value +ℤ t.short_liability_value) *ℤ pos 25)

long_identity : (b a q : ℤ) → b *ℤ q ≡ q *ℤ a +ℤ (b -ℤ a) *ℤ q
long_identity b a q = omega (int_laws, parts (-ℤ-*ℤ b a q), parts (*ℤ_comm q a))

short_identity : (k a q : ℤ) → q ≤ℤ pos 0 → pos 0 -ℤ k *ℤ abs q ≡ q *ℤ a +ℤ (a -ℤ k) *ℤ abs q
short_identity k a q h = rw (abs_nonpos q h) (
    omega (
      int_laws,
      parts (*ℤ--ℤ k (pos 0) q),
      parts (-ℤ-*ℤ a k (pos 0 -ℤ q)),
      parts (*ℤ--ℤ a (pos 0) q),
      parts (*ℤ_comm a (pos 0)),
      parts (zero-*ℤ a),
      parts (*ℤ_comm a q),
    ))

add_position-IsWorth :
    (latest : LatestPrice) (p : Position) (t : Totals) (cost : ℤ)
    → eqb_ℤ p.quantity (pos 0) ≡ false
    → IsWorth t cost
    → IsWorth (add_position latest p t) (cost +ℤ p.quantity *ℤ p.average_entry_price)
unfolding add_position
add_position-IsWorth latest p t cost held w = elim (Bool-cases (ltb_ℤ (pos 0) p.quantity)) [
  | inl long ↦ rw long (
      omega (
        int_laws,
        parts w,
        parts (long_identity (bid_of latest p) p.average_entry_price p.quantity),
      ))
  | inr not_long ↦
      let short : ltb_ℤ p.quantity (pos 0) ≡ true = ground arith in
      rw (not_long, short)
        (omega (
          int_laws,
          parts w,
          parts (short_identity (ask_of latest p) p.average_entry_price p.quantity (ground arith)),
        ))
]

add_position-IsMargined :
    (latest : LatestPrice) (p : Position) (t : Totals)
    → IsMargined t
    → IsMargined (add_position latest p t)
unfolding add_position
add_position-IsMargined latest p t m = elim (Bool-cases (ltb_ℤ (pos 0) p.quantity)) [
  | inl long ↦ rw long (omega (mul_laws, parts m.0), omega (mul_laws, parts m.1))
  | inr not_long ↦ elim (Bool-cases (ltb_ℤ p.quantity (pos 0))) [
    | inl short ↦ rw (not_long, short) (omega (mul_laws, parts m.0), omega (mul_laws, parts m.1))
    | inr flat ↦ rw (not_long, flat) m
  ]
]

total_positions_lem :
    (prices : PriceCache) (ps : List Position) (t : Totals) (cost : ℤ)
    → IsWorth t cost
    → IsMargined t
    → (t' : Totals) × (total_positions (some prices) ps t ≡ ok t')
      × IsWorth t' (cost +ℤ cost_basis ps)
      × IsMargined t'
unfolding total_positions cost_basis
total_positions_lem prices [] t cost w m = (t, refl, omega (int_laws, parts w), m)
total_positions_lem prices (p ∷ ps) t cost w m = elim (Bool-cases (is_skipped p)) [
  | inl skipped ↦
      let (t', run, w', m') =
        total_positions_lem prices ps (record t { realized_pnl = t.realized_pnl +ℤ p.realized_pnl })
          cost w m in
      (t', rw skipped run, rw skipped (omega (int_laws, parts w')), m')
  | inr counted ↦
      let t₁ : Totals = record t { realized_pnl = t.realized_pnl +ℤ p.realized_pnl } in
      let held : eqb_ℤ p.quantity (pos 0) ≡ false = ground arith in
      let (t', run, w', m') =
        total_positions_lem prices ps (add_position (prices p.symbol) p t₁)
          (cost +ℤ p.quantity *ℤ p.average_entry_price)
          (add_position-IsWorth (prices p.symbol) p t₁ cost held w)
          (add_position-IsMargined (prices p.symbol) p t₁ m) in
      (t', rw counted run, rw counted (omega (int_laws, parts w')), m')
]

-- With a price cache the loop over the positions never fails, whatever is cached. The net market
-- value is the cost of the positions and the unrealized profit; the initial margin is half of the
-- gross exposure and the maintenance margin a quarter.
pub total_positions_value :
    (prices : PriceCache) (ps : List Position)
    → (t : Totals) × (total_positions (some prices) ps no_totals ≡ ok t)
      × (t.long_market_value -ℤ t.short_liability_value ≡ cost_basis ps +ℤ t.unrealized_pnl)
      × IsMargined t
total_positions_value prices ps =
    let (t, run, w, m) =
      total_positions_lem prices ps no_totals (pos 0) (omega int_laws)
        (omega mul_laws, omega mul_laws) in
    (t, run, omega (int_laws, parts w), m)

-- Without a price cache the valuation of positions that start with an open one of a quantity other
-- than zero fails.
pub no_cache_fails :
    (p : Position) (ps : List Position) (t : Totals)
    → p.status ≡ opened
    → p.quantity ≢ pos 0
    → total_positions none (p ∷ ps) t ≡ err valuation_failed
unfolding total_positions
no_cache_fails p ps t o q = ground (arith, eq_of_parts p.quantity (pos 0))
