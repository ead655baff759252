-- ===== src/Valuation/Margin.antt =====
-- The margin status and the margin level of a portfolio.
use trade_alpha.Base.{◌≡◌, ◌≢◌, ◌↔◌, ◌⊎◌, some, arith, inl, inr, Bool-cases}
use trade_alpha.Int.{ℤ, pos, ◌*ℤ◌, ◌≤ℤ◌, ◌<ℤ◌, ltb_ℤ}
use trade_alpha.Int.Ring.{mul_laws}
use trade_alpha.Column.{Column}
use trade_alpha.Valuation.{
  margin_status_of, margin_level_of, normal, margin_call, forced_liquidation,
}

-- Liquidation is forced exactly if the maintenance margin is positive and equity is below it, and
-- there is a margin call exactly if it is positive, equity covers it, and equity is below 1.2
-- times it.
pub margin_status_iff :
    (equity maintenance : ℤ)
    → let status = margin_status_of equity maintenance in
      ((status ≡ forced_liquidation)
        ↔ ((pos 0 <ℤ maintenance) × (equity *ℤ pos 100 <ℤ maintenance)))
      × ((status ≡ margin_call) ↔ (
          (pos 0 <ℤ maintenance)
          × (maintenance ≤ℤ equity *ℤ pos 100)
          × (equity *ℤ pos 10_000 <ℤ maintenance *ℤ pos 120)))
unfolding margin_status_of
margin_status_iff equity maintenance =
    ((λ h. ground arith, λ h. ground arith), (λ h. ground arith, λ h. ground arith))

module _ (c : Column) where
  -- A printed margin level is at least 100 unless liquidation is forced, and at least 120 if the
  -- status is normal.
  pub margin_level_sound :
      (equity maintenance : ℤ) {level : ℤ}
      → margin_level_of c equity maintenance ≡ some level
      → ((margin_status_of equity maintenance ≡ forced_liquidation) ⊎ (pos 1_000_000 ≤ℤ level))
        × ((margin_status_of equity maintenance ≢ normal) ⊎ (pos 1_200_000 ≤ℤ level))
  unfolding margin_level_of margin_status_of
  margin_level_sound equity maintenance {level} h = elim (Bool-cases (ltb_ℤ (pos 0) maintenance)) [
    | inr absent ↦ ground arith
    | inl present ↦
        let positive : pos 0 <ℤ maintenance = ground arith in
        let e : level ≡ c.write (equity *ℤ pos 100_000_000) maintenance = ground arith in
        let high = λ (x : ℤ). c.write_above x (equity *ℤ pos 100_000_000) maintenance positive in
        rw (e, present)
          (
            elim (Bool-cases (ltb_ℤ (equity *ℤ pos 100) maintenance)) [
              | inl forced ↦ inl (rw forced)
              | inr safe ↦
                  let covered : maintenance ≤ℤ equity *ℤ pos 100 = ground arith in
                  inr (high (pos 1_000_000) (omega mul_laws))
            ],
            elim (Bool-cases (ltb_ℤ (equity *ℤ pos 10_000) (maintenance *ℤ pos 120))) [
              | inl called ↦ inl (ground arith)
              | inr safe ↦
                  let covered : maintenance *ℤ pos 120 ≤ℤ equity *ℤ pos 10_000 = ground arith in
                  inr (high (pos 1_200_000) (omega mul_laws))
            ],
          )
  ]
