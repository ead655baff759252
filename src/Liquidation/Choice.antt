-- ===== src/Liquidation/Choice.antt =====
-- The position that is closed first.
use trade_alpha.Base.{
  ◌≡◌, refl, sym, Bool, true, false, List, [], ◌∷◌, All, String, arith, Bool-cases, inl, inr, ◌⊎◌,
  subst,
}
use trade_alpha.Int.{◌≤ℤ◌, ◌<ℤ◌}
use trade_alpha.Int.Ring.{eq_of_parts}
use trade_alpha.Store.Tables.{All-map}
use trade_alpha.Liquidation.{Candidate, stays_before, insert_candidate, sort_candidates}

-- `a` contributes more margin than `b`, or as much and has at least its notional.
abbrev pub Precedes : Candidate → Candidate → Type 0
Precedes a b =
    (b.im_contribution <ℤ a.im_contribution)
    ⊎ ((a.im_contribution ≡ b.im_contribution) × (b.notional ≤ℤ a.notional))

abbrev pub IsIn : Candidate → List Candidate → Type 0
IsIn x [] = ⊥
IsIn x (y ∷ ys) = (x ≡ y) ⊎ IsIn x ys

elements-IsIn : (xs : List Candidate) → All (λ x. IsIn x xs) xs
elements-IsIn [] = tt
elements-IsIn (x ∷ xs) = (inl refl, All-map (λ y. IsIn y xs) _ xs (λ y h. inr h) (elements-IsIn xs))

module _ (symbol_le : String → String → Bool) where
  -- The head of a list precedes everything in it.
  pub IsLed : List Candidate → Type 0
  IsLed [] = Unit
  IsLed (x ∷ xs) = All (Precedes x) (x ∷ xs)

  stays_before-Precedes : (a b : Candidate) → stays_before symbol_le a b ≡ true → Precedes a b
  stays_before-Precedes a b h = ground (arith, eq_of_parts a.im_contribution b.im_contribution)

  passes_after : (a b : Candidate) → stays_before symbol_le a b ≡ false → Precedes b a
  passes_after a b h = ground (arith, eq_of_parts b.im_contribution a.im_contribution)

  precedence_trans : (a b d : Candidate) → Precedes a b → Precedes b d → Precedes a d
  precedence_trans a b d h k = ground arith

  precedence-All :
      (a b : Candidate) (xs : List Candidate)
      → Precedes a b
      → All (Precedes b) xs
      → All (Precedes a) xs
  precedence-All a b xs h = All-map (Precedes b) (Precedes a) xs (λ d. precedence_trans a b d h)

  precedence_refl : (a : Candidate) → Precedes a a
  precedence_refl a = inr (refl, omega arith)

  insert_candidate-All :
      (P : Candidate → Type 0) (x : Candidate) (ys : List Candidate)
      → P x
      → All P ys
      → All P (insert_candidate symbol_le x ys)
  unfolding insert_candidate
  insert_candidate-All P x [] p all = (p, tt)
  insert_candidate-All P x (y ∷ ys) p all = elim (Bool-cases (stays_before symbol_le x y)) [
    | inl before ↦ rw before (p, all)
    | inr after ↦ rw after (all.0, insert_candidate-All P x ys p all.1)
  ]

  inserted-All :
      (P : Candidate → Type 0) (x : Candidate) (ys : List Candidate)
      → All P (insert_candidate symbol_le x ys)
      → P x × All P ys
  unfolding insert_candidate
  inserted-All P x [] all = all
  inserted-All P x (y ∷ ys) all = elim (Bool-cases (stays_before symbol_le x y)) [
    | inl before ↦ (rw before at all)
    | inr after ↦
        let moved = rw after at all in
        let (p, rest) = inserted-All P x ys moved.1 in (p, (moved.0, rest))
  ]

  sorted-All :
      (P : Candidate → Type 0) (xs : List Candidate)
      → All P (sort_candidates symbol_le xs)
      → All P xs
  unfolding sort_candidates
  sorted-All P [] all = tt
  sorted-All P (x ∷ xs) all =
      let (p, rest) = inserted-All P x (sort_candidates symbol_le xs) all in
      (p, sorted-All P xs rest)

  pub sort_candidates-All :
      (P : Candidate → Type 0) (xs : List Candidate)
      → All P xs
      → All P (sort_candidates symbol_le xs)
  unfolding sort_candidates
  sort_candidates-All P [] all = tt
  sort_candidates-All P (x ∷ xs) all =
      insert_candidate-All P x (sort_candidates symbol_le xs) all.0 (sort_candidates-All P xs all.1)

  insert_candidate-IsLed :
      (x : Candidate) (ys : List Candidate) → IsLed ys → IsLed (insert_candidate symbol_le x ys)
  unfolding IsLed insert_candidate
  insert_candidate-IsLed x [] h = (precedence_refl x, tt)
  insert_candidate-IsLed x (y ∷ ys) h = elim (Bool-cases (stays_before symbol_le x y)) [
    | inl before ↦
        rw before
          (precedence_refl x, precedence-All x y (y ∷ ys) (stays_before-Precedes x y before) h)
    | inr after ↦
        rw after
          (precedence_refl y, insert_candidate-All (Precedes y) x ys (passes_after x y after) h.1)
  ]

  sort_candidates-IsLed : (xs : List Candidate) → IsLed (sort_candidates symbol_le xs)
  unfolding sort_candidates IsLed
  sort_candidates-IsLed [] = tt
  sort_candidates-IsLed (x ∷ xs) =
      insert_candidate-IsLed x (sort_candidates symbol_le xs) (sort_candidates-IsLed xs)

  -- The first of the sorted candidates is one of the candidates, and it has the largest margin
  -- contribution, and among those of that contribution the largest notional, whatever order on
  -- symbols breaks the ties.
  pub top-Precedes-All :
      (xs : List Candidate) (top : Candidate) (rest : List Candidate)
      → sort_candidates symbol_le xs ≡ top ∷ rest
      → IsIn top xs × All (Precedes top) xs
  unfolding IsLed
  top-Precedes-All xs top rest e =
      let led = subst IsLed e (sort_candidates-IsLed xs) in
      let found =
        subst (All (λ x. IsIn x xs)) e
          (sort_candidates-All (λ x. IsIn x xs) xs (elements-IsIn xs)) in
      (found.0, sorted-All (Precedes top) xs (subst (All (Precedes top)) (sym e) led))
