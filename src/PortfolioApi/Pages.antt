-- ===== src/PortfolioApi/Pages.antt =====
-- The pages of a list, one after another.
use trade_alpha.Base.{
  ℕ, zero, suc, ◌+◌, ◌-◌, ◌*◌, ◌≤◌, ◌≡◌, refl, sym, ap, ap₂, ◌∙◌, List, [], ◌∷◌, ◌++◌, length, take,
  drop, arith,
}
use trade_alpha.PortfolioApi.{paginate}

-- The rows of the first pages, joined.
unfoldable pub rows_of_pages : {A : Type 0} → ℕ → ℕ → List A → List A
rows_of_pages zero limit rows = []
rows_of_pages (suc n) limit rows = rows_of_pages n limit rows ++ (paginate (suc n) limit rows).rows

module _ {A : Type 0} where
  take_empty : (n : ℕ) → take {A = A} n [] ≡ []
  take_empty zero = refl
  take_empty (suc n) = refl

  take_add : (m n : ℕ) (xs : List A) → take (m + n) xs ≡ take m xs ++ take n (drop m xs)
  take_add zero n xs = ap (λ k. take k xs) (omega arith)
  take_add (suc m) n [] = take_empty (suc m + n) ∙ sym (take_empty n)
  take_add (suc m) n (x ∷ xs) =
      let shift : suc m + n ≡ suc (m + n) = omega arith in
      ap (λ k. take k (x ∷ xs)) shift ∙ ap (λ ys. x ∷ ys) (take_add m n xs)

  take_enough : (n : ℕ) (xs : List A) → length xs ≤ n → take n xs ≡ xs
  take_enough zero [] h = refl
  take_enough zero (x ∷ xs) h = absurd (omega arith)
  take_enough (suc n) [] h = refl
  take_enough (suc n) (x ∷ xs) h = ap (λ ys. x ∷ ys) (take_enough n xs (omega arith))

  rows_of_pages_lem :
      (n limit : ℕ) (rows : List A) → rows_of_pages n limit rows ≡ take (n * limit) rows
  unfolding rows_of_pages paginate
  rows_of_pages_lem zero limit rows =
      let nothing : 0 ≡ 0 * limit = omega arith in ap (λ k. take k rows) nothing
  rows_of_pages_lem (suc n) limit rows =
      let one : suc n - 1 ≡ n = omega arith in
      let before = ap (λ k. k * limit) one in
      let after : n * limit + limit ≡ suc n * limit = omega arith in
      ap₂ (λ xs k. xs ++ take limit (drop k rows)) (rows_of_pages_lem n limit rows) before
      ∙ sym (take_add (n * limit) limit rows)
      ∙ ap (λ k. take k rows) after

-- The rows of the first pages of a list, joined, are the whole list, each row once and in order,
-- if that many pages hold as many rows.
pub pages_cover :
    {A : Type 0} (n limit : ℕ) (rows : List A)
    → length rows ≤ n * limit
    → rows_of_pages n limit rows ≡ rows
pages_cover n limit rows enough =
    rows_of_pages_lem n limit rows ∙ take_enough (n * limit) rows enough
