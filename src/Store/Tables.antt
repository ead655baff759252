-- ===== src/Store/Tables.antt =====
-- A table as a list of rows: what Prisma's `findUnique` and `update` with a `where` clause do.
use trade_alpha.Base.{
  Bool, true, false, ◌≡◌, refl, Option, none, some, List, [], ◌∷◌, if◌then◌else◌, arith, Bool-cases,
  inl, inr, subst, All,
}
use mathlib.Core.Option

module _ {ℓ} {A : Type ℓ} where
  -- `findUnique({ where })`
  unfoldable pub find : (A → Bool) → List A → Option A
  find p [] = none
  find p (x ∷ xs) = if p x then some x else find p xs

  -- `update({ where, data })`
  unfoldable pub update_where : (A → Bool) → (A → A) → List A → List A
  update_where p f [] = []
  update_where p f (x ∷ xs) = (if p x then f x else x) ∷ update_where p f xs

  -- `findMany({ where })`
  unfoldable pub filter_where : (A → Bool) → List A → List A
  filter_where p [] = []
  filter_where p (x ∷ xs) = let rest = filter_where p xs in if p x then x ∷ rest else rest

  -- Reading back what an update has written.
  pub find-update_where :
      (p : A → Bool) (f : A → A) (xs : List A)
      → ((x : A) → p (f x) ≡ p x)
      → find p (update_where p f xs) ≡ Option.map f (find p xs)
  unfolding find update_where
  find-update_where p f [] h = refl
  find-update_where p f (x ∷ xs) h = elim (Bool-cases (p x)) [
    | inl hit ↦ rw (hit, h x, hit) refl
    | inr miss ↦ rw (miss, miss) (find-update_where p f xs h)
  ]

  -- The row that an update writes is found.
  pub find_written :
      (p : A → Bool) (new : A) (xs : List A) {x : A}
      → p new ≡ true
      → find p xs ≡ some x
      → find p (update_where p (λ _. new) xs) ≡ some new
  unfolding find update_where
  find_written p new [] hit found = cc
  find_written p new (y ∷ ys) {x} hit found = elim (Bool-cases (p y)) [
    | inl here ↦ rw (here, hit) refl
    | inr miss ↦ rw (miss, miss) (find_written p new ys {x = x} hit (ground arith))
  ]

  -- A row that is found satisfies the condition, and what all rows satisfy.
  pub find_sound : (p : A → Bool) (xs : List A) {x : A} → find p xs ≡ some x → p x ≡ true
  unfolding find
  find_sound p [] h = cc
  find_sound p (y ∷ ys) {x} h = elim (Bool-cases (p y)) [
    | inl hit ↦ ground arith
    | inr miss ↦ find_sound p ys (ground arith)
  ]

  pub find-All {κ} :
      (P : A → Type κ) (p : A → Bool) (xs : List A) {x : A} → All P xs → find p xs ≡ some x → P x
  unfolding find
  find-All P p [] all h = cc
  find-All P p (y ∷ ys) {x} all h = elim (Bool-cases (p y)) [
    | inl hit ↦ subst P (ground arith) all.0
    | inr miss ↦ find-All P p ys all.1 (ground arith)
  ]

  pub update_where-All {κ} :
      (P : A → Type κ) (p : A → Bool) (f : A → A) (xs : List A)
      → ((x : A) → p x ≡ true → P x → P (f x))
      → All P xs
      → All P (update_where p f xs)
  unfolding update_where
  update_where-All P p f [] keep all = tt
  update_where-All P p f (x ∷ xs) keep all = elim (Bool-cases (p x)) [
    | inl hit ↦ rw hit (keep x hit all.0, update_where-All P p f xs keep all.1)
    | inr miss ↦ rw miss (all.0, update_where-All P p f xs keep all.1)
  ]

  pub All-map {κ ν} :
      (P : A → Type κ) (Q : A → Type ν) (xs : List A) → ((x : A) → P x → Q x) → All P xs → All Q xs
  All-map P Q [] f all = tt
  All-map P Q (x ∷ xs) f all = (f x all.0, All-map P Q xs f all.1)

  -- What all rows satisfy after an update, by the rows that it writes and those that it leaves.
  pub update_where-All_cases {κ ν} :
      (P : A → Type κ) (Q : A → Type ν) (p : A → Bool) (f : A → A) (xs : List A)
      → ((x : A) → p x ≡ true → P x → Q (f x))
      → ((x : A) → p x ≡ false → P x → Q x)
      → All P xs
      → All Q (update_where p f xs)
  unfolding update_where
  update_where-All_cases P Q p f [] write leave all = tt
  update_where-All_cases P Q p f (x ∷ xs) write leave all = elim (Bool-cases (p x)) [
    | inl hit ↦ rw hit (write x hit all.0, update_where-All_cases P Q p f xs write leave all.1)
    | inr miss ↦ rw miss (leave x miss all.0, update_where-All_cases P Q p f xs write leave all.1)
  ]

  -- Every row that a condition selects satisfies it, and what all rows satisfy.
  pub filter_where-All {κ} :
      (P : A → Type κ) (p : A → Bool) (xs : List A)
      → All P xs
      → All (λ x. (p x ≡ true) × P x) (filter_where p xs)
  unfolding filter_where
  filter_where-All P p [] all = tt
  filter_where-All P p (x ∷ xs) all = elim (Bool-cases (p x)) [
    | inl hit ↦ rw hit ((hit, all.0), filter_where-All P p xs all.1)
    | inr miss ↦ rw miss (filter_where-All P p xs all.1)
  ]

  -- The first row that satisfies a condition stays the first when others are left out.
  pub find-filter_where :
      (p q : A → Bool) (xs : List A) {x : A}
      → find p xs ≡ some x
      → q x ≡ true
      → find p (filter_where q xs) ≡ some x
  unfolding find filter_where
  find-filter_where p q [] {x} found chosen = found
  find-filter_where p q (y ∷ ys) {x} found chosen = elim (Bool-cases (p y)) [
    | inl hit ↦ ground (arith, Bool-cases (q y))
    | inr miss ↦
        let rest = find-filter_where p q ys {x = x} (ground arith) chosen in
        ground (arith, Bool-cases (q y))
  ]

  -- Reading by one condition what an update by another has written.
  pub find-update_where_by :
      (p q : A → Bool) (f : A → A) (xs : List A) {x : A}
      → ((y : A) → p (f y) ≡ p y)
      → find p xs ≡ some x
      → find p (update_where q f xs) ≡ some (if q x then f x else x)
  unfolding find update_where
  find-update_where_by p q f [] {x} keep found = cc
  find-update_where_by p q f (y ∷ ys) {x} keep found =
      let kept = keep y in
      elim (Bool-cases (p y)) [
        | inl hit ↦ ground (arith, Bool-cases (q y))
        | inr miss ↦
            let rest = find-update_where_by p q f ys {x = x} keep (ground arith) in
            ground (arith, Bool-cases (q y))
      ]
