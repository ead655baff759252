-- ===== src/Int/Ring.antt =====
-- Laws of the integers: one lemma for each operation lets `omega` work with the operations shut.
use native.Mathlib.Nat.{mul-le-mul_right}
use trade_alpha.Base.{ℕ, ◌+◌, ◌*◌, ◌≤◌, ◌≡◌, refl, ap, ap₂, ◌∙◌, true, arith}
use trade_alpha.Int.{ℤ, pos, negsuc, pos_part, neg_part, ◌+ℤ◌, ◌-ℤ◌, ◌*ℤ◌, ◌≤ℤ◌, ◌<ℤ◌, ltb_ℤ, abs}

pub +ℤ_parts :
    (a b : ℤ)
    → pos_part (a +ℤ b) + neg_part a + neg_part b ≡ neg_part (a +ℤ b) + pos_part a + pos_part b
unfolding ◌+ℤ◌
+ℤ_parts a b = ground arith

pub -ℤ_parts :
    (a b : ℤ)
    → pos_part (a -ℤ b) + neg_part a + pos_part b ≡ neg_part (a -ℤ b) + pos_part a + neg_part b
unfolding ◌-ℤ◌
-ℤ_parts a b = ground arith

pub *ℤ_parts :
    (a b : ℤ)
    → pos_part (a *ℤ b) + pos_part a * neg_part b + neg_part a * pos_part b
      ≡ neg_part (a *ℤ b) + pos_part a * pos_part b + neg_part a * neg_part b
unfolding ◌*ℤ◌
*ℤ_parts a b = ground arith

pub eq_of_parts : (a b : ℤ) → pos_part a + neg_part b ≡ pos_part b + neg_part a → a ≡ b
eq_of_parts a b h = ground arith

pub abs_parts : (a : ℤ) → abs a ≡ pos (pos_part a + neg_part a)
unfolding abs
abs_parts a = refl

pub ruleset int_laws = (arith, +ℤ_parts, -ℤ_parts, eq_of_parts)

pub ruleset mul_laws = (arith, +ℤ_parts, -ℤ_parts, *ℤ_parts, eq_of_parts)

pub ltb→lt_ℤ : (a b : ℤ) → ltb_ℤ a b ≡ true → a <ℤ b
ltb→lt_ℤ a b h = ground arith

pub *ℤ_comm : (a b : ℤ) → a *ℤ b ≡ b *ℤ a
*ℤ_comm a b = omega mul_laws

-- An equation between numbers, multiplied by a number.
scale_eq : (x y k : ℕ) → x ≡ y → x * k ≡ y * k
scale_eq x y k h = ap (λ t. t * k) h

pub +ℤ-*ℤ : (a b c : ℤ) → (a +ℤ b) *ℤ c ≡ a *ℤ c +ℤ b *ℤ c
+ℤ-*ℤ a b c = eq_of_parts _ _ (
    omega (
      mul_laws,
      scale_eq _ _ (pos_part c) (+ℤ_parts a b),
      scale_eq _ _ (neg_part c) (+ℤ_parts a b),
    ))

pub -ℤ-*ℤ : (a b c : ℤ) → (a -ℤ b) *ℤ c ≡ a *ℤ c -ℤ b *ℤ c
-ℤ-*ℤ a b c = eq_of_parts _ _ (
    omega (
      mul_laws,
      scale_eq _ _ (pos_part c) (-ℤ_parts a b),
      scale_eq _ _ (neg_part c) (-ℤ_parts a b),
    ))

pub *ℤ-mono : (a b c : ℤ) → a ≤ℤ b → pos 0 ≤ℤ c → a *ℤ c ≤ℤ b *ℤ c
*ℤ-mono a b (pos n) h k = omega (mul_laws, mul-le-mul_right n h)
*ℤ-mono a b (negsuc n) h k = absurd (omega arith)

-- `omega` reads an equation of integers through its parts.
pub parts : {a b : ℤ} → a ≡ b → pos_part a + neg_part b ≡ pos_part b + neg_part a
parts {a} {b} e = rw e (omega arith)

pub *ℤ-+ℤ : (a b c : ℤ) → a *ℤ (b +ℤ c) ≡ a *ℤ b +ℤ a *ℤ c
*ℤ-+ℤ a b c = *ℤ_comm a (b +ℤ c) ∙ +ℤ-*ℤ b c a ∙ ap₂ ◌+ℤ◌ (*ℤ_comm b a) (*ℤ_comm c a)

pub *ℤ--ℤ : (a b c : ℤ) → a *ℤ (b -ℤ c) ≡ a *ℤ b -ℤ a *ℤ c
*ℤ--ℤ a b c = *ℤ_comm a (b -ℤ c) ∙ -ℤ-*ℤ b c a ∙ ap₂ ◌-ℤ◌ (*ℤ_comm b a) (*ℤ_comm c a)

pub zero-*ℤ : (a : ℤ) → pos 0 *ℤ a ≡ pos 0
zero-*ℤ a = omega mul_laws

pub abs_nonneg : (a : ℤ) → pos 0 ≤ℤ a → abs a ≡ a
unfolding abs
abs_nonneg a h = ground arith

pub abs_nonpos : (a : ℤ) → a ≤ℤ pos 0 → abs a ≡ pos 0 -ℤ a
unfolding abs ◌-ℤ◌
abs_nonpos a h = ground arith

pub one-*ℤ : (a : ℤ) → pos 1 *ℤ a ≡ a
one-*ℤ a = omega mul_laws

pub +ℤ_comm : (a b : ℤ) → a +ℤ b ≡ b +ℤ a
+ℤ_comm a b = omega int_laws

pub zero-+ℤ : (a : ℤ) → pos 0 +ℤ a ≡ a
zero-+ℤ a = omega int_laws
