-- ===== src/Base/Ring.antt =====
-- The laws of a ring for the integers, with the product shut.
use ebpf_verifier.Base.{ℕ, true, ◌*◌, ◌≡◌, ap, arith}
use ebpf_verifier.Base.Int.{
  ℤ, pos, negsuc, pos_part, neg_part, neg_ℤ, ◌+ℤ◌, ◌-ℤ◌, ◌*ℤ◌, eqb_ℤ, eq_of_parts, +ℤ_parts,
  -ℤ_parts, neg_ℤ_parts, pos_part-*ℤ, neg_part-*ℤ, int_laws,
}

pub +ℤ_distrib : (a b c : ℤ) → (a +ℤ b) *ℤ c ≡ a *ℤ c +ℤ b *ℤ c
+ℤ_distrib a b c = eq_of_parts _ _ (
    omega (
      arith,
      ap (λ (t : ℕ). t * pos_part c) (+ℤ_parts a b),
      ap (λ (t : ℕ). t * neg_part c) (+ℤ_parts a b),
      pos_part-*ℤ,
      neg_part-*ℤ,
      +ℤ_parts,
    ))

pub *ℤ_assoc : (a b c : ℤ) → (a *ℤ b) *ℤ c ≡ a *ℤ (b *ℤ c)
*ℤ_assoc a b c = eq_of_parts _ _ (simp (pos_part-*ℤ, neg_part-*ℤ) (omega arith))

pub *ℤ_distrib : (a b c : ℤ) → a *ℤ (b +ℤ c) ≡ a *ℤ b +ℤ a *ℤ c
*ℤ_distrib a b c = eq_of_parts _ _ (
    omega (
      arith,
      ap (λ (t : ℕ). t * pos_part a) (+ℤ_parts b c),
      ap (λ (t : ℕ). t * neg_part a) (+ℤ_parts b c),
      pos_part-*ℤ,
      neg_part-*ℤ,
      +ℤ_parts,
    ))

pub neg_ℤ-*ℤ : (a b : ℤ) → neg_ℤ a *ℤ b ≡ pos 0 -ℤ a *ℤ b
neg_ℤ-*ℤ a b = eq_of_parts _ _ (
    omega (
      arith,
      ap (λ (t : ℕ). t * pos_part b) (neg_ℤ_parts a).0,
      ap (λ (t : ℕ). t * neg_part b) (neg_ℤ_parts a).0,
      ap (λ (t : ℕ). t * pos_part b) (neg_ℤ_parts a).1,
      ap (λ (t : ℕ). t * neg_part b) (neg_ℤ_parts a).1,
      pos_part-*ℤ,
      neg_part-*ℤ,
      -ℤ_parts,
    ))

pub one-*ℤ : (a : ℤ) → pos 1 *ℤ a ≡ a
one-*ℤ a = eq_of_parts _ _ (omega (arith, pos_part-*ℤ, neg_part-*ℤ))

pub zero-*ℤ : (a : ℤ) → pos 0 *ℤ a ≡ pos 0
zero-*ℤ a = eq_of_parts _ _ (omega (arith, pos_part-*ℤ, neg_part-*ℤ))

pub +ℤ_assoc : (a b c : ℤ) → (a +ℤ b) +ℤ c ≡ a +ℤ (b +ℤ c)
+ℤ_assoc a b c = omega (arith, +ℤ_parts, eq_of_parts)

pub +ℤ_comm : (a b : ℤ) → a +ℤ b ≡ b +ℤ a
+ℤ_comm a b = omega (arith, +ℤ_parts, eq_of_parts)

pub +ℤ_swap : (a b c : ℤ) → (a +ℤ b) +ℤ c ≡ (c +ℤ b) +ℤ a
+ℤ_swap a b c = omega (arith, +ℤ_parts, eq_of_parts)

pub +ℤ-zero : (a : ℤ) → a +ℤ pos 0 ≡ a
+ℤ-zero a = omega (arith, +ℤ_parts, eq_of_parts)

pub zero-+ℤ : (a : ℤ) → pos 0 +ℤ a ≡ a
zero-+ℤ a = omega (arith, +ℤ_parts, eq_of_parts)

pub +ℤ_cancel : (a b c d : ℤ) → a +ℤ c ≡ b +ℤ d → c ≡ d → a ≡ b
+ℤ_cancel a b c d p q =
    eq_of_parts _ _
      (omega (arith, +ℤ_parts, ap pos_part p, ap neg_part p, ap pos_part q, ap neg_part q))

pub eqb_zero : (a : ℤ) → eqb_ℤ a (pos 0) ≡ true → a ≡ pos 0
eqb_zero a h = ground arith

pub +ℤ_move : (a b c d e : ℤ) → a +ℤ b ≡ c +ℤ e → e ≡ pos 0 -ℤ d → a +ℤ (d +ℤ b) ≡ c
+ℤ_move a b c d e p q =
    eq_of_parts _ _ (
      omega (arith, +ℤ_parts, -ℤ_parts, ap pos_part p, ap neg_part p, ap pos_part q, ap neg_part q))

pub *ℤ-zero : (a : ℤ) → a *ℤ pos 0 ≡ pos 0
*ℤ-zero a = eq_of_parts _ _ (omega (arith, pos_part-*ℤ, neg_part-*ℤ))

pub +ℤ_interchange : (a b c d : ℤ) → (a +ℤ b) +ℤ (c +ℤ d) ≡ (a +ℤ c) +ℤ (b +ℤ d)
+ℤ_interchange a b c d = omega int_laws

pub -ℤ_interchange : (a b c d s : ℤ) → s +ℤ b ≡ a → s +ℤ (c -ℤ d) ≡ (a +ℤ c) -ℤ (b +ℤ d)
-ℤ_interchange a b c d s p =
    eq_of_parts _ _ (omega (arith, +ℤ_parts, -ℤ_parts, ap pos_part p, ap neg_part p))

pub +ℤ-neg_ℤ : (a b : ℤ) → a +ℤ neg_ℤ b ≡ a -ℤ b
+ℤ-neg_ℤ a b = eq_of_parts _ _ (omega (arith, +ℤ_parts, -ℤ_parts, neg_ℤ_parts))

pub +ℤ--ℤ : (a b c : ℤ) → a +ℤ (b -ℤ c) ≡ (a +ℤ b) -ℤ c
+ℤ--ℤ a b c = omega int_laws

pub +ℤ_right_comm : (a b c : ℤ) → (a +ℤ b) +ℤ c ≡ (a +ℤ c) +ℤ b
+ℤ_right_comm a b c = omega int_laws

pub minus_one-*ℤ : (a : ℤ) → negsuc 0 *ℤ a ≡ pos 0 -ℤ a
minus_one-*ℤ a = eq_of_parts _ _ (omega (arith, -ℤ_parts, pos_part-*ℤ, neg_part-*ℤ))

pub -ℤ_right_comm : (a b c : ℤ) → (a +ℤ (pos 0 -ℤ b)) +ℤ c ≡ (a +ℤ c) -ℤ b
-ℤ_right_comm a b c = omega int_laws

pub zero--ℤ_add : (a b : ℤ) → (pos 0 -ℤ a) +ℤ b ≡ b -ℤ a
zero--ℤ_add a b = omega int_laws
