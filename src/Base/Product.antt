-- ===== src/Base/Product.antt =====
-- The order of products of integers, and of quotients that are rounded towards zero.
use native.Mathlib.Nat.{mul-le-mul_left}
use ebpf_verifier.Base.{ℕ, suc, ◌*◌, ◌≡◌, ap, arith}
use ebpf_verifier.Base.Int.{
  ℤ, pos, negsuc, ◌*ℤ◌, ◌≤ℤ◌, pos_part, neg_part, pos_part-*ℤ, neg_part-*ℤ, eq_of_parts,
}

-- A factor that is not negative keeps the order.
pub *ℤ_mono : (a b c : ℤ) → pos 0 ≤ℤ a → b ≤ℤ c → a *ℤ b ≤ℤ a *ℤ c
*ℤ_mono (pos m) b c h p = simp (pos_part-*ℤ, neg_part-*ℤ) (omega (arith, mul-le-mul_left m p))
*ℤ_mono (negsuc m) b c h p = absurd (omega arith)

-- A factor that is not positive turns it round.
pub *ℤ_anti : (a b c : ℤ) → a ≤ℤ pos 0 → b ≤ℤ c → a *ℤ c ≤ℤ a *ℤ b
*ℤ_anti (pos m) b c h p =
    simp (pos_part-*ℤ, neg_part-*ℤ)
      (omega (
        arith,
        ap (λ (t : ℕ). t * pos_part b) (zero_of m h),
        ap (λ (t : ℕ). t * pos_part c) (zero_of m h),
        ap (λ (t : ℕ). t * neg_part b) (zero_of m h),
        ap (λ (t : ℕ). t * neg_part c) (zero_of m h),
      ))
  where
    zero_of : (m : ℕ) → pos m ≤ℤ pos 0 → m ≡ 0
    zero_of m h = omega arith
*ℤ_anti (negsuc m) b c h p =
    simp (pos_part-*ℤ, neg_part-*ℤ) (omega (arith, mul-le-mul_left (suc m) p))

pub *ℤ_comm : (a b : ℤ) → a *ℤ b ≡ b *ℤ a
*ℤ_comm a b = eq_of_parts _ _ (simp (pos_part-*ℤ, neg_part-*ℤ) (omega arith))
