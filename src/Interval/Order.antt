-- ===== src/Interval/Order.antt =====
-- `operator<=` of src/crab/interval.hpp is inclusion of sets of integers.
use mathlib.Core.Bool.{and-eq-true_iff}
use ebpf_verifier.Base.{◌+◌, ◌≡◌, ◌↔◌, true, false, arith, refl, ◌&&◌, not}
use ebpf_verifier.Base.Int.{ℤ, pos, negsuc, pos_part, neg_part, ◌≤ℤ◌}
use ebpf_verifier.Bound
use ebpf_verifier.Bound.{Bound, finite, plus_infinity, minus_infinity}
use ebpf_verifier.Bound.Order.{IsWf, Le, le_trans, le-finite_iff}
use ebpf_verifier.Interval.{Interval, is_bottom, le}
use ebpf_verifier.Interval.Valid.{
  IsLower, IsUpper, IsValid, lower-IsWf, upper-IsWf, Contains, bottom_empty, split_bottoms,
}

abbrev pub Includes : Interval → Interval → Type 0
Includes x i = (z : ℤ) → Contains i z → Contains x z

-- If every integer from `l` on (up to `w`) is at least `m`, then `m` is at most `l`.
lower_limit :
    {l m : Bound} (w : ℤ)
    → IsLower l
    → IsLower m
    → Le l (finite w)
    → ((z : ℤ) → Le l (finite z) → z ≤ℤ w → Le m (finite z))
    → Le m l
unfolding Bound.le
lower_limit w (IsLower.number a) m p h = h a (ground arith) (ground arith)
lower_limit w IsLower.infinity IsLower.infinity p h = refl
lower_limit w IsLower.infinity (IsLower.number b) p h =
    absurd (ground (arith, h (negsuc (neg_part b + neg_part w)) refl (omega arith)))

upper_limit :
    {u v : Bound} (w : ℤ)
    → IsUpper u
    → IsUpper v
    → Le (finite w) u
    → ((z : ℤ) → Le (finite z) u → w ≤ℤ z → Le (finite z) v)
    → Le u v
unfolding Bound.le
upper_limit w (IsUpper.number a) v p h = h a (ground arith) (ground arith)
upper_limit w IsUpper.infinity IsUpper.infinity p h = refl
upper_limit w IsUpper.infinity (IsUpper.number b) p h =
    absurd (ground (arith, h (pos (pos_part b + pos_part w + 1)) refl (omega arith)))

-- A valid interval that is not bottom holds an integer.
pub inhabited : (i : Interval) → IsValid i → is_bottom i ≡ false → (w : ℤ) × Contains i w
unfolding is_bottom Bound.gt Bound.le
inhabited i v e = go v.lower v.upper e
  where
    go :
        {l u : Bound}
        → IsLower l
        → IsUpper u
        → not (Bound.le l u) ≡ false
        → (w : ℤ) × (Le l (finite w) × Le (finite w) u)
    go (IsLower.number a) (IsUpper.number b) e = (a, (ground arith, ground arith))
    go (IsLower.number a) IsUpper.infinity e = (a, (ground arith, refl))
    go IsLower.infinity (IsUpper.number b) e = (b, (refl, ground arith))
    go IsLower.infinity IsUpper.infinity e = (pos 0, (refl, refl))

module _ (i x : Interval) (vi : IsValid i) (vx : IsValid x) where
  le-Includes : le i x ≡ true → Includes x i
  unfolding le
  le-Includes e z h =
      split_bottoms (λ r. r ≡ true → Contains x z) (is_bottom i) (is_bottom x)
        (λ b _. absurd (bottom_empty i z vi b h)) (λ _ _ q. cc) (λ _ _. inside) e
    where
      z_wf : IsWf (finite z)
      z_wf = IsWf.number z

      inside : (Bound.le x.lb i.lb && Bound.le i.ub x.ub) ≡ true → Contains x z
      inside q =
          let (l, u) = (and-eq-true_iff _ _).0 q in
          (
            le_trans (lower-IsWf vx.lower) (lower-IsWf vi.lower) z_wf l h.0,
            le_trans z_wf (upper-IsWf vi.upper) (upper-IsWf vx.upper) h.1 u,
          )

  Includes-le : Includes x i → le i x ≡ true
  unfolding le
  Includes-le h =
      split_bottoms (λ r. r ≡ true) (is_bottom i) (is_bottom x) (λ _. refl) (λ e b. empty e b)
        (λ e _. (and-eq-true_iff _ _).1 (limits (inhabited i vi e)))
    where
      empty : is_bottom i ≡ false → is_bottom x ≡ true → false ≡ true
      empty e b = let (w, c) = inhabited i vi e in absurd (bottom_empty x w vx b (h w c))

      limits : (w : ℤ) × Contains i w → (Bound.le x.lb i.lb ≡ true) × (Bound.le i.ub x.ub ≡ true)
      limits (w, (p, q)) = (
        lower_limit w vi.lower vx.lower p (λ z a b.
            (h z (
              a,
              le_trans (IsWf.number z) (IsWf.number w) (upper-IsWf vi.upper)
                  ((le-finite_iff z w).1 b) q,
            )).0),
        upper_limit w vi.upper vx.upper q (λ z a b.
            (h z (
              le_trans (lower-IsWf vi.lower) (IsWf.number w) (IsWf.number z) p
                  ((le-finite_iff w z).1 b),
              a,
            )).1),
      )

  -- On valid intervals `operator<=` holds exactly when every integer of the first interval is in
  -- the second.
  pub le_iff : (le i x ≡ true) ↔ Includes x i
  le_iff = (le-Includes, Includes-le)
