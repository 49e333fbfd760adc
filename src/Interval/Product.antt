-- ===== src/Interval/Product.antt =====
-- The product of intervals of src/crab/interval.hpp.
use ebpf_verifier.Base.{◌≡◌, false}
use ebpf_verifier.Base.Int.{ℤ, ◌*ℤ◌}
use ebpf_verifier.Bound
use ebpf_verifier.Bound.{Bound, finite, plus_infinity, minus_infinity}
use ebpf_verifier.Bound.Order.{
  IsWf, number, top, bottom as lowest, Le, le_trans, min-IsWf, max-IsWf, min-le_left, min-le_right,
  le-max_left, le-max_right, le-min, max-le,
}
use ebpf_verifier.Bound.Arith.{mul-IsWf, mul-number, mul_between, mul_comm}
use ebpf_verifier.Interval.{Interval, is_bottom, interval, mul, hull4}
use ebpf_verifier.Interval.Valid.{
  IsLower, IsUpper, IsValid, lower-IsWf, upper-IsWf, Contains, Contains-interval_iff,
  interval-IsValid, split_bottoms,
}
use ebpf_verifier.Interval.Order.{inhabited}
use ebpf_verifier.Interval.Arith.{Sound, bottom-Sound_left, bottom-Sound_right}

-- A bound below an integer is a lower bound, one above an integer an upper bound.
lower_of : {l : Bound} (z : ℤ) → IsWf l → Le l (finite z) → IsLower l
unfolding Bound.le
lower_of z (number n) p = IsLower.number n
lower_of z top p = absurd (cc)
lower_of z lowest p = IsLower.infinity

upper_of : {u : Bound} (z : ℤ) → IsWf u → Le (finite z) u → IsUpper u
unfolding Bound.le
upper_of z (number n) p = IsUpper.number n
upper_of z top p = IsUpper.infinity
upper_of z lowest p = absurd (cc)

module _ {x y z t : Bound} (hx : IsWf x) (hy : IsWf y) (hz : IsWf z) (ht : IsWf t) where
  rest_min : IsWf (Bound.min t (Bound.min y z))
  rest_min = min-IsWf ht (min-IsWf hy hz)

  rest_max : IsWf (Bound.max t (Bound.max y z))
  rest_max = max-IsWf ht (max-IsWf hy hz)

  min4-IsWf : IsWf (Bound.min4 x y z t)
  unfolding Bound.min4
  min4-IsWf = min-IsWf hx rest_min

  max4-IsWf : IsWf (Bound.max4 x y z t)
  unfolding Bound.max4
  max4-IsWf = max-IsWf hx rest_max

  -- The minimum of four bounds is below both minima of two, and the maximum above both maxima.
  min4-le : Le (Bound.min4 x y z t) (Bound.min x y) × Le (Bound.min4 x y z t) (Bound.min z t)
  unfolding Bound.min4
  min4-le =
      let to_rest = min-le_right hx rest_min in
      let to_inner =
        le_trans min4-IsWf rest_min (min-IsWf hy hz) to_rest (min-le_right ht (min-IsWf hy hz)) in
      (
        le-min x y _ (min-le_left hx rest_min)
            (le_trans min4-IsWf (min-IsWf hy hz) hy to_inner (min-le_left hy hz)),
        le-min z t _ (le_trans min4-IsWf (min-IsWf hy hz) hz to_inner (min-le_right hy hz))
            (le_trans min4-IsWf rest_min ht to_rest (min-le_left ht (min-IsWf hy hz))),
      )

  le-max4 : Le (Bound.max x y) (Bound.max4 x y z t) × Le (Bound.max z t) (Bound.max4 x y z t)
  unfolding Bound.max4
  le-max4 =
      let from_rest = le-max_right hx rest_max in
      let from_inner =
        le_trans (max-IsWf hy hz) rest_max max4-IsWf (le-max_right ht (max-IsWf hy hz)) from_rest in
      (
        max-le x y _ (le-max_left hx rest_max)
            (le_trans hy (max-IsWf hy hz) max4-IsWf (le-max_left hy hz) from_inner),
        max-le z t _ (le_trans hz (max-IsWf hy hz) max4-IsWf (le-max_right hy hz) from_inner)
            (le_trans ht rest_max max4-IsWf (le-max_left ht (max-IsWf hy hz)) from_rest),
      )

module _ (i x : Interval) (vi : IsValid i) (vx : IsValid x) where
  open i use {lb as l, ub as u}
  open x use {lb as l', ub as u'}

  wl : IsWf l
  wl = lower-IsWf vi.lower

  wu : IsWf u
  wu = upper-IsWf vi.upper

  wl' : IsWf l'
  wl' = lower-IsWf vx.lower

  wu' : IsWf u'
  wu' = upper-IsWf vx.upper

  least : Bound
  least = Bound.min4 (Bound.mul l l') (Bound.mul l u') (Bound.mul u l') (Bound.mul u u')

  greatest : Bound
  greatest = Bound.max4 (Bound.mul l l') (Bound.mul l u') (Bound.mul u l') (Bound.mul u u')

  corners :
      IsWf (Bound.mul l l') × IsWf (Bound.mul l u') × IsWf (Bound.mul u l') × IsWf (Bound.mul u u')
  corners = (mul-IsWf wl wl', mul-IsWf wl wu', mul-IsWf wu wl', mul-IsWf wu wu')

  least-IsWf : IsWf least
  unfolding least
  least-IsWf = min4-IsWf corners.0 corners.1 corners.2 corners.3

  greatest-IsWf : IsWf greatest
  unfolding greatest
  greatest-IsWf = max4-IsWf corners.0 corners.1 corners.2 corners.3

  module _ (a b : ℤ) (p : Contains i a) (q : Contains x b) where
    wb : IsWf (finite b)
    wb = number b

    lb-IsWf : IsWf (Bound.mul l (finite b))
    lb-IsWf = mul-IsWf wl wb

    ub-IsWf : IsWf (Bound.mul u (finite b))
    ub-IsWf = mul-IsWf wu wb

    -- Along the first factor, and along the second from either end of the first.
    row :
        Le (Bound.min (Bound.mul l (finite b)) (Bound.mul u (finite b))) (finite (a *ℤ b))
        × Le (finite (a *ℤ b)) (Bound.max (Bound.mul l (finite b)) (Bound.mul u (finite b)))
    row =
        rw (mul_comm wl wb, mul_comm wu wb, ← mul-number a b, mul_comm (number a) wb)
          (mul_between wb wl (number a) wu p.0 p.1)

    least-le : Le least (Bound.mul l (finite b)) × Le least (Bound.mul u (finite b))
    unfolding least
    least-le =
        let below = min4-le corners.0 corners.1 corners.2 corners.3 in
        (
          le_trans least-IsWf (min-IsWf corners.0 corners.1) lb-IsWf below.0
              (mul_between wl wl' wb wu' q.0 q.1).0,
          le_trans least-IsWf (min-IsWf corners.2 corners.3) ub-IsWf below.1
              (mul_between wu wl' wb wu' q.0 q.1).0,
        )

    le-greatest : Le (Bound.mul l (finite b)) greatest × Le (Bound.mul u (finite b)) greatest
    unfolding greatest
    le-greatest =
        let above = le-max4 corners.0 corners.1 corners.2 corners.3 in
        (
          le_trans lb-IsWf (max-IsWf corners.0 corners.1) greatest-IsWf
              (mul_between wl wl' wb wu' q.0 q.1).1 above.0,
          le_trans ub-IsWf (max-IsWf corners.2 corners.3) greatest-IsWf
              (mul_between wu wl' wb wu' q.0 q.1).1 above.1,
        )

    -- The product of two members lies between the least and the greatest product of bounds.
    product_between : Le least (finite (a *ℤ b)) × Le (finite (a *ℤ b)) greatest
    product_between = (
      le_trans least-IsWf (min-IsWf lb-IsWf ub-IsWf) (number (a *ℤ b))
          (le-min _ _ _ least-le.0 least-le.1) row.0,
      le_trans (number (a *ℤ b)) (max-IsWf lb-IsWf ub-IsWf) greatest-IsWf row.1
          (max-le _ _ _ le-greatest.0 le-greatest.1),
    )

  hull-Sound : is_bottom i ≡ false → is_bottom x ≡ false → Sound i x ◌*ℤ◌ (interval least greatest)
  hull-Sound e f =
      let (a, p) = inhabited i vi e in
      let (b, q) = inhabited x vx f in
      let (low, high) = product_between a b p q in
      let lower = lower_of (a *ℤ b) least-IsWf low in
      let upper = upper_of (a *ℤ b) greatest-IsWf high in
      record {
        valid = interval-IsValid least greatest lower upper;
        holds = λ a' b' p' q'.
            (Contains-interval_iff least greatest (a' *ℤ b') lower upper).1
              (product_between a' b' p' q');
      }

  -- The product of two valid intervals is valid, and holds every product of an integer of the one
  -- and an integer of the other.
  pub mul-Sound : Sound i x ◌*ℤ◌ (mul i x)
  unfolding mul hull4 least greatest
  mul-Sound =
      split_bottoms (Sound i x ◌*ℤ◌) (is_bottom i) (is_bottom x) (bottom-Sound_left i x _ vi)
        (λ _. bottom-Sound_right i x _ vx) hull-Sound
