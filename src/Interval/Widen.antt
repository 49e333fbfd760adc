-- ===== src/Interval/Widen.antt =====
-- The widening of src/crab/interval.hpp.
use ebpf_verifier.Base.{
  ℕ, ◌+◌, ◌<◌, ◌≤◌, ◌≡◌, ◌⊎◌, Bool, true, false, arith, refl, ap, inl, inr, if◌then◌else◌,
}
use ebpf_verifier.Base.Int.{ℤ}
use ebpf_verifier.Bound
use ebpf_verifier.Bound.{Bound, finite, plus_infinity, minus_infinity}
use ebpf_verifier.Bound.Order.{IsWf, Le, le_trans}
use ebpf_verifier.Interval.{Interval, is_bottom, interval, le, widen}
use ebpf_verifier.Interval.Valid.{
  IsLower, IsUpper, IsValid, lower-IsWf, upper-IsWf, Contains, bottom_empty, Contains-interval_iff,
  if-IsLower, if-IsUpper, interval-IsValid, split_bottoms,
}

-- How often an interval can still be widened: once for each finite bound, and once more if it is
-- bottom.
finite_weight : Bound → ℕ
finite_weight b = if b.is_infinite then 0 else 1

pub weight : Interval → ℕ
weight i = if is_bottom i then 3 else finite_weight i.lb + finite_weight i.ub

-- The bounds of the widened interval.
abbrev wide_lower : Bound → Bound → Bound
wide_lower l l' = if Bound.lt l' l then minus_infinity else l

abbrev wide_upper : Bound → Bound → Bound
wide_upper u u' = if Bound.lt u u' then plus_infinity else u

wide_lower-le :
    {l l' : Bound} → IsLower l → IsLower l' → Le (wide_lower l l') l × Le (wide_lower l l') l'
unfolding Bound.lt Bound.ge Bound.le
wide_lower-le (IsLower.number a) (IsLower.number b) = ground arith
wide_lower-le (IsLower.number a) IsLower.infinity = ground arith
wide_lower-le IsLower.infinity (IsLower.number b) = ground arith
wide_lower-le IsLower.infinity IsLower.infinity = ground arith

le-wide_upper :
    {u u' : Bound} → IsUpper u → IsUpper u' → Le u (wide_upper u u') × Le u' (wide_upper u u')
unfolding Bound.lt Bound.ge Bound.le
le-wide_upper (IsUpper.number a) (IsUpper.number b) = ground arith
le-wide_upper (IsUpper.number a) IsUpper.infinity = ground arith
le-wide_upper IsUpper.infinity (IsUpper.number b) = ground arith
le-wide_upper IsUpper.infinity IsUpper.infinity = ground arith

module _ (i x : Interval) (vi : IsValid i) (vx : IsValid x) where
  wide_low : IsLower (wide_lower i.lb x.lb)
  wide_low = if-IsLower _ IsLower.infinity vi.lower

  wide_high : IsUpper (wide_upper i.ub x.ub)
  wide_high = if-IsUpper _ IsUpper.infinity vi.upper

  pub widen-IsValid : IsValid (widen i x)
  unfolding widen
  widen-IsValid =
      split_bottoms IsValid (is_bottom i) (is_bottom x) (λ _. vx) (λ _ _. vi)
        (λ _ _. interval-IsValid _ _ wide_low wide_high)

  -- The widening of a valid interval by a valid interval holds every integer of either of them.
  pub Contains-widen : (z : ℤ) → Contains i z ⊎ Contains x z → Contains (widen i x) z
  unfolding widen
  Contains-widen z h =
      split_bottoms (λ r. Contains r z) (is_bottom i) (is_bottom x)
        (λ e. ground (arith, bottom_empty i z vi e)) (λ _ e. ground (arith, bottom_empty x z vx e))
        (λ _ _. (Contains-interval_iff _ _ z wide_low wide_high).1 (both h))
    where
      z_wf : IsWf (finite z)
      z_wf = IsWf.number z

      low : IsWf (wide_lower i.lb x.lb)
      low = lower-IsWf wide_low

      high : IsWf (wide_upper i.ub x.ub)
      high = upper-IsWf wide_high

      both :
          Contains i z ⊎ Contains x z
          → Le (wide_lower i.lb x.lb) (finite z) × Le (finite z) (wide_upper i.ub x.ub)
      both (inl p) = (
        le_trans low (lower-IsWf vi.lower) z_wf (wide_lower-le vi.lower vx.lower).0 p.0,
        le_trans z_wf (upper-IsWf vi.upper) high p.1 (le-wide_upper vi.upper vx.upper).0,
      )
      both (inr p) = (
        le_trans low (lower-IsWf vx.lower) z_wf (wide_lower-le vi.lower vx.lower).1 p.0,
        le_trans z_wf (upper-IsWf vx.upper) high p.1 (le-wide_upper vi.upper vx.upper).1,
      )

lower_progress :
    {l l' : Bound}
    → IsLower l
    → IsLower l'
    → (Le l l' × (wide_lower l l' ≡ l))
      ⊎ ((wide_lower l l' ≡ minus_infinity) × (finite_weight l ≡ 1))
unfolding Bound.lt Bound.ge Bound.le finite_weight
lower_progress (IsLower.number a) (IsLower.number b) = ground arith
lower_progress (IsLower.number a) IsLower.infinity = ground arith
lower_progress IsLower.infinity (IsLower.number b) = ground arith
lower_progress IsLower.infinity IsLower.infinity = ground arith

upper_progress :
    {u u' : Bound}
    → IsUpper u
    → IsUpper u'
    → (Le u' u × (wide_upper u u' ≡ u))
      ⊎ ((wide_upper u u' ≡ plus_infinity) × (finite_weight u ≡ 1))
unfolding Bound.lt Bound.ge Bound.le finite_weight
upper_progress (IsUpper.number a) (IsUpper.number b) = ground arith
upper_progress (IsUpper.number a) IsUpper.infinity = ground arith
upper_progress IsUpper.infinity (IsUpper.number b) = ground arith
upper_progress IsUpper.infinity IsUpper.infinity = ground arith

weight-interval : (l u : Bound) → Le l u → weight (interval l u) ≡ finite_weight l + finite_weight u
unfolding weight interval is_bottom Bound.gt
weight-interval l u h = rw (h, weight) (rw h)

-- Where a bound moves, the weight of the interval between the new bounds is smaller.
module _ (l u l' u' : Bound) (hl : IsLower l) (hu : IsUpper u) (hl' : IsLower l')
    (hu' : IsUpper u') where
  box_progress :
      Le l u
      → (Le l l' × Le u' u)
        ⊎ (weight (interval (wide_lower l l') (wide_upper u u'))
            < finite_weight l + finite_weight u)
  unfolding finite_weight
  box_progress h = go (lower_progress hl hl') (upper_progress hu hu')
    where
      wl : IsWf (wide_lower l l')
      wl = lower-IsWf (if-IsLower _ IsLower.infinity hl)

      wu : IsWf (wide_upper u u')
      wu = upper-IsWf (if-IsUpper _ IsUpper.infinity hu)

      ordered : Le (wide_lower l l') (wide_upper u u')
      ordered =
          le_trans wl (upper-IsWf hu) wu
            (le_trans wl (lower-IsWf hl) (upper-IsWf hu) (wide_lower-le hl hl').0 h)
            (le-wide_upper hu hu').0

      total :
          weight (interval (wide_lower l l') (wide_upper u u'))
          ≡ finite_weight (wide_lower l l') + finite_weight (wide_upper u u')
      total = weight-interval _ _ ordered

      go :
          (Le l l' × (wide_lower l l' ≡ l))
            ⊎ ((wide_lower l l' ≡ minus_infinity) × (finite_weight l ≡ 1))
          → (Le u' u × (wide_upper u u' ≡ u))
            ⊎ ((wide_upper u u' ≡ plus_infinity) × (finite_weight u ≡ 1))
          → (Le l l' × Le u' u)
            ⊎ (weight (interval (wide_lower l l') (wide_upper u u'))
                < finite_weight l + finite_weight u)
      go (inl (p, e)) (inl (q, f)) = inl (p, q)
      go (inl (p, e)) (inr (f, w)) =
          inr (omega (arith, total, ap finite_weight e, ap finite_weight f))
      go (inr (e, w)) (inl (q, f)) =
          inr (omega (arith, total, ap finite_weight e, ap finite_weight f))
      go (inr (e, w)) (inr (f, w')) =
          inr (omega (arith, total, ap finite_weight e, ap finite_weight f))

ordered : (i : Interval) → is_bottom i ≡ false → Le i.lb i.ub
unfolding is_bottom Bound.gt
ordered i e = ground arith

weight_bottom : (i : Interval) → is_bottom i ≡ true → weight i ≡ 3
unfolding weight
weight_bottom i e = rw e

weight_box :
    (i : Interval) → is_bottom i ≡ false → weight i ≡ finite_weight i.lb + finite_weight i.ub
unfolding weight
weight_box i e = rw e

finite_weight-le : (b : Bound) → finite_weight b ≤ 1
unfolding finite_weight
finite_weight-le b = ground arith

-- Widening a valid interval by a valid interval makes progress: either the other interval is
-- already included, so that the test of the fixpoint passes, or the widened interval has a smaller
-- weight, a number from 0 to 3.
pub widen_progress :
    (i x : Interval) → IsValid i → IsValid x → (le x i ≡ true) ⊎ (weight (widen i x) < weight i)
unfolding widen le
widen_progress i x vi vx =
    split_bottoms (λ r. (le x i ≡ true) ⊎ (weight r < weight i)) (is_bottom i) (is_bottom x)
      (λ e. from_bottom e (is_bottom x) refl) (λ e f. inl (rw f))
      (λ e f.
        moved e f
          (box_progress i.lb i.ub x.lb x.ub vi.lower vi.upper vx.lower vx.upper (ordered i e)))
  where
    from_bottom :
        is_bottom i ≡ true → (b : Bool) → is_bottom x ≡ b → (le x i ≡ true) ⊎ (weight x < weight i)
    from_bottom e true f = inl (rw f)
    from_bottom e false f = inr (
        omega
          (arith, weight_bottom i e, weight_box x f, finite_weight-le x.lb, finite_weight-le x.ub))

    moved :
        is_bottom i ≡ false
        → is_bottom x ≡ false
        → (Le i.lb x.lb × Le x.ub i.ub)
          ⊎ (weight (interval (wide_lower i.lb x.lb) (wide_upper i.ub x.ub))
              < finite_weight i.lb + finite_weight i.ub)
        → (le x i ≡ true)
          ⊎ (weight (interval (wide_lower i.lb x.lb) (wide_upper i.ub x.ub)) < weight i)
    moved e f (inl (p, q)) = inl (rw (f, e, p, q))
    moved e f (inr w) = inr (rw (weight_box i e) w)
