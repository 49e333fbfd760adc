-- ===== src/Interval/Lattice.antt =====
-- The join and the meet of src/crab/interval.hpp against the sets of integers that
-- intervals stand for.
use ebpf_verifier.Base.{◌↔◌, ◌⊎◌, inl, inr}
use ebpf_verifier.Base.Int.{ℤ}
use ebpf_verifier.Bound
use ebpf_verifier.Bound.{Bound, finite, plus_infinity, minus_infinity}
use ebpf_verifier.Bound.Order.{
  IsWf, Le, le_trans, min-IsWf, max-IsWf, min-le_left, min-le_right, le-max_left, le-max_right,
  le-min, max-le, min-le, le-max,
}
use ebpf_verifier.Interval.{Interval, is_bottom, join, meet}
use ebpf_verifier.Interval.Valid.{
  IsLower, IsUpper, IsValid, lower-IsWf, upper-IsWf, Contains, bottom_empty, nothing,
  Contains-interval_iff, if-IsLower, if-IsUpper, interval-IsValid, split_bottoms, bottom-IsValid,
}

module _ (i x : Interval) (vi : IsValid i) (vx : IsValid x) where
  lowest : IsLower (Bound.min i.lb x.lb)
  unfolding Bound.min
  lowest = if-IsLower _ vi.lower vx.lower

  highest : IsUpper (Bound.max i.ub x.ub)
  unfolding Bound.max
  highest = if-IsUpper _ vx.upper vi.upper

  pub join-IsValid : IsValid (join i x)
  unfolding join
  join-IsValid =
      split_bottoms IsValid (is_bottom i) (is_bottom x) (λ _. vx) (λ _ _. vi)
        (λ _ _. interval-IsValid _ _ lowest highest)

  -- The join of two valid intervals holds every integer of either of them.
  pub Contains-join : (z : ℤ) → Contains i z ⊎ Contains x z → Contains (join i x) z
  unfolding join
  Contains-join z h =
      split_bottoms (λ r. Contains r z) (is_bottom i) (is_bottom x)
        (λ e. from_right h (bottom_empty i z vi e)) (λ _ e. from_left h (bottom_empty x z vx e))
        (λ _ _. (Contains-interval_iff _ _ z lowest highest).1 (both h))
    where
      wi : IsWf i.lb × IsWf i.ub
      wi = (lower-IsWf vi.lower, upper-IsWf vi.upper)

      wx : IsWf x.lb × IsWf x.ub
      wx = (lower-IsWf vx.lower, upper-IsWf vx.upper)

      from_right : Contains i z ⊎ Contains x z → ¬ Contains i z → Contains x z
      from_right (inl p) n = absurd (n p)
      from_right (inr q) n = q

      from_left : Contains i z ⊎ Contains x z → ¬ Contains x z → Contains i z
      from_left (inl p) n = p
      from_left (inr q) n = absurd (n q)

      both :
          Contains i z ⊎ Contains x z
          → Le (Bound.min i.lb x.lb) (finite z) × Le (finite z) (Bound.max i.ub x.ub)
      both (inl p) =
          (min-le (inl p.0) wi.0 wx.0 (IsWf.number z), le-max (inl p.1) wi.1 wx.1 (IsWf.number z))
      both (inr p) =
          (min-le (inr p.0) wi.0 wx.0 (IsWf.number z), le-max (inr p.1) wi.1 wx.1 (IsWf.number z))

  inner_lower : IsLower (Bound.max i.lb x.lb)
  unfolding Bound.max
  inner_lower = if-IsLower _ vx.lower vi.lower

  inner_upper : IsUpper (Bound.min i.ub x.ub)
  unfolding Bound.min
  inner_upper = if-IsUpper _ vi.upper vx.upper

  pub meet-IsValid : IsValid (meet i x)
  unfolding meet
  meet-IsValid =
      split_bottoms IsValid (is_bottom i) (is_bottom x) (λ _. bottom-IsValid)
        (λ _ _. bottom-IsValid) (λ _ _. interval-IsValid _ _ inner_lower inner_upper)

  -- The meet of two valid intervals holds exactly the integers that both of them hold.
  pub Contains-meet_iff : (z : ℤ) → Contains (meet i x) z ↔ (Contains i z × Contains x z)
  unfolding meet
  Contains-meet_iff z =
      split_bottoms (λ r. Contains r z ↔ (Contains i z × Contains x z)) (is_bottom i) (is_bottom x)
        (λ e. (λ h. absurd (nothing z h), λ h. absurd (bottom_empty i z vi e h.0)))
        (λ _ e. (λ h. absurd (nothing z h), λ h. absurd (bottom_empty x z vx e h.1)))
        (λ _ _. (
          λ h. apart ((Contains-interval_iff _ _ z inner_lower inner_upper).0 h),
          λ h.
              (Contains-interval_iff _ _ z inner_lower inner_upper).1
                (max-le i.lb x.lb (finite z) h.0.0 h.1.0, le-min i.ub x.ub (finite z) h.0.1 h.1.1),
        ))
    where
      li : IsWf i.lb
      li = lower-IsWf vi.lower

      lx : IsWf x.lb
      lx = lower-IsWf vx.lower

      ui : IsWf i.ub
      ui = upper-IsWf vi.upper

      ux : IsWf x.ub
      ux = upper-IsWf vx.upper

      apart :
          Le (Bound.max i.lb x.lb) (finite z) × Le (finite z) (Bound.min i.ub x.ub)
          → Contains i z × Contains x z
      apart (l, u) = (
        (
          le_trans li (max-IsWf li lx) (IsWf.number z) (le-max_left li lx) l,
          le_trans (IsWf.number z) (min-IsWf ui ux) ui u (min-le_left ui ux),
        ),
        (
          le_trans lx (max-IsWf li lx) (IsWf.number z) (le-max_right li lx) l,
          le_trans (IsWf.number z) (min-IsWf ui ux) ux u (min-le_right ui ux),
        ),
      )
