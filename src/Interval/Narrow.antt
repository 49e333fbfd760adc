-- ===== src/Interval/Narrow.antt =====
-- The narrowing of src/crab/interval.hpp.
use ebpf_verifier.Base.{◌↔◌, arith, refl, if◌then◌else◌, ◌&&◌, not}
use ebpf_verifier.Base.Int.{ℤ}
use ebpf_verifier.Bound
use ebpf_verifier.Bound.{Bound, finite, plus_infinity, minus_infinity}
use ebpf_verifier.Bound.Order.{IsWf, Le, le_trans}
use ebpf_verifier.Interval.{Interval, is_bottom, interval, narrow}
use ebpf_verifier.Interval.Valid.{
  IsLower, IsUpper, IsValid, lower-IsWf, upper-IsWf, Contains, bottom_empty, nothing,
  Contains-interval_iff, if-IsLower, if-IsUpper, interval-IsValid, split_bottoms, bottom-IsValid,
}

abbrev narrow_lower : Bound → Bound → Bound
narrow_lower l l' = if l.is_infinite && not l'.is_infinite then l' else l

abbrev narrow_upper : Bound → Bound → Bound
narrow_upper u u' = if u.is_infinite && not u'.is_infinite then u' else u

le-narrow_lower : {l : Bound} (l' : Bound) → IsLower l → IsLower l' → Le l (narrow_lower l l')
unfolding Bound.le
le-narrow_lower l' (IsLower.number a) h = ground arith
le-narrow_lower l' IsLower.infinity (IsLower.number b) = refl
le-narrow_lower l' IsLower.infinity IsLower.infinity = refl

narrow_upper-le : {u : Bound} (u' : Bound) → IsUpper u → IsUpper u' → Le (narrow_upper u u') u
unfolding Bound.le
narrow_upper-le u' (IsUpper.number a) h = ground arith
narrow_upper-le u' IsUpper.infinity (IsUpper.number b) = refl
narrow_upper-le u' IsUpper.infinity IsUpper.infinity = refl

module _ (i x : Interval) (vi : IsValid i) (vx : IsValid x) where
  near_low : IsLower (narrow_lower i.lb x.lb)
  near_low = if-IsLower _ vx.lower vi.lower

  near_high : IsUpper (narrow_upper i.ub x.ub)
  near_high = if-IsUpper _ vx.upper vi.upper

  pub narrow-IsValid : IsValid (narrow i x)
  unfolding narrow
  narrow-IsValid =
      split_bottoms IsValid (is_bottom i) (is_bottom x) (λ _. bottom-IsValid)
        (λ _ _. bottom-IsValid) (λ _ _. interval-IsValid _ _ near_low near_high)

  -- The narrowing of a valid interval by a valid interval holds only integers of the first, and
  -- every integer that both of them hold.
  pub narrow_between :
      (z : ℤ)
      → (Contains (narrow i x) z → Contains i z)
        × (Contains i z → Contains x z → Contains (narrow i x) z)
  unfolding narrow
  narrow_between z =
      split_bottoms
        (λ r. (Contains r z → Contains i z) × (Contains i z → Contains x z → Contains r z))
        (is_bottom i) (is_bottom x)
        (λ e. (λ h. absurd (nothing z h), λ h _. absurd (bottom_empty i z vi e h)))
        (λ e f. (λ h. absurd (nothing z h), λ _ h. absurd (bottom_empty x z vx f h)))
        (λ e f. (λ h. within (box.0 h), λ p q. box.1 (ground arith, ground arith)))
    where
      box :
          Contains (interval (narrow_lower i.lb x.lb) (narrow_upper i.ub x.ub)) z
          ↔ (Le (narrow_lower i.lb x.lb) (finite z) × Le (finite z) (narrow_upper i.ub x.ub))
      box = Contains-interval_iff _ _ z near_low near_high

      within :
          Le (narrow_lower i.lb x.lb) (finite z) × Le (finite z) (narrow_upper i.ub x.ub)
          → Contains i z
      within (l, u) = (
        le_trans (lower-IsWf vi.lower) (lower-IsWf near_low) (IsWf.number z)
            (le-narrow_lower x.lb vi.lower vx.lower) l,
        le_trans (IsWf.number z) (upper-IsWf near_high) (upper-IsWf vi.upper) u
            (narrow_upper-le x.ub vi.upper vx.upper),
      )
