-- ===== src/Interval/Arith.antt =====
-- Sums, differences and negation of src/crab/interval.hpp.
use ebpf_verifier.Base.{◌≡◌, Bool, true, false, arith, refl, if◌then◌else◌}
use ebpf_verifier.Base.Int.{ℤ, neg_ℤ, ◌+ℤ◌, ◌-ℤ◌, +ℤ_parts, -ℤ_parts, neg_ℤ_parts, eq_of_parts}
use ebpf_verifier.Outcome.{ok}
use ebpf_verifier.Bound
use ebpf_verifier.Bound.{Bound, finite, plus_infinity, minus_infinity}
use ebpf_verifier.Bound.Order.{Le}
use ebpf_verifier.Interval.{Interval, bottom, is_bottom, interval, add, neg, sub}
use ebpf_verifier.Interval.Valid.{
  IsLower, IsUpper, IsValid, Contains, bottom_empty, Contains-interval_iff, interval-IsValid,
  split_bottoms, bottom-IsValid,
}

-- The sum of two lower bounds, and of two upper bounds.
record LowerSum (l l' c : Bound) : Type 0 where
  computed : Bound.add l l' ≡ ok c
  lower : IsLower c
  below : (a b : ℤ) → Le l (finite a) → Le l' (finite b) → Le c (finite (a +ℤ b))

lower_sum : {l l' : Bound} → IsLower l → IsLower l' → (c : Bound) × LowerSum l l' c
unfolding Bound.add Bound.le
lower_sum (IsLower.number m) (IsLower.number n) = (
  _,
  record {
    computed = refl;
    lower = IsLower.number _;
    below = λ a b p q. ground (arith, +ℤ_parts m n, +ℤ_parts a b);
  },
)
lower_sum (IsLower.number m) IsLower.infinity =
    (_, record { computed = refl; lower = IsLower.infinity; below = λ a b p q. refl })
lower_sum IsLower.infinity (IsLower.number n) =
    (_, record { computed = refl; lower = IsLower.infinity; below = λ a b p q. refl })
lower_sum IsLower.infinity IsLower.infinity =
    (_, record { computed = refl; lower = IsLower.infinity; below = λ a b p q. refl })

record UpperSum (u u' c : Bound) : Type 0 where
  computed : Bound.add u u' ≡ ok c
  upper : IsUpper c
  above : (a b : ℤ) → Le (finite a) u → Le (finite b) u' → Le (finite (a +ℤ b)) c

upper_sum : {u u' : Bound} → IsUpper u → IsUpper u' → (c : Bound) × UpperSum u u' c
unfolding Bound.add Bound.le
upper_sum (IsUpper.number m) (IsUpper.number n) = (
  _,
  record {
    computed = refl;
    upper = IsUpper.number _;
    above = λ a b p q. ground (arith, +ℤ_parts m n, +ℤ_parts a b);
  },
)
upper_sum (IsUpper.number m) IsUpper.infinity =
    (_, record { computed = refl; upper = IsUpper.infinity; above = λ a b p q. refl })
upper_sum IsUpper.infinity (IsUpper.number n) =
    (_, record { computed = refl; upper = IsUpper.infinity; above = λ a b p q. refl })
upper_sum IsUpper.infinity IsUpper.infinity =
    (_, record { computed = refl; upper = IsUpper.infinity; above = λ a b p q. refl })

-- An operation on intervals succeeds with a valid interval that holds what `f` takes on integers
-- of the arguments.
pub record Sound (i x : Interval) (f : ℤ → ℤ → ℤ) (r : Interval) : Type 0 where
  pub valid : IsValid r
  pub holds : (a b : ℤ) → Contains i a → Contains x b → Contains r (f a b)

pub bottom-Sound_left :
    (i x : Interval) (f : ℤ → ℤ → ℤ) → IsValid i → is_bottom i ≡ true → Sound i x f bottom
bottom-Sound_left i x f v e = record {
  valid = bottom-IsValid;
  holds = λ a b p q. absurd (bottom_empty i a v e p);
}

pub bottom-Sound_right :
    (i x : Interval) (f : ℤ → ℤ → ℤ) → IsValid x → is_bottom x ≡ true → Sound i x f bottom
bottom-Sound_right i x f v e = record {
  valid = bottom-IsValid;
  holds = λ a b p q. absurd (bottom_empty x b v e q);
}

module _ (i x : Interval) (vi : IsValid i) (vx : IsValid x) where
  -- The sum of two valid intervals is defined, with no undefined sum of bounds, is valid, and holds
  -- every sum of an integer of the one and an integer of the other.
  pub add-Sound : (r : Interval) × (add i x ≡ ok r) × Sound i x ◌+ℤ◌ r
  unfolding add
  add-Sound =
      let (l, s) = lower_sum vi.lower vx.lower in
      let (u, t) = upper_sum vi.upper vx.upper in
      split_bottoms (λ m. (r : Interval) × (m ≡ ok r) × Sound i x ◌+ℤ◌ r) (is_bottom i)
        (is_bottom x) (λ e. (bottom, refl, bottom-Sound_left i x _ vi e))
        (λ _ e. (bottom, refl, bottom-Sound_right i x _ vx e))
        (λ _ _. (
          interval l u,
          rw (s.computed, t.computed),
          record {
            valid = interval-IsValid l u s.lower t.upper;
            holds = λ a b p q.
                (Contains-interval_iff l u (a +ℤ b) s.lower t.upper).1
                  (s.below a b p.0 q.0, t.above a b p.1 q.1);
          },
        ))

neg-IsLower : {u : Bound} → IsUpper u → IsLower (Bound.neg u)
unfolding Bound.neg Bound.bound
neg-IsLower (IsUpper.number n) = IsLower.number (neg_ℤ n)
neg-IsLower IsUpper.infinity = IsLower.infinity

neg-IsUpper : {l : Bound} → IsLower l → IsUpper (Bound.neg l)
unfolding Bound.neg Bound.bound
neg-IsUpper (IsLower.number n) = IsUpper.number (neg_ℤ n)
neg-IsUpper IsLower.infinity = IsUpper.infinity

neg_below : {u : Bound} (a : ℤ) → IsUpper u → Le (finite a) u → Le (Bound.neg u) (finite (neg_ℤ a))
unfolding Bound.neg Bound.bound Bound.le
neg_below a (IsUpper.number n) p = ground (arith, neg_ℤ_parts a, neg_ℤ_parts n)
neg_below a IsUpper.infinity p = refl

neg_above : {l : Bound} (a : ℤ) → IsLower l → Le l (finite a) → Le (finite (neg_ℤ a)) (Bound.neg l)
unfolding Bound.neg Bound.bound Bound.le
neg_above a (IsLower.number n) p = ground (arith, neg_ℤ_parts a, neg_ℤ_parts n)
neg_above a IsLower.infinity p = refl

-- The negation of a valid interval is valid, and holds the negation of each of its integers.
pub neg_sound :
    (i : Interval)
    → IsValid i
    → IsValid (neg i) × ((a : ℤ) → Contains i a → Contains (neg i) (neg_ℤ a))
unfolding neg
neg_sound i vi = go (is_bottom i) refl
  where
    low : IsLower (Bound.neg i.ub)
    low = neg-IsLower vi.upper

    high : IsUpper (Bound.neg i.lb)
    high = neg-IsUpper vi.lower

    go :
        (b : Bool)
        → is_bottom i ≡ b
        → IsValid (if b then bottom else interval (Bound.neg i.ub) (Bound.neg i.lb))
          × ((a : ℤ)
              → Contains i a
              → Contains
                  (if b then bottom else interval (Bound.neg i.ub) (Bound.neg i.lb))
                  (neg_ℤ a))
    go true e = (bottom-IsValid, λ a p. absurd (bottom_empty i a vi e p))
    go false e = (
      interval-IsValid _ _ low high,
      λ a p.
          (Contains-interval_iff _ _ (neg_ℤ a) low high).1
            (neg_below a vi.upper p.1, neg_above a vi.lower p.0),
    )

+ℤ-neg_ℤ : (a b : ℤ) → a +ℤ neg_ℤ b ≡ a -ℤ b
+ℤ-neg_ℤ a b = eq_of_parts _ _ (omega (arith, +ℤ_parts a (neg_ℤ b), -ℤ_parts a b, neg_ℤ_parts b))

module _ (i x : Interval) (vi : IsValid i) (vx : IsValid x) where
  -- The difference of two valid intervals is defined, is valid, and holds every difference of an
  -- integer of the one and an integer of the other.
  pub sub-Sound : (r : Interval) × (sub i x ≡ ok r) × Sound i x ◌-ℤ◌ r
  unfolding sub Bound.sub
  sub-Sound =
      let (l, s) = lower_sum vi.lower (neg-IsLower vx.upper) in
      let (u, t) = upper_sum vi.upper (neg-IsUpper vx.lower) in
      split_bottoms (λ m. (r : Interval) × (m ≡ ok r) × Sound i x ◌-ℤ◌ r) (is_bottom i)
        (is_bottom x) (λ e. (bottom, refl, bottom-Sound_left i x _ vi e))
        (λ _ e. (bottom, refl, bottom-Sound_right i x _ vx e))
        (λ _ _. (
          interval l u,
          rw (s.computed, t.computed),
          record {
            valid = interval-IsValid l u s.lower t.upper;
            holds = λ a b p q. (Contains-interval_iff l u (a -ℤ b) s.lower t.upper).1 (
              rw (← +ℤ-neg_ℤ a b) (s.below a (neg_ℤ b) p.0 (neg_below b vx.upper q.1)),
              rw (← +ℤ-neg_ℤ a b) (t.above a (neg_ℤ b) p.1 (neg_above b vx.lower q.0)),
            );
          },
        ))
