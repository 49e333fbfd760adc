-- ===== src/Interval/Remainder.antt =====
-- The remainders `SRem` and `URem` of src/crab/interval.cpp.
use native.Mathlib.Nat.{mod-lt}
use ebpf_verifier.Base.{
  ℕ, zero, suc, ◌%◌, ◌<◌, ◌≡◌, ◌≢◌, refl, subst, Bool, true, false, if◌then◌else◌, Option, none,
  some, arith,
}
use ebpf_verifier.Base.Int.{ℤ, pos, negsuc, ◌-ℤ◌, trem, eqb_ℤ, ltb_ℤ, leb_ℤ, neg_ℤ}
use ebpf_verifier.Bound
use ebpf_verifier.Bound.{Bound, finite}
use ebpf_verifier.Interval.{Interval, interval, is_bottom, singleton}
use ebpf_verifier.Interval.Valid.{
  IsLower, IsUpper, IsValid, Contains, bottom_empty, split_bottoms, Contains-interval_iff,
}
use ebpf_verifier.Interval.Shift.{singleton_only, everything, of_number_holds}
use ebpf_verifier.Interval.Divide.{
  number_abs, number_max, srem_numbers, srem_range, srem_finite, srem, urem_numbers, urem_finite,
  urem,
}

urem_box :
    {l u : Bound}
    → IsLower l
    → IsUpper u
    → (a b : ℕ) → 0 < b
    → Contains (record { lb = l; ub = u }) (pos b)
    → Contains (urem_finite (record { lb = l; ub = u })) (pos (a % b))
unfolding urem_finite Bound.lt Bound.ge Bound.le Bound.gt interval ◌-ℤ◌
urem_box (IsLower.number n) (IsUpper.number m) a b h p =
    ground (arith, everything (pos (a % b)), mod-lt a h)
urem_box (IsLower.number n) IsUpper.infinity a b h p = everything (pos (a % b))
urem_box IsLower.infinity (IsUpper.number m) a b h p = everything (pos (a % b))
urem_box IsLower.infinity IsUpper.infinity a b h p = everything (pos (a % b))

-- The result from the two numbers where both intervals are singletons, or `r`.
by_numbers :
    (f : ℤ → ℤ → Interval) (i x r : Interval) (a b z : ℤ)
    → IsValid i
    → IsValid x
    → Contains i a
    → Contains x b
    → Contains (f a b) z
    → Contains r z
    → Contains
        (elim (singleton i) [
          | none ↦ r
          | some dividend ↦ elim (singleton x) [ none ↦ r | some divisor ↦ f dividend divisor ]
        ])
        z
by_numbers f i x r a b z vi vx p q h k = go (singleton i) (singleton x) refl refl
  where
    go :
        (o t : Option ℤ)
        → singleton i ≡ o
        → singleton x ≡ t
        → Contains
            (elim o [
              | none ↦ r
              | some dividend ↦ elim t [ none ↦ r | some divisor ↦ f dividend divisor ]
            ])
            z
    go none t e d = k
    go (some c) none e d = k
    go (some c) (some w) e d =
        subst (λ j. Contains (f j w) z) (singleton_only i c a vi e p)
          (subst (λ j. Contains (f a j) z) (singleton_only x w b vx d q) h)

urem_numbers_holds : (a b : ℕ) → 0 < b → Contains (urem_numbers (pos a) (pos b)) (pos (a % b))
unfolding Bound.le trem
urem_numbers_holds a b h = ground (arith, of_number_holds (pos (a % b)))

-- The remainder of two numbers: less than the divisor, and of the sign of the dividend.
trem_facts :
    (a b : ℤ)
    → b ≢ pos 0
    → (ltb_ℤ (number_abs (trem a b)) (number_abs b) ≡ true)
      × (ltb_ℤ a (pos 0) ≡ false → ltb_ℤ (trem a b) (pos 0) ≡ false)
      × (ltb_ℤ (pos 0) a ≡ false → ltb_ℤ (pos 0) (trem a b) ≡ false)
unfolding trem
trem_facts (pos a) (pos zero) h = absurd (h refl)
trem_facts (pos a) (pos (suc b)) h = ground (arith, mod-lt a {m = suc b} (omega arith))
trem_facts (pos a) (negsuc b) h = ground (arith, mod-lt a {m = suc b} (omega arith))
trem_facts (negsuc a) (pos zero) h = absurd (h refl)
trem_facts (negsuc a) (pos (suc b)) h = ground (arith, mod-lt (suc a) {m = suc b} (omega arith))
trem_facts (negsuc a) (negsuc b) h = ground (arith, mod-lt (suc a) {m = suc b} (omega arith))

-- An integer of absolute value less than `d`, where `d` is at most `m`.
within :
    (t d m : ℤ)
    → ltb_ℤ (number_abs t) d ≡ true
    → leb_ℤ d m ≡ true
    → (leb_ℤ (neg_ℤ (m -ℤ pos 1)) t ≡ true)
      × (leb_ℤ t (m -ℤ pos 1) ≡ true)
      × (eqb_ℤ m (pos 0) ≡ false)
unfolding ◌-ℤ◌
within (pos t) d (pos m) h g = ground (arith, h, g)
within (negsuc t) d (pos m) h g = ground (arith, h, g)
within (pos t) d (negsuc m) h g = ground (arith, h, g)
within (negsuc t) d (negsuc m) h g = ground (arith, h, g)

low_sign :
    {l : Bound} (a : ℤ)
    → IsLower l
    → Bound.le l (finite a) ≡ true
    → Bound.lt l (finite (pos 0)) ≡ false
    → ltb_ℤ a (pos 0) ≡ false
unfolding Bound.lt Bound.ge Bound.le
low_sign a (IsLower.number n) p h = ground arith
low_sign a IsLower.infinity p h = ground arith

high_sign :
    {u : Bound} (a : ℤ)
    → IsUpper u
    → Bound.le (finite a) u ≡ true
    → Bound.gt u (finite (pos 0)) ≡ false
    → ltb_ℤ (pos 0) a ≡ false
unfolding Bound.gt Bound.le
high_sign a (IsUpper.number n) p h = ground arith
high_sign a IsUpper.infinity p h = ground arith

number_le : (a b : ℤ) → leb_ℤ a b ≡ true → Bound.le (finite a) (finite b) ≡ true
unfolding Bound.le
number_le a b h = h

between :
    (a b t : ℤ) → leb_ℤ a t ≡ true → leb_ℤ t b ≡ true → Contains (interval (finite a) (finite b)) t
between a b t p q =
    (Contains-interval_iff (finite a) (finite b) t (IsLower.number a) (IsUpper.number b)).1
      (number_le a t p, number_le t b q)

choice :
    (s t : Bool) (i j k : Interval) (z : ℤ)
    → Contains i z
    → (t ≡ false → Contains j z)
    → (s ≡ false → Contains k z)
    → Contains (if s then (if t then i else j) else k) z
choice true true i j k z p q r = p
choice true false i j k z p q r = q refl
choice false t i j k z p q r = r refl

nonneg : (t : ℤ) → ltb_ℤ t (pos 0) ≡ false → leb_ℤ (pos 0) t ≡ true
nonneg t h = ground arith

nonpos : (t : ℤ) → ltb_ℤ (pos 0) t ≡ false → leb_ℤ t (pos 0) ≡ true
nonpos t h = ground arith

-- What `trem_facts` gives puts an integer into the range for the greatest divisor.
range_holds :
    (i : Interval) (a t d m : ℤ)
    → IsValid i
    → Contains i a
    → ltb_ℤ (number_abs t) d ≡ true
    → leb_ℤ d m ≡ true
    → (ltb_ℤ a (pos 0) ≡ false → ltb_ℤ t (pos 0) ≡ false)
    → (ltb_ℤ (pos 0) a ≡ false → ltb_ℤ (pos 0) t ≡ false)
    → Contains (srem_range i m) t
unfolding srem_range
range_holds i a t d m v p h g f e =
    let (low, high, nonzero) = within t d m h g in
    rw (nonzero, srem_range)
      (choice (Bound.lt i.lb (finite (pos 0))) (Bound.gt i.ub (finite (pos 0))) _ _ _ t
        (between (neg_ℤ (m -ℤ pos 1)) (m -ℤ pos 1) t low high)
        (λ c. between (neg_ℤ (m -ℤ pos 1)) (pos 0) t low (nonpos t (e (high_sign a v.upper p.1 c))))
        (λ c. between (pos 0) (m -ℤ pos 1) t (nonneg t (f (low_sign a v.lower p.0 c))) high))

-- The greatest absolute value of two bounds is at least that of any integer between them.
greatest_divisor :
    (n k b : ℤ)
    → leb_ℤ n b ≡ true
    → leb_ℤ b k ≡ true
    → leb_ℤ (number_abs b) (number_max (number_abs n) (number_abs k)) ≡ true
greatest_divisor n k b p q = ground (arith, p, q)

srem_box :
    {l u : Bound}
    → IsLower l
    → IsUpper u
    → (i : Interval) (a b : ℤ) → IsValid i
    → b ≢ pos 0
    → Contains i a
    → Contains (record { lb = l; ub = u }) b
    → Contains (srem_finite i (record { lb = l; ub = u })) (trem a b)
unfolding srem_finite Bound.le
srem_box (IsLower.number n) (IsUpper.number k) i a b v h p q =
    let (small, below, above) = trem_facts a b h in
    range_holds i a (trem a b) (number_abs b) (number_max (number_abs n) (number_abs k)) v p small
      (greatest_divisor n k b q.0 q.1) below above
srem_box (IsLower.number n) IsUpper.infinity i a b v h p q = everything (trem a b)
srem_box IsLower.infinity (IsUpper.number k) i a b v h p q = everything (trem a b)
srem_box IsLower.infinity IsUpper.infinity i a b v h p q = everything (trem a b)

nonzero_test : (b : ℤ) → b ≢ pos 0 → eqb_ℤ b (pos 0) ≡ false
nonzero_test (pos zero) h = absurd (h refl)
nonzero_test (pos (suc b)) h = ground arith
nonzero_test (negsuc b) h = ground arith

srem_numbers_holds : (a b : ℤ) → b ≢ pos 0 → Contains (srem_numbers a b) (trem a b)
srem_numbers_holds a b h = rw (nonzero_test b h) (of_number_holds (trem a b))

module _ (i x : Interval) (vi : IsValid i) (vx : IsValid x) where
  -- The signed remainder of two valid intervals holds the remainder, with the sign of the dividend,
  -- of every integer of the first by every integer of the second that is not 0.
  pub srem_sound :
      (a b : ℤ) → b ≢ pos 0 → Contains i a → Contains x b → Contains (srem i x) (trem a b)
  unfolding srem
  srem_sound a b h p q =
      split_bottoms (λ m. Contains m (trem a b)) (is_bottom i) (is_bottom x)
        (λ e. absurd (bottom_empty i a vi e p)) (λ _ e. absurd (bottom_empty x b vx e q))
        (λ _ _.
          by_numbers srem_numbers i x (srem_finite i x) a b (trem a b) vi vx p q
            (srem_numbers_holds a b h) (srem_box vx.lower vx.upper i a b vi h p q))

  -- The unsigned remainder of two valid intervals holds the remainder of every number of the first
  -- by every number of the second that is not 0.
  pub urem_sound :
      (a b : ℕ)
      → 0 < b
      → Contains i (pos a)
      → Contains x (pos b)
      → Contains (urem i x) (pos (a % b))
  unfolding urem
  urem_sound a b h p q =
      split_bottoms (λ m. Contains m (pos (a % b))) (is_bottom i) (is_bottom x)
        (λ e. absurd (bottom_empty i (pos a) vi e p))
        (λ _ e. absurd (bottom_empty x (pos b) vx e q))
        (λ _ _.
          by_numbers urem_numbers i x (urem_finite x) (pos a) (pos b) (pos (a % b)) vi vx p q
            (urem_numbers_holds a b h) (urem_box vx.lower vx.upper a b h q))
