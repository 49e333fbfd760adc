-- ===== src/Interval/Shift.antt =====
-- The shifts of src/crab/interval.cpp to the left and, of numbers, to the right, and `fill_ones` of
-- src/crab_utils/bignums_gmp.hpp.
use native.Mathlib.Nat.{two-pow-succ, div-mul-le_self, le-div_iff_mul-le, one-le-pow}
use ebpf_verifier.Base.{
  ℕ, zero, suc, ◌+◌, ◌*◌, ◌/◌, ◌^◌, ◌≤◌, ◌<◌, ◌≡◌, refl, subst, inl, inr, Bool, true, false,
  Bool-cases, ltb, leb, ◌&&◌, if◌then◌else◌, Option, none, some, arith,
}
use ebpf_verifier.Base.Int.{ℤ, pos, negsuc, ◌*ℤ◌}
use ebpf_verifier.Base.Bits.{shift_right}
use ebpf_verifier.Bound
use ebpf_verifier.Bound.{Bound, finite}
use ebpf_verifier.Interval.{Interval, of_number, interval, top, is_bottom, singleton, mul}
use ebpf_verifier.Interval.Valid.{IsLower, IsUpper, IsValid, Contains, bottom_empty, split_bottoms}
use ebpf_verifier.Interval.Product.{mul-Sound}
use ebpf_verifier.Interval.Bitwise.{fill_loop, fill_ones, shift_by, shl, lshr}

-- A number of the form 2^k - 1 that is at least `n`, as the loop leaves it.
abbrev pub Fills : ℕ → Option ℕ → Type 0
Fills n none = ⊥
Fills n (some m) = (k : ℕ) × (m + 1 ≡ 2 ^ k) × (n ≤ m) × (m < 2 * n)

fill_loop-Fills :
    (fuel n result k : ℕ)
    → n < result + fuel
    → 1 ≤ fuel
    → result + 1 ≡ 2 ^ k
    → result < 2 * n
    → Fills n (fill_loop fuel n result)
unfolding fill_loop
fill_loop-Fills zero n result k h f e b = omega arith
fill_loop-Fills (suc fuel) n result k h f e b = elim (Bool-cases (ltb result n)) [
  | inl t ↦
      rw (t, fill_loop)
        (fill_loop-Fills fuel n (2 * result + 1) (suc k) (ground (arith, t)) (ground (arith, t))
          (omega (arith, two-pow-succ k)) (ground (arith, t)))
  | inr t ↦ rw (t, fill_loop) (k, e, ground (arith, t), b)
]

-- The number that an interval of one number holds.
singleton_box :
    {l u : Bound}
    → IsLower l
    → IsUpper u
    → (c z : ℤ) → singleton (record { lb = l; ub = u }) ≡ some c
    → Contains (record { lb = l; ub = u }) z
    → z ≡ c
unfolding singleton is_bottom Bound.gt Bound.eq Bound.number Bound.le
singleton_box (IsLower.number n) (IsUpper.number m) c z e h = ground arith
singleton_box (IsLower.number n) IsUpper.infinity c z e h = ground arith
singleton_box IsLower.infinity (IsUpper.number m) c z e h = ground arith
singleton_box IsLower.infinity IsUpper.infinity c z e h = ground arith

pub singleton_only :
    (x : Interval) (c z : ℤ) → IsValid x → singleton x ≡ some c → Contains x z → z ≡ c
singleton_only x c z v e h = singleton_box v.lower v.upper c z e h

pub everything : (z : ℤ) → Contains top z
unfolding top interval Bound.gt Bound.le
everything z = ground arith

-- For every number that is not 0, the loop of `fill_ones` ends within as many rounds as the number,
-- with some 2^k - 1 that is at least the number and less than twice the number.
pub fill_ones-Fills : (n : ℕ) → 0 < n → Fills n (fill_ones n)
unfolding fill_ones
fill_ones-Fills n h =
    let full = fill_loop-Fills n n 1 1 (omega arith) (omega arith) refl (omega arith) in
    ground (arith, full)

-- The shift by the only number of the other interval, or `top`.
shifted :
    (f : ℕ → Interval) (x : Interval) (k : ℕ) (z : ℤ)
    → IsValid x
    → Contains x (pos k)
    → Contains (f k) z
    → Contains (shift_by f top (singleton x)) z
shifted f x k z v h c = go (singleton x) refl
  where
    go : (o : Option ℤ) → singleton x ≡ o → Contains (shift_by f top o) z
    go none e = everything z
    go (some (negsuc m)) e = everything z
    go (some (pos m)) e =
        let same = singleton_only x (pos m) (pos k) v e h in
        if_shift m (ground (arith, same)) (leb m 128)
      where
        if_shift : (m : ℕ) → k ≡ m → (t : Bool) → Contains (if t then f m else top) z
        if_shift m e true = subst (λ j. Contains (f j) z) e c
        if_shift m e false = everything z

of_number-IsValid : (n : ℤ) → IsValid (of_number n)
of_number-IsValid n = record { lower = IsLower.number n; upper = IsUpper.number n }

pub of_number_holds : (n : ℤ) → Contains (of_number n) n
unfolding Bound.le
of_number_holds n = ground arith

div_mono : (a b k : ℕ) → a ≤ b → a / 2 ^ k ≤ b / 2 ^ k
div_mono a b k h =
    (le-div_iff_mul-le (one-le-pow k 2 (omega arith))).1 (omega (arith, div-mul-le_self a (2 ^ k)))

shift_box :
    {l u : Bound}
    → IsLower l
    → IsUpper u
    → (a k : ℕ) → Contains (record { lb = l; ub = u }) (pos a)
    → Contains
        (if Bound.ge l (finite (pos 0)) && Bound.is_finite u
          then interval (finite (shift_right l.n k)) (finite (shift_right u.n k))
          else top)
        (pos (a / 2 ^ k))
unfolding Bound.ge Bound.le Bound.gt interval shift_right
shift_box (IsLower.number (pos n)) (IsUpper.number (pos m)) a k h =
    ground (arith, div_mono n a k, div_mono a m k)
shift_box (IsLower.number (pos n)) (IsUpper.number (negsuc m)) a k h = ground arith
shift_box (IsLower.number (negsuc n)) (IsUpper.number m) a k h =
    ground (arith, everything (pos (a / 2 ^ k)))
shift_box (IsLower.number (pos n)) IsUpper.infinity a k h =
    ground (arith, everything (pos (a / 2 ^ k)))
shift_box (IsLower.number (negsuc n)) IsUpper.infinity a k h =
    ground (arith, everything (pos (a / 2 ^ k)))
shift_box IsLower.infinity (IsUpper.number m) a k h = ground (arith, everything (pos (a / 2 ^ k)))
shift_box IsLower.infinity IsUpper.infinity a k h = ground (arith, everything (pos (a / 2 ^ k)))

module _ (i x : Interval) (vi : IsValid i) (vx : IsValid x) where
  -- The left shift of a valid interval by a valid interval holds `a * 2^k` for every integer `a` of
  -- the first and every number `k` of the second.
  pub shl_sound :
      (a : ℤ) (k : ℕ) → Contains i a → Contains x (pos k) → Contains (shl i x) (a *ℤ pos (2 ^ k))
  unfolding shl
  shl_sound a k p q =
      split_bottoms (λ m. Contains m (a *ℤ pos (2 ^ k))) (is_bottom i) (is_bottom x)
        (λ e. absurd (bottom_empty i a vi e p)) (λ _ e. absurd (bottom_empty x (pos k) vx e q))
        (λ _ _.
          shifted (λ j. mul i (of_number (pos (2 ^ j)))) x k (a *ℤ pos (2 ^ k)) vx q
            ((mul-Sound i (of_number (pos (2 ^ k))) vi (of_number-IsValid (pos (2 ^ k)))).holds a
              (pos (2 ^ k)) p (of_number_holds (pos (2 ^ k)))))

  -- The logical right shift of a valid interval by a valid interval holds `a / 2^k` for every
  -- number `a` of the first and every number `k` of the second.
  pub lshr_sound :
      (a k : ℕ) → Contains i (pos a) → Contains x (pos k) → Contains (lshr i x) (pos (a / 2 ^ k))
  unfolding lshr
  lshr_sound a k p q =
      split_bottoms (λ m. Contains m (pos (a / 2 ^ k))) (is_bottom i) (is_bottom x)
        (λ e. absurd (bottom_empty i (pos a) vi e p))
        (λ _ e. absurd (bottom_empty x (pos k) vx e q))
        (λ _ _. shifted _ x k (pos (a / 2 ^ k)) vx q (shift_box vi.lower vi.upper a k p))
