-- ===== src/Interval/Valid.antt =====
-- The sets of integers that the intervals of src/crab/interval.hpp stand for, and the invariant of
-- the class: the lower bound is not +oo, and the upper bound is not -oo.
use ebpf_verifier.Base.{◌≡◌, ◌↔◌, Bool, true, false, arith, refl, if◌then◌else◌, not}
use ebpf_verifier.Base.Int.{ℤ, pos, negsuc}
use ebpf_verifier.Bound
use ebpf_verifier.Bound.{Bound, finite, plus_infinity, minus_infinity}
use ebpf_verifier.Bound.Order.{IsWf, Le, le_trans}
use ebpf_verifier.Interval.{Interval, bottom, interval, is_bottom, contains}

pub data IsLower : Bound → Type 0 where
  number : (n : ℤ) → IsLower (finite n)
  infinity : IsLower minus_infinity

pub data IsUpper : Bound → Type 0 where
  number : (n : ℤ) → IsUpper (finite n)
  infinity : IsUpper plus_infinity

pub record IsValid (i : Interval) : Type 0 where
  pub lower : IsLower i.lb
  pub upper : IsUpper i.ub

pub lower-IsWf : {b : Bound} → IsLower b → IsWf b
lower-IsWf (IsLower.number n) = IsWf.number n
lower-IsWf IsLower.infinity = IsWf.bottom

pub upper-IsWf : {b : Bound} → IsUpper b → IsWf b
upper-IsWf (IsUpper.number n) = IsWf.number n
upper-IsWf IsUpper.infinity = IsWf.top

-- The integers between the bounds; none, if the interval is bottom.
abbrev pub Contains : Interval → ℤ → Type 0
Contains i z = Le i.lb (finite z) × Le (finite z) i.ub

-- On a valid interval `operator[]` holds of an integer exactly when the integer lies between the
-- two bounds.
pub contains_iff : (i : Interval) (z : ℤ) → IsValid i → (contains i z ≡ true) ↔ Contains i z
unfolding contains is_bottom Bound.gt
contains_iff i z v = (
  λ h. ground arith,
  λ h. ground (arith, le_trans (lower-IsWf v.lower) (IsWf.number z) (upper-IsWf v.upper) h.0 h.1),
)

pub bottom_empty : (i : Interval) (z : ℤ) → IsValid i → is_bottom i ≡ true → ¬ Contains i z
unfolding is_bottom Bound.gt
bottom_empty i z v e h =
    ground (arith, le_trans (lower-IsWf v.lower) (IsWf.number z) (upper-IsWf v.upper) h.0 h.1)

pub nothing : (z : ℤ) → ¬ Contains bottom z
unfolding Bound.le
nothing z h = ground arith

-- A constructed interval holds exactly the integers between its two bounds.
pub Contains-interval_iff :
    (l u : Bound) (z : ℤ)
    → IsLower l
    → IsUpper u
    → Contains (interval l u) z ↔ (Le l (finite z) × Le (finite z) u)
unfolding interval Bound.gt
Contains-interval_iff l u z hl hu = go (Bound.le l u) refl
  where
    go :
        (b : Bool)
        → Bound.le l u ≡ b
        → Contains
            (record {
              lb = if not b then finite (pos 0) else l;
              ub = if not b then finite (negsuc 0) else u;
            })
            z
          ↔ (Le l (finite z) × Le (finite z) u)
    go true e = (λ h. h, λ h. h)
    go false e = (
      λ h. absurd (nothing z h),
      λ h. cc (le_trans (lower-IsWf hl) (IsWf.number z) (upper-IsWf hu) h.0 h.1),
    )

pub if-IsLower : (b : Bool) {x y : Bound} → IsLower x → IsLower y → IsLower (if b then x else y)
if-IsLower true p q = p
if-IsLower false p q = q

pub if-IsUpper : (b : Bool) {x y : Bound} → IsUpper x → IsUpper y → IsUpper (if b then x else y)
if-IsUpper true p q = p
if-IsUpper false p q = q

pub interval-IsValid : (l u : Bound) → IsLower l → IsUpper u → IsValid (interval l u)
unfolding interval
interval-IsValid l u hl hu = record {
  lower = if-IsLower _ (IsLower.number (pos 0)) hl;
  upper = if-IsUpper _ (IsUpper.number (negsuc 0)) hu;
}

-- A split on two tests for bottom, as most operators make it.
pub split_bottoms {ℓ κ} :
    {A : Type ℓ} (P : A → Type κ) (b c : Bool) {r s t : A}
    → (b ≡ true → P r)
    → (b ≡ false → c ≡ true → P s)
    → (b ≡ false → c ≡ false → P t)
    → P (if b then r else if c then s else t)
split_bottoms P true c f g h = f refl
split_bottoms P false true f g h = g refl refl
split_bottoms P false false f g h = h refl refl

pub bottom-IsValid : IsValid bottom
bottom-IsValid = record { lower = IsLower.number (pos 0); upper = IsUpper.number (negsuc 0) }
