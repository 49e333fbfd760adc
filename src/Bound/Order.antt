-- ===== src/Bound/Order.antt =====
-- The order of bounds is a linear order with the infinities at its ends, as long as an infinite
-- bound holds only a sign.
use ebpf_verifier.Base.{◌≡◌, ◌↔◌, ◌⊎◌, true, false, arith, refl, inl, inr, if◌then◌else◌}
use ebpf_verifier.Base.Int.{ℤ, ◌≤ℤ◌}
use ebpf_verifier.Bound.{Bound, finite, plus_infinity, minus_infinity, le, ge, min, max}

-- What the constructors give: an infinite bound is one of the two infinities.
pub data IsWf : Bound → Type 0 where
  number : (n : ℤ) → IsWf (finite n)
  top : IsWf plus_infinity
  bottom : IsWf minus_infinity

abbrev pub Le : Bound → Bound → Type 0
Le x y = le x y ≡ true

pub le_self : {x : Bound} → IsWf x → Le x x
unfolding le
le_self (number n) = ground arith
le_self _ = refl

pub le_trans : {x y z : Bound} → IsWf x → IsWf y → IsWf z → Le x y → Le y z → Le x z
unfolding le
le_trans (number a) (number b) (number c) p q = ground arith
le_trans _ _ _ p q = ground arith

pub le_total : {x y : Bound} → IsWf x → IsWf y → Le x y ⊎ Le y x
unfolding le
le_total (number a) (number b) = ground arith
le_total _ _ = ground arith

-- On finite bounds the order is that of the integers.
pub le-finite_iff : (a b : ℤ) → Le (finite a) (finite b) ↔ (a ≤ℤ b)
unfolding le
le-finite_iff a b = ground arith

pub ge_lem : {x y : Bound} → IsWf x → IsWf y → ge x y ≡ le y x
unfolding ge le
ge_lem (number a) (number b) = ground arith
ge_lem _ _ = ground arith

module _ {x y : Bound} (hx : IsWf x) (hy : IsWf y) where
  pub min-IsWf : IsWf (min x y)
  unfolding min
  min-IsWf = elim (le x y) as (λ b. IsWf (if b then x else y)) [ true ↦ hx | false ↦ hy ]

  pub max-IsWf : IsWf (max x y)
  unfolding max
  max-IsWf = elim (le x y) as (λ b. IsWf (if b then y else x)) [ true ↦ hy | false ↦ hx ]

  -- `min` and `max` are the greatest lower and the least upper bound.
  pub min-le_left : Le (min x y) x
  unfolding min
  min-le_left = ground (arith, le_self hx, le_total hx hy)

  pub min-le_right : Le (min x y) y
  unfolding min
  min-le_right = ground (arith, le_self hy, le_total hx hy)

  pub le-max_left : Le x (max x y)
  unfolding max
  le-max_left = ground (arith, le_self hx, le_total hx hy)

  pub le-max_right : Le y (max x y)
  unfolding max
  le-max_right = ground (arith, le_self hy, le_total hx hy)

pub le-min : (x y z : Bound) → Le z x → Le z y → Le z (min x y)
unfolding min
le-min x y z p q = ground arith

pub max-le : (x y z : Bound) → Le x z → Le y z → Le (max x y) z
unfolding max
max-le x y z p q = ground arith

-- One of the two arguments below a bound is enough for their minimum, and so for the maximum.
pub min-le : {x y z : Bound} → Le x z ⊎ Le y z → IsWf x → IsWf y → IsWf z → Le (min x y) z
min-le (inl p) hx hy hz = le_trans (min-IsWf hx hy) hx hz (min-le_left hx hy) p
min-le (inr p) hx hy hz = le_trans (min-IsWf hx hy) hy hz (min-le_right hx hy) p

pub le-max : {x y z : Bound} → Le z x ⊎ Le z y → IsWf x → IsWf y → IsWf z → Le z (max x y)
le-max (inl p) hx hy hz = le_trans hz hx (max-IsWf hx hy) p (le-max_left hx hy)
le-max (inr p) hx hy hz = le_trans hz hy (max-IsWf hx hy) p (le-max_right hx hy)
