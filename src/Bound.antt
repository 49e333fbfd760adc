-- ===== src/Bound.antt =====
-- The bounds of intervals: the class `bound_t` of src/crab/interval.hpp. A `number_t` is a
-- mathematical integer. The exit of CRAB_ERROR is a fault.
pub mod Order
pub mod Arith
use ebpf_verifier.Base.{Bool, true, false, not, xor, ◌&&◌, ◌||◌, if◌then◌else◌, Option, none, some}
use ebpf_verifier.Base.Int.{ℤ, pos, negsuc, neg_ℤ, ◌+ℤ◌, ◌*ℤ◌, tdiv, leb_ℤ, ltb_ℤ, eqb_ℤ}
use ebpf_verifier.Outcome.{Result, ok, err, Fault}

pub record Bound : Type 0 where
  pub is_infinite : Bool
  pub n : ℤ

-- The private constructor keeps only the sign of an infinite bound.
unfoldable pub bound : Bool → ℤ → Bound
bound is_infinite n = record {
  is_infinite = is_infinite;
  n = if is_infinite then (if ltb_ℤ (pos 0) n then pos 1 else negsuc 0) else n;
}

abbrev pub finite : ℤ → Bound
finite n = record { is_infinite = false; n = n }

abbrev pub plus_infinity : Bound
plus_infinity = record { is_infinite = true; n = pos 1 }

abbrev pub minus_infinity : Bound
minus_infinity = record { is_infinite = true; n = negsuc 0 }

abbrev pub is_finite : Bound → Bool
is_finite b = not b.is_infinite

unfoldable pub is_plus_infinity : Bound → Bool
is_plus_infinity b = b.is_infinite && ltb_ℤ (pos 0) b.n

unfoldable pub is_minus_infinity : Bound → Bool
is_minus_infinity b = b.is_infinite && ltb_ℤ b.n (pos 0)

-- `operator<=`, `operator>=` and those defined by them.
unfoldable pub le : Bound → Bound → Bool
le x y =
    if xor x.is_infinite y.is_infinite
    then (if x.is_infinite then ltb_ℤ x.n (pos 0) else ltb_ℤ (pos 0) y.n)
    else leb_ℤ x.n y.n

unfoldable pub ge : Bound → Bound → Bool
ge x y =
    if xor x.is_infinite y.is_infinite
    then (if x.is_infinite then ltb_ℤ (pos 0) x.n else ltb_ℤ y.n (pos 0))
    else leb_ℤ y.n x.n

unfoldable pub lt : Bound → Bound → Bool
unfolding ge
lt x y = not (ge x y)

unfoldable pub gt : Bound → Bound → Bool
unfolding le
gt x y = not (le x y)

unfoldable pub eq : Bound → Bound → Bool
eq x y = not (xor x.is_infinite y.is_infinite) && eqb_ℤ x.n y.n

unfoldable pub min : Bound → Bound → Bound
min x y = if le x y then x else y

unfoldable pub max : Bound → Bound → Bound
max x y = if le x y then y else x

unfoldable pub min4 : Bound → Bound → Bound → Bound → Bound
min4 x y z t = min x (min t (min y z))

unfoldable pub max4 : Bound → Bound → Bound → Bound → Bound
max4 x y z t = max x (max t (max y z))

unfoldable pub neg : Bound → Bound
neg b = bound b.is_infinite (neg_ℤ b.n)

unfoldable pub add : Bound → Bound → Result Bound
add b x =
    if is_finite b && is_finite x
    then ok (finite (b.n +ℤ x.n))
    else if is_finite b && x.is_infinite
    then ok x
    else if b.is_infinite && is_finite x
    then ok b
    else if eqb_ℤ b.n x.n
    then ok b
    else err Fault.assertion

unfoldable pub sub : Bound → Bound → Result Bound
sub b x = add b (neg x)

unfoldable pub mul : Bound → Bound → Bound
mul b x =
    if eqb_ℤ x.n (pos 0)
    then x
    else if eqb_ℤ b.n (pos 0)
    then b
    else bound (b.is_infinite || x.is_infinite) (b.n *ℤ x.n)

unfoldable pub div : Bound → Bound → Result Bound
div b x =
    if eqb_ℤ x.n (pos 0)
    then err Fault.assertion
    else if is_finite b && is_finite x
    then ok (bound false (tdiv b.n x.n))
    else if is_finite b && x.is_infinite
    then (if ltb_ℤ (pos 0) b.n then ok x else if eqb_ℤ b.n (pos 0) then ok b else ok (neg x))
    else if b.is_infinite && is_finite x
    then (if ltb_ℤ (pos 0) x.n then ok b else ok (neg b))
    else ok (bound true (b.n *ℤ x.n))

unfoldable pub abs : Bound → Bound
abs b = if ge b (finite (pos 0)) then b else neg b

unfoldable pub number : Bound → Option ℤ
number b = if b.is_infinite then none else some b.n
