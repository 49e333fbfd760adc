-- ===== src/Interval.antt =====
-- Intervals: the class `interval_t` of src/crab/interval.hpp; the operators of
-- src/crab/interval.cpp are in the children Divide and Bitwise.
pub mod Divide
pub mod Bitwise
pub mod Valid
pub mod Lattice
pub mod Widen
pub mod Narrow
pub mod Order
pub mod Arith
pub mod Product
pub mod Shift
pub mod Remainder
pub mod Quotient
use ebpf_verifier.Base.{Bool, true, false, not, ◌&&◌, if◌then◌else◌, Option, none, some}
use ebpf_verifier.Base.Int.{ℤ, pos, negsuc, ◌+ℤ◌, ◌-ℤ◌}
use ebpf_verifier.Outcome.{Result, ok, err, ◌>>=◌}
use ebpf_verifier.Bound
use ebpf_verifier.Bound.{Bound, finite, plus_infinity, minus_infinity}

pub record Interval : Type 0 where
  pub lb : Bound
  pub ub : Bound

abbrev pub bottom : Interval
bottom = record { lb = finite (pos 0); ub = finite (negsuc 0) }

-- The constructors from two bounds, from one and from a number.
unfoldable pub interval : Bound → Bound → Interval
interval lb ub = record {
  lb = if Bound.gt lb ub then finite (pos 0) else lb;
  ub = if Bound.gt lb ub then finite (negsuc 0) else ub;
}

unfoldable pub of_bound : Bound → Interval
of_bound b = record {
  lb = if b.is_infinite then finite (pos 0) else b;
  ub = if b.is_infinite then finite (negsuc 0) else b;
}

abbrev pub of_number : ℤ → Interval
of_number n = record { lb = finite n; ub = finite n }

unfoldable pub top : Interval
top = interval minus_infinity plus_infinity

unfoldable pub is_bottom : Interval → Bool
is_bottom i = Bound.gt i.lb i.ub

unfoldable pub is_top : Interval → Bool
is_top i = i.lb.is_infinite && i.ub.is_infinite

unfoldable pub eq : Interval → Interval → Bool
eq i x = if is_bottom i then is_bottom x else Bound.eq i.lb x.lb && Bound.eq i.ub x.ub

unfoldable pub le : Interval → Interval → Bool
le i x =
    if is_bottom i
    then true
    else if is_bottom x
    then false
    else Bound.le x.lb i.lb && Bound.le i.ub x.ub

-- `operator|`.
unfoldable pub join : Interval → Interval → Interval
join i x =
    if is_bottom i
    then x
    else if is_bottom x
    then i
    else interval (Bound.min i.lb x.lb) (Bound.max i.ub x.ub)

-- `operator&`.
unfoldable pub meet : Interval → Interval → Interval
meet i x =
    if is_bottom i
    then bottom
    else if is_bottom x
    then bottom
    else interval (Bound.max i.lb x.lb) (Bound.min i.ub x.ub)

unfoldable pub widen : Interval → Interval → Interval
widen i x =
    if is_bottom i
    then x
    else if is_bottom x
    then i
    else interval (if Bound.lt x.lb i.lb then minus_infinity else i.lb)
        (if Bound.lt i.ub x.ub then plus_infinity else i.ub)

unfoldable pub narrow : Interval → Interval → Interval
narrow i x =
    if is_bottom i
    then bottom
    else if is_bottom x
    then bottom
    else interval (if i.lb.is_infinite && not x.lb.is_infinite then x.lb else i.lb)
        (if i.ub.is_infinite && not x.ub.is_infinite then x.ub else i.ub)

unfoldable pub add : Interval → Interval → Result Interval
add i x =
    if is_bottom i
    then ok bottom
    else if is_bottom x
    then ok bottom
    else do l ← Bound.add i.lb x.lb; u ← Bound.add i.ub x.ub; ok (interval l u)

unfoldable pub neg : Interval → Interval
neg i = if is_bottom i then bottom else interval (Bound.neg i.ub) (Bound.neg i.lb)

unfoldable pub sub : Interval → Interval → Result Interval
sub i x =
    if is_bottom i
    then ok bottom
    else if is_bottom x
    then ok bottom
    else do l ← Bound.sub i.lb x.ub; u ← Bound.sub i.ub x.lb; ok (interval l u)

-- The interval of the four products, or quotients, of the bounds.
unfoldable pub hull4 : Bound → Bound → Bound → Bound → Interval
hull4 ll lu ul uu = interval (Bound.min4 ll lu ul uu) (Bound.max4 ll lu ul uu)

unfoldable pub mul : Interval → Interval → Interval
mul i x =
    if is_bottom i
    then bottom
    else if is_bottom x
    then bottom
    else hull4 (Bound.mul i.lb x.lb) (Bound.mul i.lb x.ub) (Bound.mul i.ub x.lb)
        (Bound.mul i.ub x.ub)

unfoldable pub singleton : Interval → Option ℤ
singleton i = if not (is_bottom i) && Bound.eq i.lb i.ub then Bound.number i.lb else none

-- `operator[]`: whether `n` is in the interval.
unfoldable pub contains : Interval → ℤ → Bool
contains i n = if is_bottom i then false else Bound.le i.lb (finite n) && Bound.le (finite n) i.ub

unfoldable pub udiv : Interval → Interval → Interval
udiv i x = if is_bottom i then bottom else if is_bottom x then bottom else top

unfoldable pub trim_interval : Interval → Interval → Interval
trim_interval i j = elim (singleton j) [
  | none ↦ i
  | some c ↦
      if Bound.eq i.lb (finite c)
      then interval (finite (c +ℤ pos 1)) i.ub
      else if Bound.eq i.ub (finite c)
      then interval i.lb (finite (c -ℤ pos 1))
      else i
]
