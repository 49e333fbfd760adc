-- ===== src/Examples/Intervals.antt =====
-- Intervals on which the theorems on src/crab/interval.hpp and src/crab/interval.cpp are applied.
use ebpf_verifier.Base.{◌≡◌, ◌↔◌, ◌⊎◌, inr, ◌<◌, ◌%◌, ◌/◌, ◌^◌, true, arith, ◌≢◌}
use ebpf_verifier.Base.Int.{tdiv, ℤ, pos, negsuc, ◌+ℤ◌, ◌-ℤ◌, ◌*ℤ◌, trem}
use ebpf_verifier.Outcome.{ok}
use ebpf_verifier.Bound
use ebpf_verifier.Bound.{finite, plus_infinity, minus_infinity}
use ebpf_verifier.Interval.{of_number, Interval, le, join, meet, widen, narrow, add, sub, mul}
use ebpf_verifier.Interval.Valid.{IsLower, IsUpper, IsValid, Contains}
use ebpf_verifier.Interval.Lattice.{Contains-join, Contains-meet_iff}
use ebpf_verifier.Interval.Order.{Includes, le_iff}
use ebpf_verifier.Interval.Widen.{weight, widen_progress, Contains-widen}
use ebpf_verifier.Interval.Narrow.{narrow_between}
use ebpf_verifier.Interval.Arith.{Sound, add-Sound, sub-Sound}
use ebpf_verifier.Interval.Product.{mul-Sound}
use ebpf_verifier.Interval.Bitwise.{fill_ones, shl, lshr}
use ebpf_verifier.Interval.Shift.{Fills, fill_ones-Fills, shl_sound, lshr_sound}
use ebpf_verifier.Interval.Divide.{divide, srem, urem}
use ebpf_verifier.Interval.Quotient.{divide-of_number}
use ebpf_verifier.Interval.Remainder.{srem_sound, urem_sound}

-- `[-3, 5]`, `[2, +oo]`, `[6, 9]` and `[1, 3]`.
abbrev around_zero : Interval
around_zero = record { lb = finite (negsuc 2); ub = finite (pos 5) }

abbrev from_two : Interval
from_two = record { lb = finite (pos 2); ub = plus_infinity }

abbrev six_nine : Interval
six_nine = record { lb = finite (pos 6); ub = finite (pos 9) }

abbrev one_three : Interval
one_three = record { lb = finite (pos 1); ub = finite (pos 3) }

around_zero-IsValid : IsValid around_zero
around_zero-IsValid = record { lower = IsLower.number (negsuc 2); upper = IsUpper.number (pos 5) }

from_two-IsValid : IsValid from_two
from_two-IsValid = record { lower = IsLower.number (pos 2); upper = IsUpper.infinity }

six_nine-IsValid : IsValid six_nine
six_nine-IsValid = record { lower = IsLower.number (pos 6); upper = IsUpper.number (pos 9) }

one_three-IsValid : IsValid one_three
one_three-IsValid = record { lower = IsLower.number (pos 1); upper = IsUpper.number (pos 3) }

three_in : Contains from_two (pos 3)
unfolding Bound.le
three_in = ground arith

seven_in : Contains six_nine (pos 7)
unfolding Bound.le
seven_in = ground arith

two_in : Contains one_three (pos 2)
unfolding Bound.le
two_in = ground arith

minus_two_in : Contains around_zero (negsuc 1)
unfolding Bound.le
minus_two_in = ground arith

mul-Sound_example : Sound around_zero from_two ◌*ℤ◌ (mul around_zero from_two)
mul-Sound_example = mul-Sound around_zero from_two around_zero-IsValid from_two-IsValid

add-Sound_example :
    (r : Interval) × (add around_zero from_two ≡ ok r) × Sound around_zero from_two ◌+ℤ◌ r
add-Sound_example = add-Sound around_zero from_two around_zero-IsValid from_two-IsValid

sub-Sound_example :
    (r : Interval) × (sub around_zero from_two ≡ ok r) × Sound around_zero from_two ◌-ℤ◌ r
sub-Sound_example = sub-Sound around_zero from_two around_zero-IsValid from_two-IsValid

widen_progress_example :
    (le from_two around_zero ≡ true) ⊎ (weight (widen around_zero from_two) < weight around_zero)
widen_progress_example = widen_progress around_zero from_two around_zero-IsValid from_two-IsValid

Contains-widen_example : Contains (widen around_zero from_two) (pos 3)
Contains-widen_example =
    Contains-widen around_zero from_two around_zero-IsValid from_two-IsValid (pos 3) (inr three_in)

narrow_between_example :
    (Contains (narrow from_two six_nine) (pos 7) → Contains from_two (pos 7))
    × (Contains from_two (pos 7)
        → Contains six_nine (pos 7)
        → Contains (narrow from_two six_nine) (pos 7))
narrow_between_example = narrow_between from_two six_nine from_two-IsValid six_nine-IsValid (pos 7)

le_iff_example : (le six_nine from_two ≡ true) ↔ Includes from_two six_nine
le_iff_example = le_iff six_nine from_two six_nine-IsValid from_two-IsValid

Contains-join_example : Contains (join around_zero six_nine) (pos 7)
Contains-join_example =
    Contains-join around_zero six_nine around_zero-IsValid six_nine-IsValid (pos 7) (inr seven_in)

Contains-meet_iff_example :
    Contains (meet from_two six_nine) (pos 7)
    ↔ (Contains from_two (pos 7) × Contains six_nine (pos 7))
Contains-meet_iff_example =
    Contains-meet_iff from_two six_nine from_two-IsValid six_nine-IsValid (pos 7)

shl_sound_example : Contains (shl around_zero one_three) (negsuc 1 *ℤ pos (2 ^ 2))
shl_sound_example =
    shl_sound around_zero one_three around_zero-IsValid one_three-IsValid (negsuc 1) 2 minus_two_in
      two_in

lshr_sound_example : Contains (lshr six_nine one_three) (pos (7 / 2 ^ 2))
lshr_sound_example =
    lshr_sound six_nine one_three six_nine-IsValid one_three-IsValid 7 2 seven_in two_in

fill_ones-Fills_example : Fills 9 (fill_ones 9)
fill_ones-Fills_example = fill_ones-Fills 9 (omega arith)

two_nonzero : pos 2 ≢ pos 0
two_nonzero e = ground (arith, e)

srem_sound_example : Contains (srem around_zero one_three) (trem (negsuc 1) (pos 2))
srem_sound_example =
    srem_sound around_zero one_three around_zero-IsValid one_three-IsValid (negsuc 1) (pos 2)
      two_nonzero minus_two_in two_in

urem_sound_example : Contains (urem six_nine one_three) (pos (7 % 2))
urem_sound_example =
    urem_sound six_nine one_three six_nine-IsValid one_three-IsValid 7 2 (omega arith) seven_in
      two_in

divide-of_number_example :
    (r : Interval) × divide from_two (of_number (pos 4)) ≡ ok r
    × IsValid r
    × ((a : ℤ) → Contains from_two a → Contains r (tdiv a (pos 4)))
divide-of_number_example = divide-of_number from_two 4 from_two-IsValid (omega arith)
