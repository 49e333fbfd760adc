-- ===== src/Interval/Divide.antt =====
-- Division and remainders: `operator/`, `SRem` and `URem` of src/crab/interval.cpp.
-- `operator/` calls itself on arguments without 0: its divisor is split first, then its dividend,
-- so that three levels of calls are enough.
use ebpf_verifier.Base.{◌&&◌, ◌||◌, if◌then◌else◌, none, some}
use ebpf_verifier.Base.Int.{ℤ, pos, negsuc, neg_ℤ, ◌-ℤ◌, trem, leb_ℤ, ltb_ℤ, eqb_ℤ}
use ebpf_verifier.Outcome.{Result, ok, err, ◌>>=◌, Fault}
use ebpf_verifier.Bound
use ebpf_verifier.Bound.{Bound, finite}
use ebpf_verifier.Interval.{
  Interval, bottom, of_number, interval, top, is_bottom, singleton, contains, join, add, sub, hull4,
}

abbrev pub number_abs : ℤ → ℤ
number_abs n = if ltb_ℤ n (pos 0) then neg_ℤ n else n

abbrev pub number_max : ℤ → ℤ → ℤ
number_max a b = if leb_ℤ a b then b else a

-- The dividend that is divided: away from 0 where all of it is negative.
unfoldable pub shift_dividend : Interval → Interval → Result Interval
shift_dividend i x =
    if Bound.lt i.ub (finite (pos 0))
    then (if Bound.lt x.ub (finite (pos 0))
        then add x (of_number (pos 1)) >>= add i
        else sub (of_number (pos 1)) x >>= add i)
    else ok i

-- The last branch: neither argument contains 0.
unfoldable pub divide_corners : Interval → Interval → Result Interval
divide_corners i x = do
  a ← shift_dividend i x
  ll ← Bound.div a.lb x.lb
  lu ← Bound.div a.lb x.ub
  ul ← Bound.div a.ub x.lb
  uu ← Bound.div a.ub x.ub
  ok (hull4 ll lu ul uu)

-- The branches behind the one for a singleton divisor; `rec` is the function itself.
unfoldable pub divide_general :
    (Interval → Interval → Result Interval) → Interval → Interval → Result Interval
divide_general rec i x =
    if contains x (pos 0)
    then (do
      l ← rec i (interval x.lb (finite (negsuc 0)))
      u ← rec i (interval (finite (pos 1)) x.ub)
      ok (join l u))
    else if contains i (pos 0)
    then (do
      l ← rec (interval i.lb (finite (negsuc 0))) x
      u ← rec (interval (finite (pos 1)) i.ub) x
      ok (join (join l u) (of_number (pos 0))))
    else divide_corners i x

-- The division by a number other than 0; 0 is left to the general case.
unfoldable pub divide_singleton : Interval → ℤ → Result Interval → Result Interval
divide_singleton i c general =
    if eqb_ℤ c (pos 1)
    then ok i
    else if ltb_ℤ (pos 0) c
    then (do l ← Bound.div i.lb (finite c); u ← Bound.div i.ub (finite c); ok (interval l u))
    else if ltb_ℤ c (pos 0)
    then (do l ← Bound.div i.ub (finite c); u ← Bound.div i.lb (finite c); ok (interval l u))
    else general

unfoldable pub divide_step :
    (Interval → Interval → Result Interval) → Interval → Interval → Result Interval
divide_step rec i x =
    if is_bottom i then ok bottom else if is_bottom x then ok bottom else (elim (singleton x) [
      | some c ↦ divide_singleton i c (divide_general rec i x)
      | none ↦ divide_general rec i x
    ])

unfoldable pub divide : Interval → Interval → Result Interval
divide = divide_step (divide_step (divide_step (λ i x. err Fault.out_of_fuel)))

-- The remainder of two numbers; a division by 0 has no result.
abbrev pub srem_numbers : ℤ → ℤ → Interval
srem_numbers dividend divisor =
    if eqb_ℤ divisor (pos 0) then bottom else of_number (trem dividend divisor)

-- `[-(m - 1), m - 1]`, or the half of it that the sign of the dividend leaves.
unfoldable pub srem_range : Interval → ℤ → Interval
srem_range i m =
    if eqb_ℤ m (pos 0)
    then bottom
    else if Bound.lt i.lb (finite (pos 0))
    then (if Bound.gt i.ub (finite (pos 0))
        then interval (finite (neg_ℤ (m -ℤ pos 1))) (finite (m -ℤ pos 1))
        else interval (finite (neg_ℤ (m -ℤ pos 1))) (finite (pos 0)))
    else interval (finite (pos 0)) (finite (m -ℤ pos 1))

unfoldable pub srem_finite : Interval → Interval → Interval
srem_finite i x =
    if Bound.is_finite x.ub && Bound.is_finite x.lb
    then srem_range i (number_max (number_abs x.lb.n) (number_abs x.ub.n))
    else top

unfoldable pub srem : Interval → Interval → Interval
srem i x = if is_bottom i then bottom else if is_bottom x then bottom else (elim (singleton i) [
  | none ↦ srem_finite i x
  | some dividend ↦ elim (singleton x) [
    | none ↦ srem_finite i x
    | some divisor ↦ srem_numbers dividend divisor
  ]
])

abbrev pub urem_numbers : ℤ → ℤ → Interval
urem_numbers dividend divisor =
    if ltb_ℤ divisor (pos 0)
    then top
    else if eqb_ℤ divisor (pos 0)
    then bottom
    else if ltb_ℤ dividend (pos 0)
    then interval (finite (pos 0)) (finite (divisor -ℤ pos 1))
    else of_number (trem dividend divisor)

unfoldable pub urem_finite : Interval → Interval
urem_finite x =
    if Bound.is_finite x.ub && Bound.is_finite x.lb
    then (if Bound.lt x.lb (finite (pos 0)) || Bound.lt x.ub (finite (pos 0))
        then top
        else if eqb_ℤ x.ub.n (pos 0)
        then bottom
        else interval (finite (pos 0)) (finite (x.ub.n -ℤ pos 1)))
    else top

unfoldable pub urem : Interval → Interval → Interval
urem i x = if is_bottom i then bottom else if is_bottom x then bottom else (elim (singleton i) [
  | none ↦ urem_finite x
  | some dividend ↦ elim (singleton x) [
    | none ↦ urem_finite x
    | some divisor ↦ urem_numbers dividend divisor
  ]
])
