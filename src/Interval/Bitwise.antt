-- ===== src/Interval/Bitwise.antt =====
-- The bitwise operators and the shifts of src/crab/interval.cpp, with `fill_ones` of
-- src/crab_utils/bignums_gmp.hpp.
use ebpf_verifier.Base.{
  ℕ, zero, suc, ◌+◌, ◌*◌, ◌^◌, Bool, ◌&&◌, ltb, leb, if◌then◌else◌, Option, none, some,
}
use ebpf_verifier.Base.Int.{ℤ, pos, negsuc, ltb_ℤ, nat_abs}
use ebpf_verifier.Base.Bits.{and_ℤ, or_ℤ, xor_ℤ, shift_right}
use ebpf_verifier.Outcome.{Result, ok}
use ebpf_verifier.Bound
use ebpf_verifier.Bound.{Bound, finite, plus_infinity}
use ebpf_verifier.Interval.{Interval, bottom, of_number, interval, top, is_bottom, singleton, mul}
use ebpf_verifier.Interval.Divide.{divide}

-- `for (result = 1; result < n; result = 2 * result + 1)`, on fuel.
unfoldable pub fill_loop : ℕ → ℕ → ℕ → Option ℕ
fill_loop zero n result = none
fill_loop (suc fuel) n result =
    let rest = fill_loop fuel n (2 * result + 1) in if ltb result n then rest else some result

-- The least number of the form 2^k - 1 that is at least `n`; `n` rounds are enough.
unfoldable pub fill_ones : ℕ → Option ℕ
fill_ones n = if ltb 0 n then fill_loop n n 1 else some 0

-- `lb() >= 0 && x.lb() >= 0`.
abbrev both_nonneg : Interval → Interval → Bool
both_nonneg i x = Bound.ge i.lb (finite (pos 0)) && Bound.ge x.lb (finite (pos 0))

unfoldable pub and_bounds : Interval → Interval → Interval
and_bounds i x = if both_nonneg i x then interval (finite (pos 0)) (Bound.min i.ub x.ub) else top

-- Both operands as numbers, if both are singletons.
abbrev singletons : Interval → Interval → Option (ℤ × ℤ)
singletons i x = elim (singleton i) [
  | none ↦ none
  | some a ↦ elim (singleton x) [ none ↦ none | some b ↦ some (a, b) ]
]

unfoldable pub and : Interval → Interval → Interval
and i x =
    if is_bottom i
    then bottom
    else if is_bottom x
    then bottom
    else (elim (singletons i x) [ some (a, b) ↦ of_number (and_ℤ a b) | none ↦ and_bounds i x ])

-- A finite upper bound here is not negative, since both lower bounds are not.
unfoldable pub or_bounds : Interval → Interval → Interval
or_bounds i x =
    if both_nonneg i x
    then (if Bound.is_finite i.ub && Bound.is_finite x.ub
        then (elim (fill_ones (nat_abs (if ltb_ℤ x.ub.n i.ub.n then i.ub.n else x.ub.n))) [
          | some m ↦ interval (finite (pos 0)) (finite (pos m))
          | none ↦ top
        ])
        else interval (finite (pos 0)) plus_infinity)
    else top

unfoldable pub or : Interval → Interval → Interval
or i x =
    if is_bottom i
    then bottom
    else if is_bottom x
    then bottom
    else (elim (singletons i x) [ some (a, b) ↦ of_number (or_ℤ a b) | none ↦ or_bounds i x ])

unfoldable pub xor : Interval → Interval → Interval
xor i x =
    if is_bottom i
    then bottom
    else if is_bottom x
    then bottom
    else (elim (singletons i x) [ some (a, b) ↦ of_number (xor_ℤ a b) | none ↦ or i x ])

-- A shift by a number from 0 to 128, and the answer for any other: `top`.
abbrev pub shift_by : {A : Type 0} → (ℕ → A) → A → Option ℤ → A
shift_by f other none = other
shift_by f other (some (negsuc k)) = other
shift_by f other (some (pos k)) = if leb k 128 then f k else other

-- The loop that doubles `factor` is the power of 2.
unfoldable pub shl : Interval → Interval → Interval
shl i x =
    if is_bottom i
    then bottom
    else if is_bottom x
    then bottom
    else shift_by (λ k. mul i (of_number (pos (2 ^ k)))) top (singleton x)

unfoldable pub ashr : Interval → Interval → Result Interval
ashr i x =
    if is_bottom i
    then ok bottom
    else if is_bottom x
    then ok bottom
    else shift_by (λ k. divide i (of_number (pos (2 ^ k)))) (ok top) (singleton x)

unfoldable pub lshr : Interval → Interval → Interval
lshr i x =
    if is_bottom i
    then bottom
    else if is_bottom x
    then bottom
    else shift_by
        (λ k.
          if Bound.ge i.lb (finite (pos 0)) && Bound.is_finite i.ub
          then interval (finite (shift_right i.lb.n k)) (finite (shift_right i.ub.n k))
          else top)
        top (singleton x)
