-- ===== src/Examples/Numeric.antt =====
-- Expressions, constraints and bit sets on which the theorems on src/crab/linear_constraints.hpp,
-- src/crab/dsl_syntax.hpp, src/crab/bitset_domain.hpp and src/crab/thresholds.cpp are applied.
use ebpf_verifier.Base.{
  length, ℕ, ◌*◌, ◌≤◌, ◌<◌, ◌≡◌, ◌↔◌, refl, Bool, true, false, not, ◌&&◌, ◌||◌, leb, ltb,
  if◌then◌else◌, [], ◌∷◌, arith,
}
use ebpf_verifier.Base.Int.{pos, negsuc, ◌+ℤ◌, ◌-ℤ◌, ◌*ℤ◌, leb_ℤ, ltb_ℤ, eqb_ℤ}
use ebpf_verifier.Outcome.{ok, err, Fault}
use ebpf_verifier.Linear.{
  Expression, equal, plus, minus, plus_number, minus_number, plus_variable, minus_variable, scale,
  negative,
}
use ebpf_verifier.Linear.Normal.{IsNormal}
use ebpf_verifier.Linear.Meaning.{Valuation, value, value-operators}
use ebpf_verifier.Linear.Equality.{equal-value_iff}
use ebpf_verifier.Linear.Constraints.{CstKind, Constraint, negate}
use ebpf_verifier.Linear.Negation.{holds, holds-negate}
use ebpf_verifier.Linear.Syntax.{
  Operands, total, difference, le, ge, lt, gt, eq, ne_to, left, right, operators-hold,
}
use ebpf_verifier.Bitset
use ebpf_verifier.Bitset.{
  Bits, stack_size, fill, set_to_top, set_to_bottom, join, meet, widen, narrow, bits_eq, is_top,
  reset, havoc, uniformity,
}
use ebpf_verifier.Bitset.Sets.{contains, IsWf, Includes, Same, Full, lattice-refines_sets}
use ebpf_verifier.Bitset.Ranges.{reset-havoc_ranges, uniformity_lem}
use ebpf_verifier.Bound.{finite}
use ebpf_verifier.Bound.Order.{number}
use ebpf_verifier.Thresholds.{Thresholds, new_thresholds, has_bound, add}
use ebpf_verifier.Thresholds.Between.{IsSorted}
use ebpf_verifier.Thresholds.Sorted.{add-IsSorted, new_thresholds-IsSorted}

-- 2 * x1 - 3 * x4 + 7, and x1 - x2.
abbrev first : Expression
first = record { map = (1, pos 2) ∷ (4, negsuc 2) ∷ []; cst = pos 7 }

abbrev second : Expression
second = record { map = (1, pos 1) ∷ (2, negsuc 0) ∷ []; cst = pos 0 }

abbrev squares : Valuation
squares x = pos (x * x)

first-IsNormal : IsNormal first
first-IsNormal = ground arith

second-IsNormal : IsNormal second
second-IsNormal = ground arith

value-operators_example :
    (value squares (plus first second) ≡ value squares first +ℤ value squares second)
    × (value squares (minus first second) ≡ value squares first -ℤ value squares second)
    × (value squares (plus_number first (pos 4)) ≡ value squares first +ℤ pos 4)
    × (value squares (minus_number first (pos 4)) ≡ value squares first -ℤ pos 4)
    × (value squares (plus_variable first 4) ≡ value squares first +ℤ squares 4)
    × (value squares (minus_variable first 4) ≡ value squares first -ℤ squares 4)
    × (value squares (scale first (pos 4)) ≡ pos 4 *ℤ value squares first)
    × (value squares (negative first) ≡ pos 0 -ℤ value squares first)
value-operators_example = value-operators squares first second (pos 4) 4 first-IsNormal

equal-value_iff_example :
    (equal first second ≡ true) ↔ ((σ : Valuation) → value σ first ≡ value σ second)
equal-value_iff_example = equal-value_iff first second first-IsNormal second-IsNormal

abbrev below : Constraint
below = record { kind = CstKind.inequality; expr = first; signedness = true }

holds-negate_example :
    (d : Constraint) × (negate below ≡ ok d)
    × (d.signedness ≡ true)
    × IsNormal d.expr
    × ((σ : Valuation) → holds σ d ≡ not (holds σ below))
holds-negate_example = holds-negate below first-IsNormal refl

abbrev operands : Operands
operands = Operands.ne (pos 3) first

operators-hold_example :
    (value squares (total operands) ≡ left squares operands +ℤ right squares operands)
    × (value squares (difference operands) ≡ left squares operands -ℤ right squares operands)
    × (holds squares (le operands) ≡ leb_ℤ (left squares operands) (right squares operands))
    × (holds squares (ge operands) ≡ leb_ℤ (right squares operands) (left squares operands))
    × (holds squares (lt operands) ≡ ltb_ℤ (left squares operands) (right squares operands))
    × (holds squares (gt operands) ≡ ltb_ℤ (right squares operands) (left squares operands))
    × (holds squares (eq operands) ≡ eqb_ℤ (left squares operands) (right squares operands))
    × (holds squares (ne_to operands)
        ≡ not (eqb_ℤ (left squares operands) (right squares operands)))
operators-hold_example = operators-hold squares operands

set_to_top-IsWf : IsWf set_to_top
unfolding set_to_top
set_to_top-IsWf = refl

set_to_bottom-IsWf : IsWf set_to_bottom
unfolding set_to_bottom
set_to_bottom-IsWf = refl

lattice-refines_sets_example :
    ((i : ℕ)
      → contains (join set_to_top set_to_bottom) i
        ≡ (contains set_to_top i || contains set_to_bottom i))
    × ((i : ℕ)
        → contains (meet set_to_top set_to_bottom) i
          ≡ (contains set_to_top i && contains set_to_bottom i))
    × ((i : ℕ)
        → contains (widen set_to_top set_to_bottom) i
          ≡ (contains set_to_top i || contains set_to_bottom i))
    × ((i : ℕ)
        → contains (narrow set_to_top set_to_bottom) i
          ≡ (contains set_to_top i && contains set_to_bottom i))
    × ((i : ℕ) → i < stack_size → contains set_to_top i ≡ true)
    × ((i : ℕ) → contains set_to_bottom i ≡ false)
    × ((Bitset.le set_to_top set_to_bottom ≡ true) ↔ Includes set_to_top set_to_bottom)
    × ((bits_eq set_to_top set_to_bottom ≡ true) ↔ Same set_to_top set_to_bottom)
    × ((is_top set_to_top ≡ true) ↔ Full set_to_top)
lattice-refines_sets_example =
    lattice-refines_sets set_to_top set_to_bottom set_to_top-IsWf set_to_bottom-IsWf

-- A range of four bytes that starts two bytes before the end of the stack.
reset-havoc_ranges_example :
    let within = λ (i : ℕ). leb 510 i && ltb i 514 && ltb i stack_size in
    IsWf (reset set_to_top 510 (pos 4)).0
    × IsWf (havoc set_to_top 510 (pos 4)).0
    × ((i : ℕ)
        → contains (reset set_to_top 510 (pos 4)).0 i
          ≡ (if within i then false else contains set_to_top i))
    × ((i : ℕ)
        → contains (havoc set_to_top 510 (pos 4)).0 i
          ≡ (if within i then true else contains set_to_top i))
    × ((reset set_to_top 510 (pos 4)).1 ≡ err Fault.out_of_range)
    × ((havoc set_to_top 510 (pos 4)).1 ≡ err Fault.out_of_range)
reset-havoc_ranges_example = reset-havoc_ranges set_to_top 510 (pos 4) set_to_top-IsWf (omega arith)

uniformity_lem_example :
    (only_num only_non_num : Bool) × (uniformity set_to_top 8 (pos 8) ≡ ok (only_num, only_non_num))
    × ((only_num ≡ true) ↔ ((i : ℕ) → 8 ≤ i → i < 16 → contains set_to_top i ≡ false))
    × ((only_non_num ≡ true) ↔ ((i : ℕ) → 8 ≤ i → i < 16 → contains set_to_top i ≡ true))
uniformity_lem_example = uniformity_lem set_to_top 8 (pos 8) set_to_top-IsWf (omega arith)

-- Room for a fourth threshold, which takes the place of 0.
add-IsSorted_example :
    let t = new_thresholds 4 in
    (t' : Thresholds) × (add (finite (pos 1)) t ≡ ok t')
    × IsSorted t'.thresholds
    × (length t.thresholds ≤ t.size → length t'.thresholds ≤ t'.size)
    × (length t.thresholds < t.size → has_bound (finite (pos 1)) t'.thresholds ≡ true)
add-IsSorted_example = add-IsSorted (new_thresholds 4) (number (pos 1)) (new_thresholds-IsSorted 4)
