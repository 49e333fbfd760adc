-- ===== src/Linear/Constraints.antt =====
-- Linear constraints: the class `linear_constraint_t` of src/crab/linear_constraints.hpp. The exit
-- of CRAB_ERROR is the fault `assertion`; the warning of `is_signed` is not kept.
use ebpf_verifier.Base.{Bool, true, false, not, ◌&&◌, xor, if◌then◌else◌}
use ebpf_verifier.Base.Int.{pos, leb_ℤ, ltb_ℤ, eqb_ℤ}
use ebpf_verifier.Outcome.{Result, ok, err, Fault}
use ebpf_verifier.Linear.{Expression, number, is_constant, equal, minus_number, negative}

pub data CstKind : Type 0 where
  equality disequation inequality strict_inequality : CstKind

pub record Constraint : Type 0 where
  pub kind : CstKind
  pub expr : Expression
  pub signedness : Bool

-- The constructor without a sign.
unfoldable pub constraint : Expression → CstKind → Constraint
constraint e kind = record { kind = kind; expr = e; signedness = true }

-- The constructor with a sign, which only an inequality has.
unfoldable pub signed_constraint : Expression → CstKind → Bool → Result Constraint
signed_constraint e CstKind.inequality signedness =
    ok (record { kind = CstKind.inequality; expr = e; signedness = signedness })
signed_constraint e CstKind.strict_inequality signedness =
    ok (record { kind = CstKind.strict_inequality; expr = e; signedness = signedness })
signed_constraint e CstKind.equality signedness = err Fault.assertion
signed_constraint e CstKind.disequation signedness = err Fault.assertion

unfoldable pub get_true : Constraint
unfolding constraint number
get_true = constraint (number (pos 0)) CstKind.equality

unfoldable pub get_false : Constraint
unfolding constraint number
get_false = constraint (number (pos 0)) CstKind.disequation

unfoldable pub is_tautology : Constraint → Bool
is_tautology c = if not (is_constant c.expr) then false else elim c.kind [
  | CstKind.disequation ↦ not (eqb_ℤ c.expr.cst (pos 0))
  | CstKind.equality ↦ eqb_ℤ c.expr.cst (pos 0)
  | CstKind.inequality ↦ leb_ℤ c.expr.cst (pos 0)
  | CstKind.strict_inequality ↦ ltb_ℤ c.expr.cst (pos 0)
]

unfoldable pub is_contradiction : Constraint → Bool
is_contradiction c = if not (is_constant c.expr) then false else elim c.kind [
  | CstKind.disequation ↦ eqb_ℤ c.expr.cst (pos 0)
  | CstKind.equality ↦ not (eqb_ℤ c.expr.cst (pos 0))
  | CstKind.inequality ↦ ltb_ℤ (pos 0) c.expr.cst
  | CstKind.strict_inequality ↦ leb_ℤ (pos 0) c.expr.cst
]

abbrev same_kind : CstKind → CstKind → Bool
same_kind CstKind.equality CstKind.equality = true
same_kind CstKind.disequation CstKind.disequation = true
same_kind CstKind.inequality CstKind.inequality = true
same_kind CstKind.strict_inequality CstKind.strict_inequality = true
same_kind _ _ = false

unfoldable pub equal_constraint : Constraint → Constraint → Bool
unfolding equal
equal_constraint c o =
    same_kind c.kind o.kind && not (xor c.signedness o.signedness) && equal c.expr o.expr

unfoldable pub negate : Constraint → Result Constraint
unfolding signed_constraint constraint
negate c =
    if is_tautology c
    then ok get_false
    else if is_contradiction c
    then ok get_true
    else elim c.kind [
      | CstKind.inequality ↦
          signed_constraint (negative (minus_number c.expr (pos 1))) CstKind.inequality c.signedness
      | CstKind.strict_inequality ↦
          signed_constraint (negative c.expr) CstKind.inequality c.signedness
      | CstKind.equality ↦ ok (constraint c.expr CstKind.disequation)
      | CstKind.disequation ↦ ok (constraint c.expr CstKind.equality)
    ]
