-- ===== src/Linear/Syntax.antt =====
-- The overloaded operators of src/crab/dsl_syntax.hpp on numbers, variables and expressions, and the
-- functions `var_sub` and `var_add` behind them; the products are `term` and `scale`. An overload on `int` converts its
-- argument to a `number_t`, and is the overload on numbers.
use ebpf_verifier.Base.{ℕ, ◌≡◌, refl, ap, ◌∙◌, not, arith}
use ebpf_verifier.Base.Int.{ℤ, pos, negsuc, ◌+ℤ◌, ◌-ℤ◌, leb_ℤ, ltb_ℤ, eqb_ℤ, -ℤ_parts}
use ebpf_verifier.Base.Ring.{+ℤ_comm, one-*ℤ, minus_one-*ℤ, zero--ℤ_add}
use ebpf_verifier.Linear.{
  Expression, number, variable, term, plus, plus_number, plus_variable, minus, minus_number,
  minus_variable,
}
use ebpf_verifier.Linear.Meaning.{
  Valuation, value, value-sums, value-term, value-variable, value-number,
}
use ebpf_verifier.Linear.Constraints.{CstKind, Constraint, constraint}
use ebpf_verifier.Linear.Negation.{holds}

-- The pairs of arguments that the operators take: e is an expression, v a variable, n a number.
pub data Operands : Type 0 where
  en : Expression → ℤ → Operands
  ne : ℤ → Expression → Operands
  ev : Expression → ℕ → Operands
  ve : ℕ → Expression → Operands
  vn : ℕ → ℤ → Operands
  nv : ℤ → ℕ → Operands
  vv : ℕ → ℕ → Operands
  ee : Expression → Expression → Operands

unfoldable pub var_sub_number : ℕ → ℤ → Expression
unfolding variable minus_number
var_sub_number x n = minus_number (variable x) n

unfoldable pub var_sub : ℕ → ℕ → Expression
unfolding variable minus_variable
var_sub x y = minus_variable (variable x) y

unfoldable pub var_add_number : ℕ → ℤ → Expression
unfolding variable plus_number
var_add_number x n = plus_number (variable x) n

unfoldable pub var_add : ℕ → ℕ → Expression
unfolding variable plus_variable
var_add x y = plus_variable (variable x) y

-- `operator+`.
unfoldable pub total : Operands → Expression
total (en e n) = plus_number e n
total (ne n e) = plus_number e n
total (ev e x) = plus_variable e x
total (ve x e) = plus_variable e x
total (vn x n) = plus_number (variable x) n
total (nv n x) = plus_number (variable x) n
total (vv x y) = plus_variable (variable x) y
total (ee e o) = plus e o

-- `operator-`.
unfoldable pub difference : Operands → Expression
difference (en e n) = minus_number e n
difference (ne n e) = minus (number n) e
difference (ev e x) = minus_variable e x
difference (ve x e) = minus (term (pos 1) x) e
difference (vn x n) = var_sub_number x n
difference (nv n x) = plus_number (term (negsuc 0) x) n
difference (vv x y) = minus_variable (variable x) y
difference (ee e o) = minus e o

abbrev swap : Operands → Operands
swap (en e n) = ne n e
swap (ne n e) = en e n
swap (ev e x) = ve x e
swap (ve x e) = ev e x
swap (vn x n) = nv n x
swap (nv n x) = vn x n
swap (vv x y) = vv y x
swap (ee e o) = ee o e

-- Every overload of `<=` and `<` subtracts the second argument from the first, every one of `>=` and
-- `>` the first from the second.
unfoldable pub le : Operands → Constraint
unfolding difference constraint
le p = constraint (difference p) CstKind.inequality

unfoldable pub ge : Operands → Constraint
unfolding difference constraint
ge p = constraint (difference (swap p)) CstKind.inequality

unfoldable pub lt : Operands → Constraint
unfolding difference constraint
lt p = constraint (difference p) CstKind.strict_inequality

unfoldable pub gt : Operands → Constraint
unfolding difference constraint
gt p = constraint (difference (swap p)) CstKind.strict_inequality

-- In `==` and `!=` a number on the left, or a variable in front of an expression, is subtracted
-- from the argument on the right.
abbrev simpler_last : Operands → Operands
simpler_last (ne n e) = en e n
simpler_last (nv n x) = vn x n
simpler_last (ve x e) = ev e x
simpler_last p = p

unfoldable pub eq : Operands → Constraint
unfolding difference constraint
eq p = constraint (difference (simpler_last p)) CstKind.equality

unfoldable pub ne_to : Operands → Constraint
unfolding difference constraint
ne_to p = constraint (difference (simpler_last p)) CstKind.disequation

-- The numbers that the two arguments stand for.
abbrev pub left : Valuation → Operands → ℤ
left σ (en e n) = value σ e
left σ (ne n e) = n
left σ (ev e x) = value σ e
left σ (ve x e) = σ x
left σ (vn x n) = σ x
left σ (nv n x) = n
left σ (vv x y) = σ x
left σ (ee e o) = value σ e

abbrev pub right : Valuation → Operands → ℤ
right σ p = left σ (swap p)

module _ (σ : Valuation) where
  value-total : (p : Operands) → value σ (total p) ≡ left σ p +ℤ right σ p
  unfolding total
  value-total (en e n) = (value-sums σ e e n 0).2
  value-total (ne n e) = (value-sums σ e e n 0).2 ∙ +ℤ_comm _ _
  value-total (ev e x) = (value-sums σ e e (pos 0) x).4
  value-total (ve x e) = (value-sums σ e e (pos 0) x).4 ∙ +ℤ_comm _ _
  value-total (vn x n) =
      (value-sums σ (variable x) (variable x) n 0).2 ∙ ap (λ t. t +ℤ n) (value-variable σ x)
  value-total (nv n x) =
      (value-sums σ (variable x) (variable x) n 0).2
      ∙ ap (λ t. t +ℤ n) (value-variable σ x)
      ∙ +ℤ_comm _ _
  value-total (vv x y) =
      (value-sums σ (variable x) (variable x) (pos 0) y).4 ∙ ap (λ t. t +ℤ σ y) (value-variable σ x)
  value-total (ee e o) = (value-sums σ e o (pos 0) 0).0

  value-difference : (p : Operands) → value σ (difference p) ≡ left σ p -ℤ right σ p
  unfolding difference var_sub_number
  value-difference (en e n) = (value-sums σ e e n 0).3
  value-difference (ne n e) =
      (value-sums σ (number n) e n 0).1 ∙ ap (λ t. t -ℤ value σ e) (value-number σ n)
  value-difference (ev e x) = (value-sums σ e e (pos 0) x).5
  value-difference (ve x e) =
      (value-sums σ (term (pos 1) x) e (pos 0) 0).1
      ∙ ap (λ t. t -ℤ value σ e) (value-term σ (pos 1) x ∙ one-*ℤ (σ x))
  value-difference (vn x n) =
      (value-sums σ (variable x) (variable x) n 0).3 ∙ ap (λ t. t -ℤ n) (value-variable σ x)
  value-difference (nv n x) =
      (value-sums σ (term (negsuc 0) x) (number n) n 0).2
      ∙ ap (λ t. t +ℤ n) (value-term σ (negsuc 0) x ∙ minus_one-*ℤ (σ x))
      ∙ zero--ℤ_add (σ x) n
  value-difference (vv x y) =
      (value-sums σ (variable x) (variable x) (pos 0) y).5 ∙ ap (λ t. t -ℤ σ y) (value-variable σ x)
  value-difference (ee e o) = (value-sums σ e o (pos 0) 0).1

compare-difference :
    (a b : ℤ)
    → (leb_ℤ (a -ℤ b) (pos 0) ≡ leb_ℤ a b)
      × (ltb_ℤ (a -ℤ b) (pos 0) ≡ ltb_ℤ a b)
      × (eqb_ℤ (a -ℤ b) (pos 0) ≡ eqb_ℤ a b)
      × (eqb_ℤ (b -ℤ a) (pos 0) ≡ eqb_ℤ a b)
compare-difference a b = ground (arith, -ℤ_parts a b, -ℤ_parts b a)

-- The equations turn some arguments round.
eqb-simpler_last :
    (σ : Valuation) (p : Operands)
    → eqb_ℤ (value σ (difference (simpler_last p))) (pos 0) ≡ eqb_ℤ (left σ p) (right σ p)
eqb-simpler_last σ p = ap (λ t. eqb_ℤ t (pos 0)) (value-difference σ (simpler_last p)) ∙ turned p
  where
    turned :
        (p : Operands)
        → eqb_ℤ (left σ (simpler_last p) -ℤ right σ (simpler_last p)) (pos 0)
          ≡ eqb_ℤ (left σ p) (right σ p)
    turned (en e n) = (compare-difference _ _).2
    turned (ne n e) = (compare-difference n (value σ e)).3
    turned (ev e x) = (compare-difference _ _).2
    turned (ve x e) = (compare-difference (σ x) (value σ e)).3
    turned (vn x n) = (compare-difference _ _).2
    turned (nv n x) = (compare-difference n (σ x)).3
    turned (vv x y) = (compare-difference _ _).2
    turned (ee e o) = (compare-difference _ _).2

swap-swap : (p : Operands) → swap (swap p) ≡ p
swap-swap (en e n) = refl
swap-swap (ne n e) = refl
swap-swap (ev e x) = refl
swap-swap (ve x e) = refl
swap-swap (vn x n) = refl
swap-swap (nv n x) = refl
swap-swap (vv x y) = refl
swap-swap (ee e o) = refl

-- For all arguments of the overloaded operators and every valuation, a sum and a difference have
-- the sum and the difference of the values of the arguments, and the constraint of each of the six
-- relations holds exactly when these values are so related.
pub operators-hold :
    (σ : Valuation) (p : Operands)
    → (value σ (total p) ≡ left σ p +ℤ right σ p)
      × (value σ (difference p) ≡ left σ p -ℤ right σ p)
      × (holds σ (le p) ≡ leb_ℤ (left σ p) (right σ p))
      × (holds σ (ge p) ≡ leb_ℤ (right σ p) (left σ p))
      × (holds σ (lt p) ≡ ltb_ℤ (left σ p) (right σ p))
      × (holds σ (gt p) ≡ ltb_ℤ (right σ p) (left σ p))
      × (holds σ (eq p) ≡ eqb_ℤ (left σ p) (right σ p))
      × (holds σ (ne_to p) ≡ not (eqb_ℤ (left σ p) (right σ p)))
unfolding holds le ge lt gt eq ne_to
operators-hold σ p = (
  value-total σ p,
  value-difference σ p,
  ap (λ t. leb_ℤ t (pos 0)) (value-difference σ p) ∙ (compare-difference _ _).0,
  ap (λ t. leb_ℤ t (pos 0)) (turned) ∙ (compare-difference _ _).0,
  ap (λ t. ltb_ℤ t (pos 0)) (value-difference σ p) ∙ (compare-difference _ _).1,
  ap (λ t. ltb_ℤ t (pos 0)) (turned) ∙ (compare-difference _ _).1,
  eqb-simpler_last σ p,
  ap not (eqb-simpler_last σ p),
)
  where
    turned : value σ (difference (swap p)) ≡ right σ p -ℤ left σ p
    turned = value-difference σ (swap p) ∙ ap (λ q. right σ p -ℤ left σ q) (swap-swap p)
