-- ===== src/Linear.antt =====
-- Linear expressions: the class `linear_expression_t` of src/crab/linear_constraints.hpp. A
-- `variable_t` is its identifier, and the flat map from variables to coefficients is a list in
-- ascending order of the variables.
pub mod Normal
pub mod Meaning
pub mod Equality
pub mod Constraints
pub mod Negation
pub mod Syntax
use ebpf_verifier.Base.{
  ℕ, List, [], ◌∷◌, Bool, true, false, not, ◌&&◌, ltb, ◌==◌, if◌then◌else◌, Option, none, some,
  length,
}
use ebpf_verifier.Base.Int.{ℤ, pos, negsuc, neg_ℤ, ◌+ℤ◌, ◌-ℤ◌, ◌*ℤ◌, eqb_ℤ}

abbrev pub Terms : Type 0
Terms = List (ℕ × ℤ)

unfoldable pub find : Terms → ℕ → Option ℤ
find [] x = none
find ((y, c) ∷ map) x = if y == x then some c else find map x

-- `it->second = r`, at the place that `find` gives.
unfoldable pub assign : Terms → ℕ → ℤ → Terms
assign [] x r = []
assign ((y, c) ∷ map) x r = if y == x then (y, r) ∷ map else (y, c) ∷ assign map x r

unfoldable pub erase : Terms → ℕ → Terms
erase [] x = []
erase ((y, c) ∷ map) x = if y == x then map else (y, c) ∷ erase map x

-- An insertion leaves a key that is there already as it is.
unfoldable pub insert : Terms → ℕ → ℤ → Terms
insert [] x n = (x, n) ∷ []
insert ((y, c) ∷ map) x n =
    if ltb x y
    then (x, n) ∷ (y, c) ∷ map
    else if y == x
    then (y, c) ∷ map
    else (y, c) ∷ insert map x n

unfoldable pub add : Terms → ℕ → ℤ → Terms
add map x n = elim (find map x) [
  | some c ↦ if eqb_ℤ (c +ℤ n) (pos 0) then erase map x else assign map x (c +ℤ n)
  | none ↦ if not (eqb_ℤ n (pos 0)) then insert map x n else map
]

pub record Expression : Type 0 where
  pub map : Terms
  pub cst : ℤ

-- The constructors: of a constant, of a variable, of a variable with a coefficient.
unfoldable pub number : ℤ → Expression
number n = record { map = []; cst = n }

unfoldable pub variable : ℕ → Expression
variable x = record { map = (x, pos 1) ∷ []; cst = pos 0 }

unfoldable pub term : ℤ → ℕ → Expression
term n x = record { map = (x, n) ∷ []; cst = pos 0 }

abbrev pub is_constant : Expression → Bool
is_constant e = elim e.map [ [] ↦ true | _ ∷ _ ↦ false ]

-- The loop of `equal`, which walks both maps at once.
unfoldable pub equal_terms : Terms → Terms → Bool
equal_terms [] _ = true
equal_terms (_ ∷ _) [] = false
equal_terms ((x, c) ∷ map) ((y, d) ∷ map') = (x == y) && eqb_ℤ c d && equal_terms map map'

unfoldable pub equal : Expression → Expression → Bool
unfolding equal_terms
equal e o =
    if is_constant e
    then is_constant o && eqb_ℤ e.cst o.cst
    else if not (eqb_ℤ e.cst o.cst && length e.map == length o.map)
    then false
    else equal_terms e.map o.map

unfoldable pub coefficient : Expression → ℕ → ℤ
unfolding find
coefficient e x = elim (find e.map x) [ some c ↦ c | none ↦ pos 0 ]

unfoldable pub plus_number : Expression → ℤ → Expression
plus_number e n = record { map = e.map; cst = e.cst +ℤ n }

unfoldable pub plus_variable : Expression → ℕ → Expression
unfolding add
plus_variable e x = record { map = add e.map x (pos 1); cst = e.cst }

unfoldable pub add_all : Terms → Terms → Terms
unfolding add
add_all map [] = map
add_all map ((k, v) ∷ r) = add_all (add map k v) r

unfoldable pub plus : Expression → Expression → Expression
unfolding add_all
plus e o = record { map = add_all e.map o.map; cst = e.cst +ℤ o.cst }

unfoldable pub minus_number : Expression → ℤ → Expression
unfolding plus_number
minus_number e n = plus_number e (neg_ℤ n)

unfoldable pub minus_variable : Expression → ℕ → Expression
unfolding add
minus_variable e x = record { map = add e.map x (negsuc 0); cst = e.cst }

unfoldable pub subtract_all : Terms → Terms → Terms
unfolding add
subtract_all map [] = map
subtract_all map ((k, v) ∷ r) = subtract_all (add map k (neg_ℤ v)) r

unfoldable pub minus : Expression → Expression → Expression
unfolding subtract_all
minus e o = record { map = subtract_all e.map o.map; cst = e.cst -ℤ o.cst }

-- The loop of the product, on the map that is made and the terms that are left.
unfoldable pub scale_terms : ℤ → Terms → Terms → Terms
unfolding insert
scale_terms n map [] = map
scale_terms n map ((k, v) ∷ r) =
    scale_terms n (if not (eqb_ℤ (n *ℤ v) (pos 0)) then insert map k (n *ℤ v) else map) r

unfoldable pub scale : Expression → ℤ → Expression
unfolding scale_terms number
scale e n =
    if eqb_ℤ n (pos 0)
    then number (pos 0)
    else record { map = scale_terms n [] e.map; cst = n *ℤ e.cst }

unfoldable pub negative : Expression → Expression
unfolding scale
negative e = scale e (negsuc 0)
