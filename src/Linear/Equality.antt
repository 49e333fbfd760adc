-- ===== src/Linear/Equality.antt =====
-- The syntactic equality of linear expressions, `equal` of src/crab/linear_constraints.hpp.
use ebpf_verifier.Base.{
  ℕ, suc, [], ◌∷◌, ◌≡◌, ◌≢◌, ◌↔◌, refl, ap, sym, subst, ◌∙◌, true, false, ltb, ◌==◌, inl, inr, ◌<◌,
  if◌then◌else◌, Bool-cases, arith, length,
}
use ebpf_verifier.Base.Int.{ℤ, pos, ◌+ℤ◌, eq_of_parts}
use ebpf_verifier.Base.Ring.{one-*ℤ, *ℤ-zero, zero-+ℤ, +ℤ-zero, +ℤ_cancel}
use ebpf_verifier.Base.Product.{*ℤ_comm}
use ebpf_verifier.Linear.{Terms, Expression, equal_terms, equal}
use ebpf_verifier.Linear.Normal.{IsNormal, IsNormalFrom}
use ebpf_verifier.Linear.Meaning.{Valuation, sum, value}

-- 1 at one variable, and 0 elsewhere.
indicator : ℕ → Valuation
indicator k y = if y == k then pos 1 else pos 0

self : (k : ℕ) → (k == k) ≡ true
self k = ground arith

other : (y k : ℕ) → y ≢ k → (y == k) ≡ false
other y k h = ground arith

sum-indicator_head :
    (k : ℕ) (c : ℤ) (map : Terms) → sum (indicator k) ((k, c) ∷ map) ≡ c +ℤ sum (indicator k) map
unfolding sum indicator
sum-indicator_head k c map =
    rw (self k) (ap (λ t. t +ℤ sum (indicator k) map) (*ℤ_comm c (pos 1) ∙ one-*ℤ c))

sum-indicator_tail :
    (k y : ℕ) (c : ℤ) (map : Terms)
    → y ≢ k
    → sum (indicator k) ((y, c) ∷ map) ≡ sum (indicator k) map
unfolding sum indicator
sum-indicator_tail k y c map h = rw (other y k h) (cc (*ℤ-zero c, zero-+ℤ (sum (indicator k) map)))

sum-indicator_below :
    (k b : ℕ) (map : Terms) → k < b → IsNormalFrom b map → sum (indicator k) map ≡ pos 0
unfolding sum
sum-indicator_below k b [] h v = refl
sum-indicator_below k b ((y, c) ∷ map) h v =
    sum-indicator_tail k y c map (omega arith) ∙ sum-indicator_below k (suc y) map (omega arith) v.2

tail_eq :
    (x : ℕ) (c d : ℤ) (map map' : Terms)
    → IsNormalFrom (suc x) map
    → IsNormalFrom (suc x) map'
    → ((k : ℕ) → sum (indicator k) ((x, c) ∷ map) ≡ sum (indicator k) ((x, d) ∷ map'))
    → (k : ℕ) → sum (indicator k) map ≡ sum (indicator k) map'
tail_eq x c d map map' v v' h k = elim (Bool-cases (ltb k (suc x))) [
  | inl e ↦
      sum-indicator_below k (suc x) map (ground arith) v
      ∙ sym (sum-indicator_below k (suc x) map' (ground arith) v')
  | inr e ↦
      sym (sum-indicator_tail k x c map (ground arith))
      ∙ h k
      ∙ sum-indicator_tail k x d map' (ground arith)
]

-- The first coefficient is the value at the indicator of the first variable.
head_eq :
    (x : ℕ) (c : ℤ) (map : Terms) → IsNormalFrom (suc x) map → sum (indicator x) ((x, c) ∷ map) ≡ c
head_eq x c map v =
    sum-indicator_head x c map
    ∙ ap (λ t. c +ℤ t) (sum-indicator_below x (suc x) map (omega arith) v)
    ∙ +ℤ-zero c

-- A first variable that the other map does not have would have the coefficient 0.
first_missing :
    (x : ℕ) (c : ℤ) (map other : Terms) (b : ℕ)
    → c ≢ pos 0
    → IsNormalFrom (suc x) map
    → x < b
    → IsNormalFrom b other
    → sum (indicator x) ((x, c) ∷ map) ≢ sum (indicator x) other
first_missing x c map other b h v p w e =
    h (sym (head_eq x c map v) ∙ e ∙ sum-indicator_below x b other p w)

same_terms :
    (b b' : ℕ) (map map' : Terms)
    → IsNormalFrom b map
    → IsNormalFrom b' map'
    → ((k : ℕ) → sum (indicator k) map ≡ sum (indicator k) map')
    → map ≡ map'
same_terms b b' [] [] v v' h = refl
same_terms b b' [] ((y, d) ∷ map') v v' h =
    absurd (first_missing y d map' [] (suc y) v'.1 v'.2 (omega arith) tt (sym (h y)))
same_terms b b' ((x, c) ∷ map) [] v v' h =
    absurd (first_missing x c map [] (suc x) v.1 v.2 (omega arith) tt (h x))
same_terms b b' ((x, c) ∷ map) ((y, d) ∷ map') v v' h = elim (Bool-cases (ltb x y)) [
  | inl e ↦ absurd (
      first_missing x c map ((y, d) ∷ map') y v.1 v.2 (ground arith) ((omega arith), v'.1, v'.2)
        (h x))
  | inr e ↦ elim (Bool-cases (ltb y x)) [
    | inl e' ↦ absurd (
        first_missing y d map' ((x, c) ∷ map) x v'.1 v'.2 (ground arith) ((omega arith), v.1, v.2)
          (sym (h y)))
    | inr e' ↦
        let p : y ≡ x = ground arith in
        let w = subst (λ t. IsNormalFrom (suc t) map') p v'.2 in
        let g =
          subst
            (λ t. (k : ℕ) → sum (indicator k) ((x, c) ∷ map) ≡ sum (indicator k) ((t, d) ∷ map')) p
            h in
        let q : c ≡ d = sym (head_eq x c map v.2) ∙ g x ∙ head_eq x d map' w in
        cc (p, q, same_terms (suc x) (suc x) map map' v.2 w (tail_eq x c d map map' v.2 w g))
  ]
]

sum-zero : (map : Terms) → sum (λ _. pos 0) map ≡ pos 0
unfolding sum
sum-zero [] = refl
sum-zero ((x, c) ∷ map) = rw (*ℤ-zero c, sum-zero map) (+ℤ-zero (pos 0))

equal_terms_self : (map : Terms) → equal_terms map map ≡ true
unfolding equal_terms
equal_terms_self [] = refl
equal_terms_self ((x, c) ∷ map) = ground (arith, equal_terms_self map)

eq_of_equal_terms :
    (map map' : Terms) → length map ≡ length map' → equal_terms map map' ≡ true → map ≡ map'
unfolding equal_terms
eq_of_equal_terms [] [] l h = refl
eq_of_equal_terms [] (_ ∷ _) l h = absurd (omega arith)
eq_of_equal_terms (_ ∷ _) [] l h = cc
eq_of_equal_terms ((x, c) ∷ map) ((y, d) ∷ map') l h =
    ground (arith, eq_of_parts c d, eq_of_equal_terms map map' (omega arith))

make : Terms → ℤ → Expression
make map cst = record { map = map; cst = cst }

eq_of_equal :
    (map map' : Terms) (a b : ℤ)
    → equal (make map a) (make map' b) ≡ true
    → make map a ≡ make map' b
unfolding equal make
eq_of_equal [] [] a b h = ground (arith, eq_of_parts a b)
eq_of_equal [] (_ ∷ _) a b h = cc
eq_of_equal (t ∷ map) map' a b h = ground (arith, eq_of_parts a b, eq_of_equal_terms (t ∷ map) map')

equal_self : (map : Terms) (a : ℤ) → equal (make map a) (make map a) ≡ true
unfolding equal make
equal_self [] a = ground arith
equal_self (t ∷ map) a = ground (arith, equal_terms_self (t ∷ map))

-- On normal expressions `equal` holds exactly when the two expressions have the same value under
-- every valuation.
pub equal-value_iff :
    (e o : Expression)
    → IsNormal e
    → IsNormal o
    → (equal e o ≡ true) ↔ ((σ : Valuation) → value σ e ≡ value σ o)
unfolding value make
equal-value_iff e o v w = (
  λ h σ. ap (value σ) (eq_of_equal e.map o.map e.cst o.cst h),
  λ h.
      let csts : e.cst ≡ o.cst =
        sym (zero-+ℤ e.cst)
        ∙ ap (λ t. t +ℤ e.cst) (sym (sum-zero e.map))
        ∙ h (λ _. pos 0)
        ∙ ap (λ t. t +ℤ o.cst) (sum-zero o.map)
        ∙ zero-+ℤ o.cst in
      let maps : e.map ≡ o.map =
        same_terms 0 0 e.map o.map v w (λ k. +ℤ_cancel _ _ e.cst o.cst (h (indicator k)) csts) in
      subst (λ (t : Expression). equal e t ≡ true) (λ i. make (maps i) (csts i))
        (equal_self e.map e.cst),
)
