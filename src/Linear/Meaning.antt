-- ===== src/Linear/Meaning.antt =====
-- What a linear expression stands for, the number that it has under a valuation of the variables,
-- and that the operators of src/crab/linear_constraints.hpp compute with these numbers.
use ebpf_verifier.Base.{
  ℕ, suc, [], ◌∷◌, ◌≡◌, refl, sym, ◌∙◌, not, ltb, ◌==◌, inl, inr, if◌then◌else◌, Option, none, some,
  Bool-cases, ==_iff,
}
use ebpf_verifier.Base.Int.{ℤ, pos, negsuc, neg_ℤ, ◌+ℤ◌, ◌-ℤ◌, ◌*ℤ◌, eqb_ℤ}
use ebpf_verifier.Base.Ring.{
  +ℤ_distrib, *ℤ_distrib, *ℤ_assoc, neg_ℤ-*ℤ, one-*ℤ, zero-*ℤ, *ℤ-zero, +ℤ_move, +ℤ_assoc, +ℤ_comm,
  +ℤ_swap, +ℤ-zero, zero-+ℤ, +ℤ_cancel, eqb_zero, +ℤ_interchange, -ℤ_interchange, +ℤ-neg_ℤ, +ℤ--ℤ,
  +ℤ_right_comm, -ℤ_right_comm, minus_one-*ℤ,
}
use ebpf_verifier.Linear.{
  Terms, find, assign, erase, insert, add, Expression, number, variable, term, plus_number,
  plus_variable, add_all, plus, minus_number, minus_variable, subtract_all, minus, scale_terms,
  scale, negative,
}
use ebpf_verifier.Linear.Normal.{IsNormal, IsNormalFrom, Below, find-Below, insert-Below, Below-suc}

abbrev pub Valuation : Type 0
Valuation = ℕ → ℤ

unfoldable pub sum : Valuation → Terms → ℤ
sum σ [] = pos 0
sum σ ((x, c) ∷ map) = c *ℤ σ x +ℤ sum σ map

unfoldable pub value : Valuation → Expression → ℤ
unfolding sum
value σ e = sum σ e.map +ℤ e.cst

-- `sum` after each change of a map. No order of the map is needed: a key that is not found is new.
module _ (σ : Valuation) where
  sum-assign :
      (map : Terms) (x : ℕ) (c r : ℤ)
      → find map x ≡ some c
      → sum σ (assign map x r) +ℤ c *ℤ σ x ≡ sum σ map +ℤ r *ℤ σ x
  unfolding find assign sum
  sum-assign [] x c r h = cc
  sum-assign ((y, d) ∷ map) x c r h = elim (Bool-cases (y == x)) [
    | inl e ↦ rw e (cc (+ℤ_swap (r *ℤ σ y) (sum σ map) (c *ℤ σ x), (==_iff y x).0 e, rw e at h))
    | inr e ↦ rw e (
        cc (
          +ℤ_assoc (d *ℤ σ y) (sum σ (assign map x r)) (c *ℤ σ x),
          +ℤ_assoc (d *ℤ σ y) (sum σ map) (r *ℤ σ x),
          sum-assign map x c r (rw e at h),
        ))
  ]

  sum-erase :
      (map : Terms) (x : ℕ) (c : ℤ)
      → find map x ≡ some c
      → sum σ (erase map x) +ℤ c *ℤ σ x ≡ sum σ map
  unfolding find erase sum
  sum-erase [] x c h = cc
  sum-erase ((y, d) ∷ map) x c h = elim (Bool-cases (y == x)) [
    | inl e ↦ rw e (cc (+ℤ_comm (sum σ map) (c *ℤ σ x), (==_iff y x).0 e, rw e at h))
    | inr e ↦
        rw e
          (cc (+ℤ_assoc (d *ℤ σ y) (sum σ (erase map x)) (c *ℤ σ x), sum-erase map x c (rw e at h)))
  ]

  sum-insert :
      (map : Terms) (x : ℕ) (n : ℤ)
      → find map x ≡ none
      → sum σ (insert map x n) ≡ sum σ map +ℤ n *ℤ σ x
  unfolding find insert sum
  sum-insert [] x n h = +ℤ_comm _ _
  sum-insert ((y, d) ∷ map) x n h = elim (Bool-cases (ltb x y)) [
    | inl e ↦ rw e (+ℤ_comm _ _)
    | inr e ↦ elim (Bool-cases (y == x)) [
      | inl e' ↦ cc (rw e' at h)
      | inr e' ↦
          rw (e, e')
            (cc (+ℤ_assoc (d *ℤ σ y) (sum σ map) (n *ℤ σ x), sum-insert map x n (rw e' at h)))
    ]
  ]

  sum-add : (map : Terms) (x : ℕ) (n : ℤ) → sum σ (add map x n) ≡ sum σ map +ℤ n *ℤ σ x
  unfolding add
  sum-add map x n = go (find map x) refl
    where
      go :
          (f : Option ℤ)
          → find map x ≡ f
          → sum σ (elim f [
            | some c ↦ if eqb_ℤ (c +ℤ n) (pos 0) then erase map x else assign map x (c +ℤ n)
            | none ↦ if not (eqb_ℤ n (pos 0)) then insert map x n else map
          ])
            ≡ sum σ map +ℤ n *ℤ σ x
      go none h = elim (Bool-cases (eqb_ℤ n (pos 0))) [
        | inl e ↦ rw e (cc (eqb_zero n e, zero-*ℤ (σ x), +ℤ-zero (sum σ map)))
        | inr e ↦ rw e (sum-insert map x n h)
      ]
      go (some c) h = elim (Bool-cases (eqb_ℤ (c +ℤ n) (pos 0))) [
        | inl e ↦ rw e (
            +ℤ_cancel _ _ (c *ℤ σ x) (c *ℤ σ x)
              (cc (
                sum-erase map x c h,
                +ℤ_assoc (sum σ map) (n *ℤ σ x) (c *ℤ σ x),
                +ℤ_comm (n *ℤ σ x) (c *ℤ σ x),
                +ℤ_distrib c n (σ x),
                eqb_zero (c +ℤ n) e,
                zero-*ℤ (σ x),
                +ℤ-zero (sum σ map),
              ))
              refl)
        | inr e ↦ rw e (
            +ℤ_cancel _ _ (c *ℤ σ x) (c *ℤ σ x)
              (cc (
                sum-assign map x c (c +ℤ n) h,
                +ℤ_assoc (sum σ map) (n *ℤ σ x) (c *ℤ σ x),
                +ℤ_comm (n *ℤ σ x) (c *ℤ σ x),
                +ℤ_distrib c n (σ x),
              ))
              refl)
      ]

  sum-add_all : (map r : Terms) → sum σ (add_all map r) ≡ sum σ map +ℤ sum σ r
  unfolding add_all sum
  sum-add_all map [] = sym (+ℤ-zero _)
  sum-add_all map ((k, v) ∷ r) =
      cc (sum-add_all (add map k v) r, sum-add map k v, +ℤ_assoc (sum σ map) (v *ℤ σ k) (sum σ r))

  scaled :
      (n c : ℤ) (k : ℕ) (r : Terms) → n *ℤ (c *ℤ σ k +ℤ sum σ r) ≡ (n *ℤ c) *ℤ σ k +ℤ n *ℤ sum σ r
  scaled n c k r = cc (*ℤ_distrib n (c *ℤ σ k) (sum σ r), *ℤ_assoc n c (σ k))

  sum-subtract_all : (map r : Terms) → sum σ (subtract_all map r) +ℤ sum σ r ≡ sum σ map
  unfolding subtract_all sum
  sum-subtract_all map [] = +ℤ-zero _
  sum-subtract_all map ((k, v) ∷ r) =
      +ℤ_move (sum σ (subtract_all (add map k (neg_ℤ v)) r)) (sum σ r) (sum σ map) (v *ℤ σ k)
        (neg_ℤ v *ℤ σ k) (sum-subtract_all (add map k (neg_ℤ v)) r ∙ sum-add map k (neg_ℤ v))
        (neg_ℤ-*ℤ v (σ k))

  -- The product walks an ascending map, so that every key is new to the map that it makes.
  sum-scale_terms :
      (n : ℤ) (b : ℕ) (map r : Terms)
      → Below map b
      → IsNormalFrom b r
      → sum σ (scale_terms n map r) ≡ sum σ map +ℤ n *ℤ sum σ r
  unfolding scale_terms sum
  sum-scale_terms n b map [] h v = cc (*ℤ-zero n, +ℤ-zero (sum σ map))
  sum-scale_terms n b map ((k, c) ∷ r) h v = elim (Bool-cases (eqb_ℤ (n *ℤ c) (pos 0))) [
    | inl e ↦ rw e (
        cc (
          sum-scale_terms n (suc k) map r (Below-suc map b k h v.0) v.2,
          scaled n c k r,
          eqb_zero (n *ℤ c) e,
          zero-*ℤ (σ k),
          zero-+ℤ (n *ℤ sum σ r),
        ))
    | inr e ↦ rw e (
        cc (
          sum-scale_terms n (suc k) (insert map k (n *ℤ c)) r (insert-Below map b k (n *ℤ c) h v.0)
              v.2,
          sum-insert map k (n *ℤ c) (find-Below map b k h v.0),
          scaled n c k r,
          +ℤ_assoc (sum σ map) ((n *ℤ c) *ℤ σ k) (n *ℤ sum σ r),
        ))
  ]

  value-scale : (e : Expression) (n : ℤ) → IsNormal e → value σ (scale e n) ≡ n *ℤ value σ e
  unfolding value scale number sum
  value-scale e n v = elim (Bool-cases (eqb_ℤ n (pos 0))) [
    | inl z ↦ rw z (cc (eqb_zero n z, zero-*ℤ (sum σ e.map +ℤ e.cst), zero-+ℤ (pos 0)))
    | inr z ↦ rw z (
        cc (
          sum-scale_terms n 0 [] e.map tt v,
          zero-+ℤ (n *ℤ sum σ e.map),
          *ℤ_distrib n (sum σ e.map) e.cst,
        ))
  ]

  -- Sums and differences, of any expressions.
  pub value-sums :
      (e o : Expression) (n : ℤ) (x : ℕ)
      → (value σ (plus e o) ≡ value σ e +ℤ value σ o)
        × (value σ (minus e o) ≡ value σ e -ℤ value σ o)
        × (value σ (plus_number e n) ≡ value σ e +ℤ n)
        × (value σ (minus_number e n) ≡ value σ e -ℤ n)
        × (value σ (plus_variable e x) ≡ value σ e +ℤ σ x)
        × (value σ (minus_variable e x) ≡ value σ e -ℤ σ x)
  unfolding value plus minus plus_number minus_number plus_variable minus_variable
  value-sums e o n x = (
    rw (sum-add_all e.map o.map) (+ℤ_interchange _ _ _ _),
    -ℤ_interchange _ _ _ _ _ (sum-subtract_all e.map o.map),
    sym (+ℤ_assoc _ _ _),
    rw (+ℤ-neg_ℤ e.cst n) (+ℤ--ℤ _ _ _),
    rw (sum-add e.map x (pos 1), one-*ℤ (σ x)) (+ℤ_right_comm _ _ _),
    rw (sum-add e.map x (negsuc 0), minus_one-*ℤ (σ x)) (-ℤ_right_comm _ _ _),
  )

  -- A term and a variable.
  pub value-term : (n : ℤ) (x : ℕ) → value σ (term n x) ≡ n *ℤ σ x
  unfolding value sum term
  value-term n x = +ℤ-zero _ ∙ +ℤ-zero _

  pub value-variable : (x : ℕ) → value σ (variable x) ≡ σ x
  unfolding value sum variable
  value-variable x = +ℤ-zero _ ∙ +ℤ-zero _ ∙ one-*ℤ (σ x)

  pub value-number : (n : ℤ) → value σ (number n) ≡ n
  unfolding value sum number
  value-number n = zero-+ℤ n

  -- The operators of linear expressions refine the operations on their values, under every
  -- valuation: sums and differences with an expression, a number and a variable, the product of a
  -- normal expression with a number, and its negation.
  pub value-operators :
      (e o : Expression) (n : ℤ) (x : ℕ)
      → IsNormal e
      → (value σ (plus e o) ≡ value σ e +ℤ value σ o)
        × (value σ (minus e o) ≡ value σ e -ℤ value σ o)
        × (value σ (plus_number e n) ≡ value σ e +ℤ n)
        × (value σ (minus_number e n) ≡ value σ e -ℤ n)
        × (value σ (plus_variable e x) ≡ value σ e +ℤ σ x)
        × (value σ (minus_variable e x) ≡ value σ e -ℤ σ x)
        × (value σ (scale e n) ≡ n *ℤ value σ e)
        × (value σ (negative e) ≡ pos 0 -ℤ value σ e)
  unfolding negative
  value-operators e o n x v =
      let (a, b, c, d, f, g) = value-sums e o n x in
      (a, b, c, d, f, g, value-scale e n v, value-scale e (negsuc 0) v ∙ minus_one-*ℤ _)
