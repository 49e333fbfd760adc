-- ===== src/Linear/Normal.antt =====
-- The maps that the class `linear_expression_t` of src/crab/linear_constraints.hpp keeps: strictly
-- ascending, with no coefficient 0.
use ebpf_verifier.Base.{
  ℕ, suc, [], ◌∷◌, ◌≡◌, ◌≢◌, refl, false, not, ltb, ◌==◌, inl, inr, ◌≤◌, ◌<◌, if◌then◌else◌, Option,
  none, some, Bool-cases, arith, All,
}
use ebpf_verifier.Base.Int.{ℤ, pos, negsuc, neg_ℤ, ◌+ℤ◌, ◌*ℤ◌, eqb_ℤ}
use ebpf_verifier.Linear.{
  Terms, find, assign, erase, insert, add, Expression, number, plus_number, plus_variable, add_all,
  plus, minus_number, minus_variable, subtract_all, minus, scale_terms, scale, negative,
}

-- Ascending, with every key at least `b` and every coefficient different from 0.
abbrev pub IsNormalFrom : ℕ → Terms → Type 0
IsNormalFrom b [] = Unit {0}
IsNormalFrom b ((x, c) ∷ map) = (b ≤ x) × (c ≢ pos 0) × IsNormalFrom (suc x) map

abbrev pub IsNormal : Expression → Type 0
IsNormal e = IsNormalFrom 0 e.map

-- A key past all keys of a map is not found, and stays below the next one.
abbrev pub Below : Terms → ℕ → Type 0
Below map b = All (λ t. t.0 < b) map

pub find-Below : (map : Terms) (b x : ℕ) → Below map b → b ≤ x → find map x ≡ none
unfolding find
find-Below [] b x h p = refl
find-Below ((y, c) ∷ map) b x h p = ground (arith, find-Below map b x)

Below-le : (map : Terms) (b b' : ℕ) → b ≤ b' → Below map b → Below map b'
Below-le [] b b' p h = tt
Below-le ((y, c) ∷ map) b b' p h = (omega arith, Below-le map b b' p h.1)

pub insert-Below :
    (map : Terms) (b x : ℕ) (n : ℤ) → Below map b → b ≤ x → Below (insert map x n) (suc x)
unfolding insert
insert-Below [] b x n h p = (omega arith, tt)
insert-Below ((y, c) ∷ map) b x n h p = elim (Bool-cases (ltb x y)) [
  | inl e ↦ absurd (ground arith)
  | inr e ↦ elim (Bool-cases (y == x)) [
    | inl e' ↦ absurd (ground arith)
    | inr e' ↦ rw (e, e') (omega arith, insert-Below map b x n h.1 p)
  ]
]

pub Below-suc : (map : Terms) (b x : ℕ) → Below map b → b ≤ x → Below map (suc x)
Below-suc map b x h p = Below-le map b (suc x) (omega arith) h

IsNormalFrom-le : {b b' : ℕ} (map : Terms) → b' ≤ b → IsNormalFrom b map → IsNormalFrom b' map
IsNormalFrom-le [] h v = tt
IsNormalFrom-le ((x, c) ∷ map) h v = (omega arith, v.1, v.2)

pub ne_of_eqb : (a : ℤ) → eqb_ℤ a (pos 0) ≡ false → a ≢ pos 0
ne_of_eqb a h = λ e. cc (rw e at h)

assign-IsNormal :
    (b : ℕ) (map : Terms) (x : ℕ) (r : ℤ)
    → r ≢ pos 0
    → IsNormalFrom b map
    → IsNormalFrom b (assign map x r)
unfolding assign
assign-IsNormal b [] x r h v = tt
assign-IsNormal b ((y, c) ∷ map) x r h v = elim (Bool-cases (y == x)) [
  | inl e ↦ rw e (v.0, h, v.2)
  | inr e ↦ rw e (v.0, v.1, assign-IsNormal (suc y) map x r h v.2)
]

erase-IsNormal : (b : ℕ) (map : Terms) (x : ℕ) → IsNormalFrom b map → IsNormalFrom b (erase map x)
unfolding erase
erase-IsNormal b [] x v = tt
erase-IsNormal b ((y, c) ∷ map) x v = elim (Bool-cases (y == x)) [
  | inl e ↦ rw e (IsNormalFrom-le map (omega arith) v.2)
  | inr e ↦ rw e (v.0, v.1, erase-IsNormal (suc y) map x v.2)
]

insert-IsNormal :
    (b : ℕ) (map : Terms) (x : ℕ) (n : ℤ)
    → n ≢ pos 0
    → b ≤ x
    → IsNormalFrom b map
    → IsNormalFrom b (insert map x n)
unfolding insert
insert-IsNormal b [] x n h p v = (p, h, tt)
insert-IsNormal b ((y, c) ∷ map) x n h p v = elim (Bool-cases (ltb x y)) [
  | inl e ↦ rw e (p, h, ((ground arith), v.1, v.2))
  | inr e ↦ elim (Bool-cases (y == x)) [
    | inl e' ↦ rw (e, e') v
    | inr e' ↦ rw (e, e') (v.0, v.1, insert-IsNormal (suc y) map x n h (ground arith) v.2)
  ]
]

pub add-IsNormal : (map : Terms) (x : ℕ) (n : ℤ) → IsNormalFrom 0 map → IsNormalFrom 0 (add map x n)
unfolding add
add-IsNormal map x n v = go (find map x)
  where
    go :
        (f : Option ℤ)
        → IsNormalFrom 0 (elim f [
          | some c ↦ if eqb_ℤ (c +ℤ n) (pos 0) then erase map x else assign map x (c +ℤ n)
          | none ↦ if not (eqb_ℤ n (pos 0)) then insert map x n else map
        ])
    go none = elim (Bool-cases (eqb_ℤ n (pos 0))) [
      | inl e ↦ rw e v
      | inr e ↦ rw e (insert-IsNormal 0 map x n (ne_of_eqb n e) (omega arith) v)
    ]
    go (some c) = elim (Bool-cases (eqb_ℤ (c +ℤ n) (pos 0))) [
      | inl e ↦ rw e (erase-IsNormal 0 map x v)
      | inr e ↦ rw e (assign-IsNormal 0 map x (c +ℤ n) (ne_of_eqb _ e) v)
    ]

add_all-IsNormal : (map r : Terms) → IsNormalFrom 0 map → IsNormalFrom 0 (add_all map r)
unfolding add_all
add_all-IsNormal map [] v = v
add_all-IsNormal map ((k, c) ∷ r) v = add_all-IsNormal (add map k c) r (add-IsNormal map k c v)

subtract_all-IsNormal : (map r : Terms) → IsNormalFrom 0 map → IsNormalFrom 0 (subtract_all map r)
unfolding subtract_all
subtract_all-IsNormal map [] v = v
subtract_all-IsNormal map ((k, c) ∷ r) v =
    subtract_all-IsNormal (add map k (neg_ℤ c)) r (add-IsNormal map k (neg_ℤ c) v)

scale_terms-IsNormal :
    (n : ℤ) (map r : Terms) → IsNormalFrom 0 map → IsNormalFrom 0 (scale_terms n map r)
unfolding scale_terms
scale_terms-IsNormal n map [] v = v
scale_terms-IsNormal n map ((k, c) ∷ r) v = elim (Bool-cases (eqb_ℤ (n *ℤ c) (pos 0))) [
  | inl e ↦ rw e (scale_terms-IsNormal n map r v)
  | inr e ↦ rw e (
      scale_terms-IsNormal n (insert map k (n *ℤ c)) r
        (insert-IsNormal 0 map k (n *ℤ c) (ne_of_eqb _ e) (omega arith) v))
]

scale-IsNormal : (e : Expression) (n : ℤ) → IsNormal (scale e n)
unfolding scale number
scale-IsNormal e n = elim (Bool-cases (eqb_ℤ n (pos 0))) [
  | inl z ↦ rw z tt
  | inr z ↦ rw z (scale_terms-IsNormal n [] e.map tt)
]

-- Every operator gives a normal expression, a product whatever its argument is.
pub operators-IsNormal :
    (e o : Expression) (n : ℤ) (x : ℕ)
    → IsNormal e
    → IsNormal (plus e o)
      × IsNormal (minus e o)
      × IsNormal (plus_number e n)
      × IsNormal (minus_number e n)
      × IsNormal (plus_variable e x)
      × IsNormal (minus_variable e x)
      × IsNormal (scale e n)
      × IsNormal (negative e)
unfolding plus minus plus_number minus_number plus_variable minus_variable negative
operators-IsNormal e o n x v = (
  add_all-IsNormal e.map o.map v,
  subtract_all-IsNormal e.map o.map v,
  v,
  v,
  add-IsNormal e.map x (pos 1) v,
  add-IsNormal e.map x (negsuc 0) v,
  scale-IsNormal e n,
  scale-IsNormal e (negsuc 0),
)
