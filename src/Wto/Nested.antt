-- ===== src/Wto/Nested.antt =====
-- The nestings that src/crab/wto.hpp builds: every node of the components has one, and `>` tells
-- whether a nesting lies inside another.
use ebpf_verifier.Base.{
  true, ◌≡◌, ◌↔◌, refl, ap, sym, ◌∙◌, subst, inl, inr, ◌⊎◌, Bool-cases, if◌then◌else◌, Option, none,
  some, [], ◌∷◌, ◌++◌, arith, false≢true,
}
use ebpf_verifier.Base.Int.{pos, eqb_ℤ}
use ebpf_verifier.Asm.{Label, label_eq}
use ebpf_verifier.Cfg.Symmetric.{label_eq-eq}
use ebpf_verifier.Wto.{
  Nesting, NestingTable, insert_nesting, build, build_all, build_nesting, add_head, Component,
  vertex, cycle, Components, nil, cons, is_member, is_member_all, compare, nesting_gt,
}

abbrev pub Nested : NestingTable → Label → Type 0
Nested table n = (k : Nesting) × (table n ≡ some k)

none-some : (j : Nesting) → none ≡ some j → ⊥
none-some j p = cc

insert_nesting-Nested :
    (n l : Label) (k : Nesting) (table : NestingTable)
    → (label_eq n l ≡ true) ⊎ Nested table l
    → Nested (insert_nesting n k table) l
unfolding insert_nesting
insert_nesting-Nested n l k table h = go (table l) refl
  where
    go :
        (o : Option Nesting)
        → table l ≡ o
        → (j : Nesting) × ((elim o [
          | some old ↦ some old
          | none ↦ if label_eq n l then some k else none
        ])
            ≡ some j)
    go (some old) e = (old, refl)
    go none e = elim h [
      | inl same ↦ (k, rw same refl)
      | inr nested ↦ absurd (none-some nested.0 (sym e ∙ nested.1))
    ]

mutual
  unfolding build build_all is_member is_member_all

  build-Nested :
      (c : Component) (k : Nesting) (table : NestingTable) (l : Label)
      → (is_member l c ≡ true) ⊎ Nested table l
      → Nested (build c k table) l
  build-Nested (vertex n) k table l h = insert_nesting-Nested n l k table h
  build-Nested (cycle head cs) k table l h =
      build_all-Nested cs (add_head k head) (insert_nesting head k table) l (elim h [
        | inr nested ↦ inr (insert_nesting-Nested head l k table (inr nested))
        | inl m ↦ elim (Bool-cases (label_eq head l)) [
          | inl e ↦ inr (insert_nesting-Nested head l k table (inl e))
          | inr e ↦ inl (rw e at m)
        ]
      ])

  build_all-Nested :
      (cs : Components) (k : Nesting) (table : NestingTable) (l : Label)
      → (is_member_all l cs ≡ true) ⊎ Nested table l
      → Nested (build_all cs k table) l
  build_all-Nested nil k table l (inl h) = absurd (false≢true h)
  build_all-Nested nil k table l (inr h) = h
  build_all-Nested (cons c cs) k table l (inr h) =
      build_all-Nested cs k (build c k table) l (inr (build-Nested c k table l (inr h)))
  build_all-Nested (cons c cs) k table l (inl h) = elim (Bool-cases (is_member l c)) [
    | inl e ↦ build_all-Nested cs k (build c k table) l (inr (build-Nested c k table l (inl e)))
    | inr e ↦ build_all-Nested cs k (build c k table) l (inl (rw e at h))
  ]

-- Every node of the components has a nesting.
pub build_nesting-Nested :
    (cs : Components) (l : Label) → is_member_all l cs ≡ true → Nested (build_nesting cs) l
unfolding build_nesting
build_nesting-Nested cs l h = build_all-Nested cs [] (λ _. none) l (inl h)

-- Whether `b` is a proper prefix of `a`.
abbrev pub Extends : Nesting → Nesting → Type 0
Extends a b = (x : Label) × (rest : Nesting) × (a ≡ b ++ x ∷ rest)

self : (a : Label) → label_eq a a ≡ true
self a = ground arith

gt_forward : (a b : Nesting) → nesting_gt a b ≡ true → Extends a b
unfolding nesting_gt compare
gt_forward [] [] h = cc
gt_forward [] (_ ∷ _) h = cc
gt_forward (x ∷ a) [] h = (x, a, refl)
gt_forward (x ∷ a) (y ∷ b) h = elim (Bool-cases (label_eq x y)) [
  | inl e ↦
      let (z, rest, p) = gt_forward a b (rw e at h) in (z, rest, λ i. label_eq-eq x y e i ∷ p i)
  | inr e ↦ absurd (false≢true (rw e at h))
]

compare-append : (b s : Nesting) → compare (b ++ s) b ≡ compare s []
unfolding compare
compare-append [] s = refl
compare-append (x ∷ b) s = rw (self x) (compare-append b s)

-- One nesting is greater than another exactly when the other is a proper prefix of it.
pub nesting_gt_iff : (a b : Nesting) → (nesting_gt a b ≡ true) ↔ Extends a b
unfolding nesting_gt compare
nesting_gt_iff a b = (
  gt_forward a b,
  λ (x, rest, p).
      subst (λ c. nesting_gt c b ≡ true) (sym p)
        (ap (λ c. eqb_ℤ c (pos 1)) (compare-append b (x ∷ rest))),
)
