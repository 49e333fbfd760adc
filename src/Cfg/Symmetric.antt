-- ===== src/Cfg/Symmetric.antt =====
-- The edges of a graph of src/crab/cfg.hpp, with the changes to `m_next` and `m_prev` of its blocks.
use ebpf_verifier.Base.{
  Bool, true, false, not, Bool-cases, false≢true, ◌&&◌, ◌||◌, if◌then◌else◌, ◌≡◌, refl, ap, ◌∙◌,
  subst, inl, inr, none, some, List, [], ◌∷◌, arith,
}
use ebpf_verifier.Asm.{Label, label_eq, label_lt, Instruction}
use ebpf_verifier.Cfg.{
  Block, Cfg, has_label, insert_label, erase_label, find, place, emplace, update, set_insts,
  set_prev, set_next, add_edge, remove_edge,
}

pub has_label-insert_label :
    (x l : Label) (set : List Label)
    → has_label x (insert_label l set) ≡ (label_eq l x || has_label x set)
unfolding has_label insert_label
has_label-insert_label x l [] = refl
has_label-insert_label x l (k ∷ set) = ground (arith, has_label-insert_label x l set)

has_label-erase_label :
    (x l : Label) (set : List Label)
    → has_label x (erase_label l set) ≡ (not (label_eq l x) && has_label x set)
unfolding has_label erase_label
has_label-erase_label x l [] = ground arith
has_label-erase_label x l (k ∷ set) = ground (arith, has_label-erase_label x l set)

-- The sets of the block of a label.
unfoldable pub next_of : Label → List Block → List Label
next_of l [] = []
next_of l (b ∷ blocks) = let rest = next_of l blocks in if label_eq b.label l then b.next else rest

unfoldable pub prev_of : Label → List Block → List Label
prev_of l [] = []
prev_of l (b ∷ blocks) = let rest = prev_of l blocks in if label_eq b.label l then b.prev else rest

unfoldable pub is_block : Label → List Block → Bool
is_block l [] = false
is_block l (b ∷ blocks) = label_eq b.label l || is_block l blocks

-- `b` follows `a` exactly where `a` precedes `b`.
abbrev pub IsSymmetric : List Block → Type 0
IsSymmetric blocks = (a b : Label) → has_label b (next_of a blocks) ≡ has_label a (prev_of b blocks)

pub label_eq-eq : (k l : Label) → label_eq k l ≡ true → k ≡ l
label_eq-eq k l h = ground arith

next_of-set_next :
    (x l : Label) (f : List Label → List Label) (blocks : List Block)
    → is_block l blocks ≡ true
    → next_of x (update l (set_next f) blocks)
      ≡ (if label_eq l x then f (next_of x blocks) else next_of x blocks)
unfolding next_of update is_block
next_of-set_next x l f [] h = absurd (false≢true h)
next_of-set_next x l f (b ∷ blocks) h = elim (Bool-cases (label_eq b.label l)) [
  | inl e ↦ grind (arith, e, h)
  | inr e ↦ grind (arith, e, h, next_of-set_next x l f blocks)
]

prev_of-set_prev :
    (x l : Label) (f : List Label → List Label) (blocks : List Block)
    → is_block l blocks ≡ true
    → prev_of x (update l (set_prev f) blocks)
      ≡ (if label_eq l x then f (prev_of x blocks) else prev_of x blocks)
unfolding prev_of update is_block
prev_of-set_prev x l f [] h = absurd (false≢true h)
prev_of-set_prev x l f (b ∷ blocks) h = elim (Bool-cases (label_eq b.label l)) [
  | inl e ↦ ground (arith, e, h)
  | inr e ↦ ground (arith, e, h, prev_of-set_prev x l f blocks)
]

-- A change that keeps the label and one of the sets.
module _ (f : Block → Block) (same : (b : Block) → (f b).label ≡ b.label) where
  pub next_of-update :
      (x l : Label) (blocks : List Block)
      → ((b : Block) → (f b).next ≡ b.next)
      → next_of x (update l f blocks) ≡ next_of x blocks
  unfolding next_of update
  next_of-update x l [] k = refl
  next_of-update x l (b ∷ blocks) k = elim (Bool-cases (label_eq b.label l)) [
    | inl e ↦ grind (arith, e, same b, k b)
    | inr e ↦ grind (arith, e, next_of-update x l blocks k)
  ]

  prev_of-update :
      (x l : Label) (blocks : List Block)
      → ((b : Block) → (f b).prev ≡ b.prev)
      → prev_of x (update l f blocks) ≡ prev_of x blocks
  unfolding prev_of update
  prev_of-update x l [] k = refl
  prev_of-update x l (b ∷ blocks) k = elim (Bool-cases (label_eq b.label l)) [
    | inl e ↦ grind (arith, e, same b, k b)
    | inr e ↦ grind (arith, e, prev_of-update x l blocks k)
  ]

  pub is_block-update :
      (x l : Label) (blocks : List Block) → is_block x (update l f blocks) ≡ is_block x blocks
  unfolding is_block update
  is_block-update x l [] = refl
  is_block-update x l (b ∷ blocks) = elim (Bool-cases (label_eq b.label l)) [
    | inl e ↦ grind (arith, e, same b)
    | inr e ↦ grind (arith, e, is_block-update x l blocks)
  ]

pub absent_sets :
    (l : Label) (blocks : List Block)
    → is_block l blocks ≡ false
    → (next_of l blocks ≡ []) × (prev_of l blocks ≡ []) × (find l blocks ≡ none)
unfolding next_of prev_of is_block find
absent_sets l [] h = (refl, refl, refl)
absent_sets l (b ∷ blocks) h =
    let (p, q, r) = absent_sets l blocks (ground (arith, h)) in
    (grind (arith, h, p), grind (arith, h, q), grind (arith, h, r))

pub find_present :
    (l : Label) (blocks : List Block)
    → is_block l blocks ≡ true
    → (b : Block) × find l blocks ≡ some b × b.label ≡ l
unfolding is_block find
find_present l [] h = absurd (false≢true h)
find_present l (b ∷ blocks) h = elim (Bool-cases (label_eq b.label l)) [
  | inl e ↦ (b, grind (arith, e), label_eq-eq b.label l e)
  | inr e ↦
      let (c, p, q) = find_present l blocks (grind (arith, e, h)) in (c, grind (arith, e, p), q)
]

present_eq :
    (x l : Label) (blocks : List Block)
    → is_block l blocks ≡ true
    → is_block x blocks ≡ (label_eq l x || is_block x blocks)
present_eq x l blocks h = elim (Bool-cases (label_eq l x)) [
  | inl k ↦ rw k (subst (λ y. is_block y blocks ≡ true) (label_eq-eq l x k) h)
  | inr k ↦ rw k refl
]

pub place_sets :
    (x l : Label) (blocks : List Block)
    → is_block l blocks ≡ false
    → (next_of x (place l blocks) ≡ next_of x blocks)
      × (prev_of x (place l blocks) ≡ prev_of x blocks)
      × (is_block x (place l blocks) ≡ (label_eq l x || is_block x blocks))
unfolding next_of prev_of place is_block
place_sets x l [] h = (ground arith, ground arith, ground arith)
place_sets x l (b ∷ blocks) h = elim (Bool-cases (label_lt l b.label)) [
  | inl e ↦ elim (Bool-cases (label_eq l x)) [
    | inl k ↦
        let (p, q, r) =
          absent_sets x (b ∷ blocks)
            (subst (λ y. is_block y (b ∷ blocks) ≡ false) (label_eq-eq l x k) h) in
        (grind (arith, e, k, p), grind (arith, e, k, q), grind (arith, e, k))
    | inr k ↦ (grind (arith, e, k), grind (arith, e, k), grind (arith, e, k))
  ]
  | inr e ↦
      let (p, q, r) = place_sets x l blocks (ground (arith, h)) in
      (grind (arith, e, p), grind (arith, e, q), grind (arith, e, r))
]

pub emplace_sets :
    (x l : Label) (blocks : List Block)
    → (next_of x (emplace l blocks) ≡ next_of x blocks)
      × (prev_of x (emplace l blocks) ≡ prev_of x blocks)
      × (is_block x (emplace l blocks) ≡ (label_eq l x || is_block x blocks))
unfolding emplace
emplace_sets x l blocks = elim (Bool-cases (is_block l blocks)) [
  | inl e ↦
      let (b, p, q) = find_present l blocks e in
      (rw (p, emplace) refl, rw (p, emplace) refl, rw (p, emplace) (present_eq x l blocks e))
  | inr e ↦ rw ((absent_sets l blocks e).2, emplace) (place_sets x l blocks e)
]

-- The operations of a graph change its sets as they say.
pub IsSymmetric-emplace :
    (l : Label) (blocks : List Block) → IsSymmetric blocks → IsSymmetric (emplace l blocks)
IsSymmetric-emplace l blocks h =
    λ a b. grind (arith, (emplace_sets a l blocks).0, (emplace_sets b l blocks).1, h a b)

-- An edit of one set of each end of an edge.
module _ (f h : List Label → List Label) (x a b : Label) (blocks : List Block) where
  pub next_of-edit :
      is_block a blocks ≡ true
      → next_of x (update b (set_prev h) (update a (set_next f) blocks))
        ≡ (if label_eq a x then f (next_of x blocks) else next_of x blocks)
  next_of-edit p =
      next_of-update (set_prev h) (λ _. refl) x b (update a (set_next f) blocks) (λ _. refl)
      ∙ next_of-set_next x a f blocks p

  prev_of-edit :
      is_block b blocks ≡ true
      → prev_of x (update b (set_prev h) (update a (set_next f) blocks))
        ≡ (if label_eq b x then h (prev_of x blocks) else prev_of x blocks)
  prev_of-edit p =
      prev_of-set_prev x b h (update a (set_next f) blocks)
        (is_block-update (set_next f) (λ _. refl) b a blocks ∙ p)
      ∙ ap (λ s. if label_eq b x then h s else s)
          (prev_of-update (set_next f) (λ _. refl) x a blocks (λ _. refl))

-- The members of both sets are changed alike.
module _ (x y a b : Label) (n p : List Label) (h : has_label y n ≡ has_label x p) where
  inserted_alike :
      has_label y (if label_eq a x then insert_label b n else n)
      ≡ has_label x (if label_eq b y then insert_label a p else p)
  inserted_alike = grind (arith, h, has_label-insert_label y b n, has_label-insert_label x a p)

  erased_alike :
      has_label y (if label_eq a x then erase_label b n else n)
      ≡ has_label x (if label_eq b y then erase_label a p else p)
  erased_alike = grind (arith, h, has_label-erase_label y b n, has_label-erase_label x a p)

module _ (a b : Label) (g : Cfg) (p : is_block a g.blocks ≡ true)
    (q : is_block b g.blocks ≡ true) where
  -- Where both blocks are in a graph in which successors and predecessors agree, they agree behind
  -- a new edge between the two.
  pub IsSymmetric-add_edge : IsSymmetric g.blocks → IsSymmetric (add_edge a b g).blocks
  unfolding add_edge
  IsSymmetric-add_edge h = λ x y.
      rw
        (
          next_of-edit (insert_label b) (insert_label a) x a b g.blocks p,
          prev_of-edit (insert_label b) (insert_label a) y a b g.blocks q,
        )
        (inserted_alike x y a b (next_of x g.blocks) (prev_of y g.blocks) (h x y))

  -- Where both blocks are in a graph in which successors and predecessors agree, they agree when an
  -- edge between the two is removed.
  pub IsSymmetric-remove_edge : IsSymmetric g.blocks → IsSymmetric (remove_edge a b g).blocks
  unfolding remove_edge
  IsSymmetric-remove_edge h = λ x y.
      rw
        (
          next_of-edit (erase_label b) (erase_label a) x a b g.blocks p,
          prev_of-edit (erase_label b) (erase_label a) y a b g.blocks q,
        )
        (erased_alike x y a b (next_of x g.blocks) (prev_of y g.blocks) (h x y))

-- The blocks of a graph stay in place under a change of one of them.
pub is_block-add_edge :
    (x a b : Label) (g : Cfg) → is_block x (add_edge a b g).blocks ≡ is_block x g.blocks
unfolding add_edge
is_block-add_edge x a b g =
    is_block-update (set_prev (insert_label a)) (λ _. refl) x b
      (update a (set_next (insert_label b)) g.blocks)
    ∙ is_block-update (set_next (insert_label b)) (λ _. refl) x a g.blocks

module _ (l : Label) (f : List Instruction → List Instruction) (blocks : List Block) where
  pub IsSymmetric-set_insts : IsSymmetric blocks → IsSymmetric (update l (set_insts f) blocks)
  IsSymmetric-set_insts h = λ a b.
      rw
        (
          next_of-update (set_insts f) (λ _. refl) a l blocks (λ _. refl),
          prev_of-update (set_insts f) (λ _. refl) b l blocks (λ _. refl),
        )
        (h a b)

  pub is_block-set_insts :
      (x : Label) → is_block x (update l (set_insts f) blocks) ≡ is_block x blocks
  is_block-set_insts x = is_block-update (set_insts f) (λ _. refl) x l blocks
