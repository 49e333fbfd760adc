-- ===== src/Cfg/Contents.antt =====
-- The instructions and the edges that the operations of src/crab/cfg.hpp add to a graph.
use ebpf_verifier.Base.{
  Bool, true, false, Bool-cases, false≢true, ◌&&◌, ◌||◌, if◌then◌else◌, ◌≡◌, refl, ap, sym, subst,
  ◌∙◌, inl, inr, List, [], ◌∷◌, ◌++◌, arith,
}
use ebpf_verifier.Asm.{Label, label_eq, label_lt, Instruction}
use ebpf_verifier.Cfg.{
  Block, Cfg, has_label, insert_label, place, emplace, update, set_insts, set_prev, set_next,
  insert, push_inst, add_edge, new_cfg,
}
use ebpf_verifier.Cfg.Symmetric.{
  IsSymmetric, IsSymmetric-emplace, IsSymmetric-set_insts, IsSymmetric-add_edge, next_of, is_block,
  label_eq-eq, find_present, absent_sets, emplace_sets, next_of-update, next_of-edit,
  has_label-insert_label, is_block-add_edge, is_block-set_insts,
}

-- The instructions of the block of a label.
unfoldable pub insts_of : Label → List Block → List Instruction
insts_of l [] = []
insts_of l (b ∷ blocks) =
    let rest = insts_of l blocks in if label_eq b.label l then b.insts else rest

insts_of-absent :
    (l : Label) (blocks : List Block) → is_block l blocks ≡ false → insts_of l blocks ≡ []
unfolding insts_of is_block
insts_of-absent l [] h = refl
insts_of-absent l (b ∷ blocks) h = rw (insts_of-absent l blocks (ground arith)) (ground arith)

insts_of-place :
    (x l : Label) (blocks : List Block)
    → is_block l blocks ≡ false
    → insts_of x (place l blocks) ≡ insts_of x blocks
unfolding insts_of place is_block
insts_of-place x l [] h = ground arith
insts_of-place x l (b ∷ blocks) h = elim (Bool-cases (label_lt l b.label)) [
  | inl e ↦ elim (Bool-cases (label_eq l x)) [
    | inl k ↦
        let p =
          insts_of-absent x (b ∷ blocks)
            (subst (λ y. is_block y (b ∷ blocks) ≡ false) (label_eq-eq l x k) h) in
        grind (arith, e, k, p)
    | inr k ↦ grind (arith, e, k)
  ]
  | inr e ↦ grind (arith, e, insts_of-place x l blocks (ground (arith, h)))
]

insts_of-emplace :
    (x l : Label) (blocks : List Block) → insts_of x (emplace l blocks) ≡ insts_of x blocks
unfolding emplace
insts_of-emplace x l blocks = elim (Bool-cases (is_block l blocks)) [
  | inl e ↦ let (b, p, q) = find_present l blocks e in rw (p, emplace) refl
  | inr e ↦ rw ((absent_sets l blocks e).2, emplace) (insts_of-place x l blocks e)
]

insts_of-update :
    (f : Block → Block) (x l : Label) (blocks : List Block)
    → ((b : Block) → (f b).label ≡ b.label)
    → ((b : Block) → (f b).insts ≡ b.insts)
    → insts_of x (update l f blocks) ≡ insts_of x blocks
unfolding insts_of update
insts_of-update f x l [] same k = refl
insts_of-update f x l (b ∷ blocks) same k = elim (Bool-cases (label_eq b.label l)) [
  | inl e ↦ grind (arith, e, same b, k b)
  | inr e ↦ grind (arith, e, insts_of-update f x l blocks same k)
]

insts_of-set_insts :
    (x l : Label) (f : List Instruction → List Instruction) (blocks : List Block)
    → is_block l blocks ≡ true
    → insts_of x (update l (set_insts f) blocks)
      ≡ (if label_eq l x then f (insts_of x blocks) else insts_of x blocks)
unfolding insts_of update is_block
insts_of-set_insts x l f [] h = absurd (false≢true h)
insts_of-set_insts x l f (b ∷ blocks) h = elim (Bool-cases (label_eq b.label l)) [
  | inl e ↦ grind (arith, e, h)
  | inr e ↦ grind (arith, e, h, insts_of-set_insts x l f blocks)
]

abbrev pub edge : Cfg → Label → Label → Bool
edge g x y = has_label y (next_of x g.blocks)

-- The second graph has the blocks of the first; behind the instructions of each block those of `I`,
-- and besides its edges those of `E`;
-- successors and predecessors agree still.
abbrev pub Adds : Cfg → Cfg → (Label → List Instruction) → (Label → Label → Bool) → Type 0
Adds g h I E =
    ((x : Label) → is_block x g.blocks ≡ true → is_block x h.blocks ≡ true)
    × ((x : Label) → insts_of x h.blocks ≡ insts_of x g.blocks ++ I x)
    × ((x y : Label) → edge h x y ≡ (edge g x y || E x y))
    × (IsSymmetric g.blocks → IsSymmetric h.blocks)

abbrev pub no_insts : Label → List Instruction
no_insts x = []

abbrev pub no_edges : Label → Label → Bool
no_edges x y = false

pub append_nil : (l : List Instruction) → l ++ [] ≡ l
append_nil [] = refl
append_nil (i ∷ l) = ap (λ m. i ∷ m) (append_nil l)

append_assoc : (l m n : List Instruction) → (l ++ m) ++ n ≡ l ++ (m ++ n)
append_assoc [] m n = refl
append_assoc (i ∷ l) m n = ap (λ k. i ∷ k) (append_assoc l m n)

or_assoc : (a b c : Bool) → ((a || b) || c) ≡ (a || (b || c))
or_assoc a b c = ground arith

pub Adds-nothing : (g : Cfg) → Adds g g no_insts no_edges
Adds-nothing g = ((λ x h. h), (λ x. sym (append_nil _)), (λ x y. ground arith), λ h. h)

pub Adds-then :
    (f g h : Cfg) (I J : Label → List Instruction) (E F : Label → Label → Bool)
    → Adds f g I E
    → Adds g h J F
    → Adds f h (λ x. I x ++ J x) (λ x y. E x y || F x y)
Adds-then f g h I J E F (p, q, r, c) (s, t, u, d) = (
  (λ x k. s x (p x k)),
  (λ x. t x ∙ ap (λ l. l ++ J x) (q x) ∙ append_assoc (insts_of x f.blocks) (I x) (J x)),
  (λ x y. u x y ∙ ap (λ a. a || F x y) (r x y) ∙ or_assoc (edge f x y) (E x y) (F x y)),
  λ k. d (c k),
)

pub Adds-same :
    (g h : Cfg) (I J : Label → List Instruction) (E F : Label → Label → Bool)
    → ((x : Label) → I x ≡ J x)
    → ((x y : Label) → E x y ≡ F x y)
    → Adds g h I E
    → Adds g h J F
Adds-same g h I J E F a b (p, q, r, c) = (
  p,
  (λ x. q x ∙ ap (λ l. insts_of x g.blocks ++ l) (a x)),
  (λ x y. r x y ∙ ap (λ t. edge g x y || t) (b x y)),
  c,
)

pub Adds-insert : (l : Label) (g : Cfg) → Adds g (insert l g) no_insts no_edges
unfolding insert
Adds-insert l g = (
  (λ x h. grind (arith, (emplace_sets x l g.blocks).2, h)),
  (λ x. insts_of-emplace x l g.blocks ∙ sym (append_nil _)),
  (λ x y. ap (has_label y) (emplace_sets x l g.blocks).0 ∙ or_false _),
  λ h. IsSymmetric-emplace l g.blocks h,
)
  where
    or_false : (a : Bool) → a ≡ (a || false)
    or_false a = ground arith

pub Adds-push_inst :
    (l : Label) (ins : Instruction) (g : Cfg)
    → is_block l g.blocks ≡ true
    → Adds g (push_inst l ins g) (λ x. if label_eq l x then ins ∷ [] else []) no_edges
unfolding push_inst
Adds-push_inst l ins g k = (
  (λ x h. is_block-set_insts l (λ insts. insts ++ ins ∷ []) g.blocks x ∙ h),
  (λ x.
      insts_of-set_insts x l (λ insts. insts ++ ins ∷ []) g.blocks k
      ∙ one (label_eq l x) (insts_of x g.blocks)),
  (λ x y.
      ap (has_label y) (
        next_of-update (set_insts (λ insts. insts ++ ins ∷ [])) (λ _. refl) x l g.blocks
          (λ _. refl))
      ∙ or_false _),
  λ h. IsSymmetric-set_insts l (λ insts. insts ++ ins ∷ []) g.blocks h,
)
  where
    one :
        (t : Bool) (l : List Instruction)
        → (if t then l ++ ins ∷ [] else l) ≡ l ++ (if t then ins ∷ [] else [])
    one true l = refl
    one false l = sym (append_nil l)

    or_false : (a : Bool) → a ≡ (a || false)
    or_false a = ground arith

insts_of-add_edge :
    (a b : Label) (g : Cfg) (x : Label)
    → insts_of x (add_edge a b g).blocks ≡ insts_of x g.blocks ++ []
unfolding add_edge
insts_of-add_edge a b g x =
    insts_of-update (set_prev (insert_label a)) x b (update a (set_next (insert_label b)) g.blocks)
      (λ _. refl) (λ _. refl)
    ∙ insts_of-update (set_next (insert_label b)) x a g.blocks (λ _. refl) (λ _. refl)
    ∙ sym (append_nil _)

edge-add_edge :
    (a b : Label) (g : Cfg) (x y : Label)
    → is_block a g.blocks ≡ true
    → edge (add_edge a b g) x y ≡ (edge g x y || label_eq a x && label_eq b y)
unfolding add_edge
edge-add_edge a b g x y k =
    ap (has_label y) (next_of-edit (insert_label b) (insert_label a) x a b g.blocks k)
    ∙ inserted (label_eq a x) (next_of x g.blocks) y
  where
    inserted :
        (t : Bool) (set : List Label) (y : Label)
        → has_label y (if t then insert_label b set else set)
          ≡ (has_label y set || t && label_eq b y)
    inserted true set y = has_label-insert_label y b set ∙ ground arith
    inserted false set y = ground arith

pub Adds-add_edge :
    (a b : Label) (g : Cfg)
    → is_block a g.blocks ≡ true
    → is_block b g.blocks ≡ true
    → Adds g (add_edge a b g) no_insts (λ x y. label_eq a x && label_eq b y)
Adds-add_edge a b g k m = (
  (λ x h. is_block-add_edge x a b g ∙ h),
  (λ x. insts_of-add_edge a b g x),
  (λ x y. edge-add_edge a b g x y k),
  λ h. IsSymmetric-add_edge a b g k m h,
)

-- A new graph has neither.
pub Adds-new_cfg :
    (entry exit : Label)
    → ((x : Label) → insts_of x (new_cfg entry exit).blocks ≡ [])
      × ((x y : Label) → edge (new_cfg entry exit) x y ≡ false)
unfolding new_cfg insts_of next_of has_label
Adds-new_cfg entry exit = (
  (λ x. insts_of-emplace x exit (emplace entry []) ∙ insts_of-emplace x entry []),
  λ x y.
      ap (has_label y) ((emplace_sets x exit (emplace entry [])).0 ∙ (emplace_sets x entry []).0),
)
