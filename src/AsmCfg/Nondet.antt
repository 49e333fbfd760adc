-- ===== src/AsmCfg/Nondet.antt =====
-- The graph of `to_nondet` of src/asm_cfg.cpp, described block by block.
use ebpf_verifier.Base.{
  Bool, true, false, Bool-cases, ◌&&◌, ◌||◌, ◌==◌, ltb, if◌then◌else◌, ◌≡◌, refl, ap, ◌∙◌, inl, inr,
  some, List, [], ◌∷◌, ◌++◌, All, length, arith,
}
use ebpf_verifier.Asm.{Label, label_eq, edge_label, Instruction, Condition, Jmp}
use ebpf_verifier.Outcome.{Result, ok}
use ebpf_verifier.Cfg.{
  Block, Cfg, has_label, new_cfg, get_node, find, insert, push_inst, add_edge, erase_label,
}
use ebpf_verifier.Cfg.Symmetric.{IsSymmetric, next_of, is_block, find_present}
use ebpf_verifier.Cfg.Contents.{
  Adds, Adds-nothing, Adds-then, Adds-same, Adds-insert, Adds-push_inst, Adds-add_edge, no_insts,
  no_edges, append_nil, insts_of, Adds-new_cfg,
}
use ebpf_verifier.AsmCfg.{
  push_plain, source_label, add_sources, add_branch, add_branches, add_nexts, nondet_block,
  nondet_blocks, to_nondet, is_jmp, last_jump, condition_of, first_label, reverse,
}
use ebpf_verifier.AsmCfg.Symmetric.{Has-insert, Has-insert_old, Agrees-new_cfg}

-- The label of an edge between two plain labels.
abbrev pub between : Label → Label → Label
between a b = record { from = a.from; to = b.from }

-- The instructions that are no jumps.
unfoldable pub plain : List Instruction → List Instruction
plain [] = []
plain (Instruction.jmp j ∷ insts) = plain insts
plain (ins ∷ insts) = ins ∷ plain insts

-- The two ways out of a block that ends in a conditional jump.
pub record Fork : Type 0 where
  pub target : Label
  pub fall : Label
  pub cond : Condition

abbrev pub assumes : Condition → List Instruction
assumes cond = Instruction.assume (record { cond = cond }) ∷ []

-- The instructions that a block gives to the block of `x`: its own, and on each way out what is
-- assumed there.
abbrev pub fork_insts : Label → Fork → Label → List Instruction
fork_insts l f x =
    (if label_eq (between l f.target) x then assumes f.cond else [])
    ++ (if label_eq (between l f.fall) x then assumes (reverse f.cond) else [])

abbrev pub block_insts : (Block → Fork) → Block → Label → List Instruction
block_insts fork b x =
    (if label_eq b.label x then plain b.insts else [])
    ++ (if length b.next == 2 then fork_insts b.label (fork b) x else [])

abbrev pub all_insts : (Block → Fork) → List Block → Label → List Instruction
all_insts fork [] x = []
all_insts fork (b ∷ blocks) x = block_insts fork b x ++ all_insts fork blocks x

-- The edges that a block gives: from its predecessors, or the edge between where these have two ways
-- out; and to its successors, by way of the edges where there are two.
abbrev pub is_pair : Label → Label → Label → Label → Bool
is_pair a b x y = label_eq a x && label_eq b y

abbrev pub source : Cfg → Label → Label → Label
source g p l = if ltb 1 (length (next_of p g.blocks)) then between p l else p

abbrev pub edges_in : Cfg → Label → List Label → Label → Label → Bool
edges_in g l [] x y = false
edges_in g l (p ∷ set) x y = is_pair (source g p l) l x y || edges_in g l set x y

abbrev pub edges_out : Label → List Label → Label → Label → Bool
edges_out l [] x y = false
edges_out l (k ∷ set) x y = is_pair l k x y || edges_out l set x y

abbrev pub edges_by : Label → Label → Label → Label → Bool
edges_by l k x y = is_pair l (between l k) x y || is_pair (between l k) k x y

abbrev pub block_edge : (Block → Fork) → Cfg → Block → Label → Label → Bool
block_edge fork g b x y =
    edges_in g b.label b.prev x y
    || (if length b.next == 2
        then edges_by b.label (fork b).target x y || edges_by b.label (fork b).fall x y
        else edges_out b.label b.next x y)

abbrev pub all_edges : (Block → Fork) → Cfg → List Block → Label → Label → Bool
all_edges fork g [] x y = false
all_edges fork g (b ∷ blocks) x y = block_edge fork g b x y || all_edges fork g blocks x y

-- The last instruction of the block is the jump.
abbrev pub IsFork : Block → Fork → Type 0
IsFork b f =
    (j : Jmp) × (last_jump b.insts ≡ ok j)
    × (j.target ≡ f.target)
    × (j.cond ≡ some f.cond)
    × (first_label (erase_label f.target b.next) ≡ ok f.fall)
    × (b.label.to ≡ 0)
    × (f.target.to ≡ 0)
    × (f.fall.to ≡ 0)

-- The predecessors are blocks, and the labels are plain where the label of an edge is made of them.
abbrev pub IsSource : Cfg → Label → Label → Type 0
IsSource g l p =
    (is_block p g.blocks ≡ true)
    × (ltb 1 (length (next_of p g.blocks)) ≡ true → (p.to ≡ 0) × (l.to ≡ 0))

abbrev pub IsPrepared : Cfg → (Block → Fork) → Block → Type 0
IsPrepared g fork b =
    All (IsSource g b.label) b.prev × ((length b.next == 2) ≡ true → IsFork b (fork b))

-- The result is there, and adds what is said to a graph.
abbrev pub Makes : Result Cfg → Cfg → (Label → List Instruction) → (Label → Label → Bool) → Type 0
Makes r f I E = (h : Cfg) × (r ≡ ok h) × Adds f h I E

edge_label-between : (a b : Label) → a.to ≡ 0 → b.to ≡ 0 → edge_label a b ≡ ok (between a b)
edge_label-between a b h k = ground arith

if_then :
    (t : Bool) (ins : Instruction) (l : List Instruction)
    → (if t then ins ∷ [] else []) ++ (if t then l else []) ≡ (if t then ins ∷ l else [])
if_then true ins l = refl
if_then false ins l = refl

push_plain-Adds :
    (l : Label) (insts : List Instruction) (g : Cfg)
    → is_block l g.blocks ≡ true
    → Adds g (push_plain l insts g) (λ x. if label_eq l x then plain insts else []) no_edges
unfolding push_plain plain is_jmp
push_plain-Adds l [] g h =
    Adds-same g g no_insts (λ x. if label_eq l x then [] else []) no_edges no_edges
      (λ x. ground arith) (λ x y. refl) (Adds-nothing g)
push_plain-Adds l (Instruction.jmp j ∷ insts) g h = push_plain-Adds l insts g h
push_plain-Adds l (ins ∷ insts) g h =
    let one = Adds-push_inst l ins g h in
    let rest = push_plain-Adds l insts (push_inst l ins g) (one.0 l h) in
    Adds-same g (push_plain l insts (push_inst l ins g))
      (λ x. (if label_eq l x then ins ∷ [] else []) ++ (if label_eq l x then plain insts else []))
      (λ x. if label_eq l x then ins ∷ plain insts else []) (λ x y. no_edges x y || no_edges x y)
      no_edges (λ x. if_then (label_eq l x) ins (plain insts)) (λ x y. refl)
      (Adds-then g (push_inst l ins g) (push_plain l insts (push_inst l ins g))
        (λ x. if label_eq l x then ins ∷ [] else []) (λ x. if label_eq l x then plain insts else [])
        no_edges no_edges one rest)

-- A block is inserted, and an edge leads from it or to it.
inserted_edge :
    (new a b : Label) (g : Cfg)
    → is_block a (insert new g).blocks ≡ true
    → is_block b (insert new g).blocks ≡ true
    → Adds g (add_edge a b (insert new g)) no_insts (is_pair a b)
inserted_edge new a b g h k =
    Adds-then g (insert new g) (add_edge a b (insert new g)) no_insts no_insts no_edges
      (is_pair a b) (Adds-insert new g) (Adds-add_edge a b (insert new g) h k)

find-next_of :
    (l : Label) (blocks : List Block) (b : Block)
    → find l blocks ≡ some b
    → next_of l blocks ≡ b.next
unfolding find next_of
find-next_of l [] b h = cc
find-next_of l (c ∷ blocks) b h = elim (Bool-cases (label_eq c.label l)) [
  | inl e ↦ rw e (same c b (rw e at h))
  | inr e ↦ rw e (find-next_of l blocks b (rw e at h))
]
  where
    same : (c b : Block) → some c ≡ some b → c.next ≡ b.next
    same c b q = cc

get_node-find : (g : Cfg) (l : Label) (b : Block) → find l g.blocks ≡ some b → get_node g l ≡ ok b
unfolding get_node
get_node-find g l b e = rw (e, get_node) refl

source_label-source :
    (g : Cfg) (p l : Label) → IsSource g l p → source_label g p l ≡ ok (source g p l)
unfolding source_label
source_label-source g p l (here, plains) =
    let (b, e, q) = find_present p g.blocks here in
    let same = find-next_of p g.blocks b e in
    rw (get_node-find g p b e, source_label)
      (elim (Bool-cases (ltb 1 (length b.next))) [
        | inl many ↦
            let (pp, ll) = plains (ap (λ set. ltb 1 (length set)) same ∙ many) in
            rw (same, many, edge_label-between p l pp ll) refl
        | inr one ↦ rw (same, one) refl
      ])

add_sources-Makes :
    (g : Cfg) (l : Label) (set : List Label) (res : Cfg)
    → is_block l res.blocks ≡ true
    → All (IsSource g l) set
    → Makes (add_sources g l set res) res no_insts (edges_in g l set)
unfolding add_sources
add_sources-Makes g l [] res h k = (res, refl, Adds-nothing res)
add_sources-Makes g l (p ∷ set) res h (here, k) =
    let s = source g p l in
    let one = inserted_edge s s l res (Has-insert s res) (Has-insert_old l s res h) in
    let (r, e, adds) = add_sources-Makes g l set (add_edge s l (insert s res)) (one.0 l h) k in
    (
      r,
      rw (source_label-source g p l here) e,
      Adds-then res (add_edge s l (insert s res)) r no_insts no_insts (is_pair s l)
          (edges_in g l set) one adds,
    )

add_nexts-Adds :
    (l : Label) (set : List Label) (res : Cfg)
    → is_block l res.blocks ≡ true
    → Adds res (add_nexts l set res) no_insts (edges_out l set)
unfolding add_nexts
add_nexts-Adds l [] res h = Adds-nothing res
add_nexts-Adds l (k ∷ set) res h =
    let one = inserted_edge k l k res (Has-insert_old l k res h) (Has-insert k res) in
    Adds-then res (add_edge l k (insert k res)) (add_nexts l set (add_edge l k (insert k res)))
      no_insts no_insts (is_pair l k) (edges_out l set) one
      (add_nexts-Adds l set (add_edge l k (insert k res)) (one.0 l h))

add_branch-Makes :
    (l next : Label) (cond : Condition) (res : Cfg)
    → l.to ≡ 0
    → next.to ≡ 0
    → is_block l res.blocks ≡ true
    → Makes
        (add_branch l next cond res)
        res
        (λ x. if label_eq (between l next) x then assumes cond else [])
        (edges_by l next)
unfolding add_branch
add_branch-Makes l next cond res p q h =
    let k = between l next in
    let ins = Instruction.assume (record { cond = cond }) in
    let opened = push_inst k ins (insert k res) in
    let first = Adds-insert k res in
    let pushed = Adds-push_inst k ins (insert k res) (Has-insert k res) in
    let edge_to =
      Adds-add_edge l k opened (pushed.0 l (first.0 l h)) (pushed.0 k (Has-insert k res)) in
    let edge_from =
      inserted_edge next k next (add_edge l k opened)
        (Has-insert_old k next (add_edge l k opened) (edge_to.0 k (pushed.0 k (Has-insert k res))))
        (Has-insert next (add_edge l k opened)) in
    let done = add_edge k next (insert next (add_edge l k opened)) in
    (
      done,
      rw (edge_label-between l next p q) refl,
      Adds-same res done (λ x. (if label_eq k x then assumes cond else []) ++ [])
          (λ x. if label_eq k x then assumes cond else [])
          (λ x y. is_pair l k x y || is_pair k next x y) (edges_by l next)
          (λ x. (if_nil (label_eq k x))) (λ x y. refl)
          (Adds-then res opened done (λ x. if label_eq k x then assumes cond else []) no_insts
            no_edges (λ x y. is_pair l k x y || is_pair k next x y)
            (Adds-then res (insert k res) opened no_insts
              (λ x. if label_eq k x then assumes cond else []) no_edges no_edges first pushed)
            (Adds-then opened (add_edge l k opened) done no_insts no_insts (is_pair l k)
              (is_pair k next) edge_to edge_from)),
    )
  where
    if_nil : (t : Bool) → (if t then assumes cond else []) ++ [] ≡ (if t then assumes cond else [])
    if_nil true = refl
    if_nil false = refl

condition_of-cond : (j : Jmp) (c : Condition) → j.cond ≡ some c → condition_of j ≡ ok c
unfolding condition_of
condition_of-cond j c e = rw (e, condition_of) refl

add_branches-Makes :
    (b : Block) (f : Fork) (res : Cfg)
    → IsFork b f
    → is_block b.label res.blocks ≡ true
    → Makes
        (add_branches b res)
        res
        (fork_insts b.label f)
        (λ x y. edges_by b.label f.target x y || edges_by b.label f.fall x y)
unfolding add_branches
add_branches-Makes b f res (j, last, target, cond, fall, p, q, r) h =
    let (g1, e1, a1) = add_branch-Makes b.label f.target f.cond res p q h in
    let (g2, e2, a2) = add_branch-Makes b.label f.fall (reverse f.cond) g1 p r (a1.0 b.label h) in
    (
      g2,
      rw (last, condition_of-cond j f.cond cond, target, fall, e1) e2,
      Adds-then res g1 g2
          (λ x. if label_eq (between b.label f.target) x then assumes f.cond else [])
          (λ x. if label_eq (between b.label f.fall) x then assumes (reverse f.cond) else [])
          (edges_by b.label f.target) (edges_by b.label f.fall) a1 a2,
    )

-- What a block makes of the graph built so far.
nondet_block-Makes :
    (g : Cfg) (fork : Block → Fork) (b : Block) (res : Cfg)
    → IsPrepared g fork b
    → Makes (nondet_block g b res) res (block_insts fork b) (block_edge fork g b)
unfolding nondet_block
nondet_block-Makes g fork b res (sources, forks) =
    let l = b.label in
    let own = λ (x : Label). if label_eq l x then plain b.insts else [] in
    let g1 = push_plain l b.insts (insert l res) in
    let first =
      Adds-then res (insert l res) g1 no_insts own no_edges no_edges (Adds-insert l res)
        (push_plain-Adds l b.insts (insert l res) (Has-insert l res)) in
    let here =
      (push_plain-Adds l b.insts (insert l res) (Has-insert l res)).0 l (Has-insert l res) in
    let (g2, e2, a2) = add_sources-Makes g l b.prev g1 here sources in
    let linked = Adds-then res g1 g2 own no_insts no_edges (edges_in g l b.prev) first a2 in
    elim (Bool-cases (length b.next == 2)) [
      | inl two ↦
          let (g3, e3, a3) = add_branches-Makes b (fork b) g2 (forks two) (a2.0 l here) in
          (
            g3,
            rw (e2, two) e3,
            rw two (
                finish own res g2 g3 (edges_in g l b.prev) (fork_insts l (fork b))
                  (λ x y. edges_by l (fork b).target x y || edges_by l (fork b).fall x y) linked
                  a3),
          )
      | inr other ↦
          let g3 = add_nexts l b.next g2 in
          (
            g3,
            rw (e2, other) refl,
            rw other (
                finish own res g2 g3 (edges_in g l b.prev) no_insts (edges_out l b.next) linked
                  (add_nexts-Adds l b.next g2 (a2.0 l here))),
          )
    ]
  where
    finish :
        (own : Label → List Instruction) (f g h : Cfg) (E : Label → Label → Bool)
        (J : Label → List Instruction) (F : Label → Label → Bool)
        → Adds f g (λ x. own x ++ []) E
        → Adds g h J F
        → Adds f h (λ x. own x ++ J x) (λ x y. E x y || F x y)
    finish own f g h E J F p q =
        Adds-same f h (λ x. (own x ++ []) ++ J x) (λ x. own x ++ J x) (λ x y. E x y || F x y)
          (λ x y. E x y || F x y) (λ x. ap (λ l. l ++ J x) (append_nil (own x))) (λ x y. refl)
          (Adds-then f g h (λ x. own x ++ []) J E F p q)

nondet_blocks-Makes :
    (g : Cfg) (fork : Block → Fork) (blocks : List Block) (res : Cfg)
    → All (IsPrepared g fork) blocks
    → Makes (nondet_blocks g blocks res) res (all_insts fork blocks) (all_edges fork g blocks)
unfolding nondet_blocks
nondet_blocks-Makes g fork [] res k = (res, refl, Adds-nothing res)
nondet_blocks-Makes g fork (b ∷ blocks) res (p, k) =
    let (g1, e1, a1) = nondet_block-Makes g fork b res p in
    let (g2, e2, a2) = nondet_blocks-Makes g fork blocks g1 k in
    (
      g2,
      rw e1 e2,
      Adds-then res g1 g2 (block_insts fork b) (all_insts fork blocks) (block_edge fork g b)
          (all_edges fork g blocks) a1 a2,
    )

-- Where every predecessor is a block, every block with two successors ends in a conditional jump,
-- and the labels that edges are named after are plain, the graph of `to_nondet` is made, and what
-- is in it is described block by block. Under each label stand the instructions but the jumps of
-- the block of that label, and for each conditional jump its condition under the edge to its target
-- and the inverse under the edge to the other successor. The edges lead from each predecessor, or
-- the edge between where this has two successors or more, and to each successor, by way of the edge
-- between where there are two. Successors and predecessors agree.
pub to_nondet_lem :
    (g : Cfg) (fork : Block → Fork)
    → All (IsPrepared g fork) g.blocks
    → (h : Cfg) × (to_nondet g ≡ ok h)
      × ((x : Label) → insts_of x h.blocks ≡ all_insts fork g.blocks x)
      × ((x y : Label) → has_label y (next_of x h.blocks) ≡ all_edges fork g g.blocks x y)
      × IsSymmetric h.blocks
unfolding to_nondet
to_nondet_lem g fork k =
    let (h, e, adds) = nondet_blocks-Makes g fork g.blocks (new_cfg g.entry g.exit) k in
    let (no_i, no_e) = Adds-new_cfg g.entry g.exit in
    (
      h,
      e,
      (λ x. adds.1 x ∙ ap (λ l. l ++ all_insts fork g.blocks x) (no_i x)),
      (λ x y. adds.2 x y ∙ ap (λ t. t || all_edges fork g g.blocks x y) (no_e x y)),
      adds.3 (Agrees-new_cfg g.entry g.exit),
    )
