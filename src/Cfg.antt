-- ===== src/Cfg.antt =====
-- The control-flow graph: the classes `basic_block_t` and `cfg_t` of src/crab/cfg.hpp. A
-- `std::set` of labels and the map of the blocks are lists in ascending order; a reference to a
-- block is its label, and a change through the reference is `update`.
pub mod Symmetric
pub mod Contents
pub mod Simplify
pub mod Length
pub mod Termination
use ebpf_verifier.Base.{
  ℕ, zero, suc, Bool, true, false, not, ◌==◌, ◌&&◌, ◌||◌, if◌then◌else◌, Option, none, some, List,
  [], ◌∷◌, ◌++◌, length, map,
}
use ebpf_verifier.Asm.{Label, label_eq, label_lt, Instruction}
use ebpf_verifier.Outcome.{Result, ok, err, ◌>>=◌, Fault}

pub record Block : Type 0 where
  pub label : Label
  pub insts : List Instruction
  pub prev : List Label
  pub next : List Label

pub record Cfg : Type 0 where
  pub entry : Label
  pub exit : Label
  pub blocks : List Block

-- `basic_block_t(label)`.
abbrev pub new_block : Label → Block
new_block l = record { label = l; insts = []; prev = []; next = [] }

-- `std::set` of labels: `count`, `insert` and `erase`.
unfoldable pub has_label : Label → List Label → Bool
has_label l [] = false
has_label l (k ∷ set) = label_eq k l || has_label l set

unfoldable pub insert_label : Label → List Label → List Label
insert_label l [] = l ∷ []
insert_label l (k ∷ set) =
    if label_eq k l then k ∷ set else if label_lt l k then l ∷ k ∷ set else k ∷ insert_label l set

unfoldable pub erase_label : Label → List Label → List Label
erase_label l [] = []
erase_label l (k ∷ set) = let rest = erase_label l set in if label_eq k l then rest else k ∷ rest

-- `m_blocks.find`.
unfoldable pub find : Label → List Block → Option Block
find l [] = none
find l (b ∷ blocks) = let rest = find l blocks in if label_eq b.label l then some b else rest

-- `m_blocks.emplace(l, l)` where no block has the label.
unfoldable pub place : Label → List Block → List Block
place l [] = new_block l ∷ []
place l (b ∷ blocks) =
    let rest = place l blocks in if label_lt l b.label then new_block l ∷ b ∷ blocks else b ∷ rest

unfoldable pub emplace : Label → List Block → List Block
emplace l blocks = elim (find l blocks) [ none ↦ place l blocks | some b ↦ blocks ]

-- The constructor of a graph.
unfoldable pub new_cfg : Label → Label → Cfg
new_cfg entry exit = record { entry = entry; exit = exit; blocks = emplace exit (emplace entry []) }

abbrev pub with_blocks : Cfg → List Block → Cfg
with_blocks g blocks = record { entry = g.entry; exit = g.exit; blocks = blocks }

unfoldable pub get_node : Cfg → Label → Result Block
get_node g l = elim (find l g.blocks) [ none ↦ err Fault.assertion | some b ↦ ok b ]

unfoldable pub insert : Label → Cfg → Cfg
insert l g = with_blocks g (emplace l g.blocks)

-- A change to the block of a label.
unfoldable pub update : Label → (Block → Block) → List Block → List Block
update l f [] = []
update l f (b ∷ blocks) =
    let rest = update l f blocks in if label_eq b.label l then f b ∷ blocks else b ∷ rest

abbrev pub set_insts : (List Instruction → List Instruction) → Block → Block
set_insts f b = record { label = b.label; insts = f b.insts; prev = b.prev; next = b.next }

abbrev pub set_prev : (List Label → List Label) → Block → Block
set_prev f b = record { label = b.label; insts = b.insts; prev = f b.prev; next = b.next }

abbrev pub set_next : (List Label → List Label) → Block → Block
set_next f b = record { label = b.label; insts = b.insts; prev = b.prev; next = f b.next }

-- `bb.insert(ins)`, `bb.move_back(other)` and `bb.swap_instructions(insts)`.
unfoldable pub push_inst : Label → Instruction → Cfg → Cfg
push_inst l ins g = with_blocks g (update l (set_insts (λ insts. insts ++ ins ∷ [])) g.blocks)

unfoldable pub move_back : Label → List Instruction → Cfg → Cfg
move_back l other g = with_blocks g (update l (set_insts (λ insts. insts ++ other)) g.blocks)

unfoldable pub swap_instructions : Label → List Instruction → Cfg → Cfg
swap_instructions l insts g = with_blocks g (update l (set_insts (λ _. insts)) g.blocks)

-- `a >> b` and `a -= b`.
unfoldable pub add_edge : Label → Label → Cfg → Cfg
add_edge a b g =
    with_blocks g
      (update b (set_prev (insert_label a)) (update a (set_next (insert_label b)) g.blocks))

unfoldable pub remove_edge : Label → Label → Cfg → Cfg
remove_edge a b g =
    with_blocks g
      (update b (set_prev (erase_label a)) (update a (set_next (erase_label b)) g.blocks))

-- The edges into and out of a block other than a loop on it, each end a block of the graph.
unfoldable pub dead_in : Cfg → Label → List Label → Result (List (Label × Label))
dead_in g l [] = ok []
dead_in g l (k ∷ set) = do
  rest ← dead_in g l set
  if label_eq l k then ok rest else (do b ← get_node g k; ok ((k, l) ∷ rest))

unfoldable pub dead_out : Cfg → Label → List Label → Result (List (Label × Label))
dead_out g l [] = ok []
dead_out g l (k ∷ set) = do
  rest ← dead_out g l set
  if label_eq l k then ok rest else (do b ← get_node g k; ok ((l, k) ∷ rest))

unfoldable pub remove_edges : List (Label × Label) → Cfg → Cfg
remove_edges [] g = g
remove_edges (e ∷ edges) g = remove_edges edges (remove_edge e.0 e.1 g)

-- `m_blocks.erase`.
unfoldable pub erase : Label → List Block → List Block
erase l [] = []
erase l (b ∷ blocks) = let rest = erase l blocks in if label_eq b.label l then rest else b ∷ rest

unfoldable pub remove : Label → Cfg → Result Cfg
remove l g =
    if label_eq l g.entry
    then err Fault.assertion
    else if label_eq l g.exit
    then err Fault.assertion
    else do
      b ← get_node g l
      ins ← dead_in g l b.prev
      outs ← dead_out g l b.next
      let cut = remove_edges (ins ++ outs) g
      ok (with_blocks cut (erase l cut.blocks))

unfoldable pub labels : Cfg → List Label
labels g = map (λ b. b.label) g.blocks
