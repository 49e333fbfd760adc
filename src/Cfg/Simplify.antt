-- ===== src/Cfg/Simplify.antt =====
-- `cfg_t::simplify` of src/crab/cfg.hpp: chains of blocks are merged into their first block. Each
-- round of the outer loop erases a label of the worklist and each round of the inner loop a block
-- of the graph, so fuel for as many rounds as there are labels and blocks is enough.
use ebpf_verifier.Base.{
  ℕ, zero, suc, Bool, false, ◌==◌, ◌&&◌, not, if◌then◌else◌, List, [], ◌∷◌, length,
}
use ebpf_verifier.Asm.{Label, label_eq}
use ebpf_verifier.Outcome.{Result, ok, err, ◌>>=◌, Fault}
use ebpf_verifier.Cfg.{
  Block, Cfg, get_node, move_back, add_edge, remove_edge, remove, erase_label, labels,
}

-- The first block of a set: `get_child` and `get_parent`, which assert that it has one element.
unfoldable pub only_node : Cfg → List Label → Result Block
only_node g [] = err Fault.assertion
only_node g (l ∷ []) = get_node g l
only_node g (l ∷ k ∷ set) = err Fault.assertion

-- `m_exit = label` where the merged block is the exit.
unfoldable pub move_exit : Label → Label → Cfg → Cfg
move_exit next l g = record {
  entry = g.entry;
  exit = if label_eq next g.exit then l else g.exit;
  blocks = g.blocks;
}

unfoldable pub add_children : Label → List Label → Cfg → Result Cfg
add_children l [] g = ok g
add_children l (k ∷ set) g = do b ← get_node g k; add_children l set (add_edge l k g)

-- One round of the inner loop: `next` goes into the block of `l`.
unfoldable pub absorb : Label → Block → Cfg → Result Cfg
absorb l next g = do
  linked ←
      add_children l next.next
        (remove_edge l next.label (move_back l next.insts (move_exit next.label l g)))
  remove next.label linked

-- Whether the inner loop goes on with a child.
unfoldable pub absorbs : Label → Block → Bool
absorbs l next = not (label_eq next.label l) && length next.prev == 1

unfoldable pub merge_chain : ℕ → Label → Cfg → List Label → Result (Cfg × List Label)
merge_chain zero l g work = err Fault.out_of_fuel
merge_chain (suc fuel) l g work = do
  b ← get_node g l
  if length b.next == 1
      then (do
        next ← only_node g b.next
        if absorbs l next
            then (do
              merged ← absorb l next g
              merge_chain fuel l merged (erase_label next.label work))
            else ok (g, work))
      else ok (g, work)

-- Whether the round passes over a block: it is the only child of its only parent.
unfoldable pub is_inner : Cfg → Block → Result Bool
is_inner g b =
    if length b.prev == 1
    then (do parent ← only_node g b.prev; ok (length parent.next == 1))
    else ok false

unfoldable pub simplify_loop : ℕ → Cfg → List Label → Result Cfg
simplify_loop fuel g [] = ok g
simplify_loop zero g (l ∷ work) = err Fault.out_of_fuel
simplify_loop (suc fuel) g (l ∷ work) = do
  b ← get_node g l
  inner ← is_inner g b
  if inner then simplify_loop fuel g work else (do
    state ← merge_chain (suc (length g.blocks)) l g work
    simplify_loop fuel state.0 state.1)

unfoldable pub simplify : Cfg → Result Cfg
simplify g = simplify_loop (length g.blocks) g (labels g)
