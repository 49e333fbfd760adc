-- ===== src/Cfg/Length.antt =====
-- How many blocks and labels the operations of src/crab/cfg.hpp leave.
use ebpf_verifier.Base.{
  true, Bool-cases, false≢true, ◌<◌, ◌≤◌, ◌≡◌, refl, ◌∙◌, inl, inr, List, [], ◌∷◌, length, arith,
}
use ebpf_verifier.Asm.{Label, label_eq}
use ebpf_verifier.Cfg.{
  Block, Cfg, update, set_prev, set_next, insert_label, erase_label, add_edge, remove_edge,
  remove_edges, erase,
}
use ebpf_verifier.Cfg.Symmetric.{is_block, is_block-update}

pub length-update :
    (l : Label) (f : Block → Block) (blocks : List Block)
    → length (update l f blocks) ≡ length blocks
unfolding update
length-update l f [] = refl
length-update l f (b ∷ blocks) = ground (arith, length-update l f blocks)

pub length-add_edge : (a b : Label) (g : Cfg) → length (add_edge a b g).blocks ≡ length g.blocks
unfolding add_edge
length-add_edge a b g =
    length-update b (set_prev (insert_label a)) (update a (set_next (insert_label b)) g.blocks)
    ∙ length-update a (set_next (insert_label b)) g.blocks

pub length-remove_edge :
    (a b : Label) (g : Cfg) → length (remove_edge a b g).blocks ≡ length g.blocks
unfolding remove_edge
length-remove_edge a b g =
    length-update b (set_prev (erase_label a)) (update a (set_next (erase_label b)) g.blocks)
    ∙ length-update a (set_next (erase_label b)) g.blocks

pub length-remove_edges :
    (edges : List (Label × Label)) (g : Cfg)
    → length (remove_edges edges g).blocks ≡ length g.blocks
unfolding remove_edges
length-remove_edges [] g = refl
length-remove_edges (e ∷ edges) g =
    length-remove_edges edges (remove_edge e.0 e.1 g) ∙ length-remove_edge e.0 e.1 g

pub is_block-remove_edges :
    (l : Label) (edges : List (Label × Label)) (g : Cfg)
    → is_block l (remove_edges edges g).blocks ≡ is_block l g.blocks
unfolding remove_edges remove_edge
is_block-remove_edges l [] g = refl
is_block-remove_edges l (e ∷ edges) g =
    is_block-remove_edges l edges (remove_edge e.0 e.1 g)
    ∙ is_block-update (set_prev (erase_label e.0)) (λ _. refl) l e.1
        (update e.0 (set_next (erase_label e.1)) g.blocks)
    ∙ is_block-update (set_next (erase_label e.1)) (λ _. refl) l e.0 g.blocks

pub erase_le : (l : Label) (blocks : List Block) → length (erase l blocks) ≤ length blocks
unfolding erase
erase_le l [] = omega arith
erase_le l (b ∷ blocks) = ground (arith, erase_le l blocks)

pub erase_lt :
    (l : Label) (blocks : List Block)
    → is_block l blocks ≡ true
    → length (erase l blocks) < length blocks
unfolding erase is_block
erase_lt l [] h = absurd (false≢true h)
erase_lt l (b ∷ blocks) h = elim (Bool-cases (label_eq b.label l)) [
  | inl e ↦ grind (arith, e, erase_le l blocks)
  | inr e ↦ grind (arith, e, h, erase_lt l blocks)
]

pub length-erase_label : (l : Label) (set : List Label) → length (erase_label l set) ≤ length set
unfolding erase_label
length-erase_label l [] = omega arith
length-erase_label l (k ∷ set) = ground (arith, length-erase_label l set)
