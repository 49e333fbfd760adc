-- ===== src/AsmCfg/Symmetric.antt =====
-- The graph that `instruction_seq_to_cfg` of src/asm_cfg.cpp makes of a listing.
use ebpf_verifier.Base.{
  Bool, true, false, if◌then◌else◌, ◌≡◌, refl, ◌∙◌, Option, none, some, [], ◌∷◌, ◌++◌, arith,
}
use ebpf_verifier.Asm.{Label, label_t, label_eq, Instruction, InstructionSeq}
use ebpf_verifier.Outcome.{ok, ◌>>=◌}
use ebpf_verifier.Cfg.{
  Block, Cfg, new_cfg, emplace, insert, get_node, push_inst, add_edge, has_label,
}
use ebpf_verifier.Cfg.Symmetric.{
  IsSymmetric, is_block, emplace_sets, find_present, IsSymmetric-emplace, IsSymmetric-add_edge,
  is_block-add_edge, IsSymmetric-set_insts, is_block-set_insts, next_of, prev_of,
}
use ebpf_verifier.AsmCfg.{
  get_jump, has_fall, last_exit, find_exit_label, fall_edge, jump_edge, fall_label, add_insts,
  instruction_seq_to_cfg,
}

-- A graph whose sets agree and that has the block of a label.
abbrev pub Has : Cfg → Label → Type 0
Has g l = is_block l g.blocks ≡ true

abbrev pub Agrees : Cfg → Type 0
Agrees g = IsSymmetric g.blocks

label_eq_self : (l : Label) → label_eq l l ≡ true
label_eq_self l = ground arith

pub Has-insert : (l : Label) (g : Cfg) → Has (insert l g) l
unfolding insert
Has-insert l g = grind (arith, (emplace_sets l l g.blocks).2, label_eq_self l)

pub Has-insert_old : (x l : Label) (g : Cfg) → Has g x → Has (insert l g) x
unfolding insert
Has-insert_old x l g h = grind (arith, (emplace_sets x l g.blocks).2, h)

pub Agrees-insert : (l : Label) (g : Cfg) → Agrees g → Agrees (insert l g)
unfolding insert
Agrees-insert l g h = IsSymmetric-emplace l g.blocks h

pub Has-push_inst :
    (x l : Label) (ins : Instruction) (g : Cfg) → Has g x → Has (push_inst l ins g) x
unfolding push_inst
Has-push_inst x l ins g h = is_block-set_insts l (λ insts. insts ++ ins ∷ []) g.blocks x ∙ h

pub Agrees-push_inst :
    (l : Label) (ins : Instruction) (g : Cfg) → Agrees g → Agrees (push_inst l ins g)
unfolding push_inst
Agrees-push_inst l ins g h = IsSymmetric-set_insts l (λ insts. insts ++ ins ∷ []) g.blocks h

pub Has-add_edge : (x a b : Label) (g : Cfg) → Has g x → Has (add_edge a b g) x
Has-add_edge x a b g h = is_block-add_edge x a b g ∙ h

get_node-Has : (g : Cfg) (l : Label) → Has g l → (b : Block) × get_node g l ≡ ok b
unfolding get_node
get_node-Has g l h = let (b, e, k) = find_present l g.blocks h in (b, rw (e, get_node) refl)

-- The label that falls through, if any, has a block.
abbrev Falls : Cfg → Option Label → Type 0
Falls g none = Unit {0}
Falls g (some l) = Has g l

fall_edge-total :
    (ff : Option Label) (l : Label) (g : Cfg)
    → Falls g ff
    → Has g l
    → Agrees g
    → (r : Cfg) × fall_edge ff l g ≡ ok r × Has r l × Agrees r
unfolding fall_edge
fall_edge-total none l g f h k = (g, refl, h, k)
fall_edge-total (some m) l g f h k =
    let (b, e) = get_node-Has g m f in
    (add_edge m l g, rw e refl, Has-add_edge l m l g h, IsSymmetric-add_edge m l g f h k)

jump_edge-Agrees :
    (target : Option Label) (l : Label) (g : Cfg)
    → Has g l
    → Agrees g
    → Has (jump_edge target l g) l × Agrees (jump_edge target l g)
unfolding jump_edge
jump_edge-Agrees none l g h k = (h, k)
jump_edge-Agrees (some m) l g h k =
    let here = Has-insert_old l m g h in
    (
      Has-add_edge l l m (insert m g) here,
      IsSymmetric-add_edge l m (insert m g) here (Has-insert m g) (Agrees-insert m g k),
    )

Falls-fall_label : (ins : Instruction) (l : Label) (g : Cfg) → Has g l → Falls g (fall_label ins l)
unfolding fall_label
Falls-fall_label ins l g h = falls_if (has_fall ins)
  where
    falls_if : (t : Bool) → Falls g (if t then some l else none)
    falls_if true = h
    falls_if false = tt

-- The label that falls off the end of a listing, where `falling_from` falls into its start.
unfoldable pub fall_off : InstructionSeq → Option Label → Option Label
fall_off [] falling_from = falling_from
fall_off ((label, Instruction.undefined u) ∷ insts) falling_from = fall_off insts falling_from
fall_off ((label, ins) ∷ insts) falling_from = fall_off insts (fall_label ins label)

-- What `add_insts` gives for a listing.
abbrev Builds : InstructionSeq → Option Label → Cfg → Type 0
Builds insts ff g = (r : Cfg) × add_insts insts ff g ≡ ok r × Agrees r

module _ (l : Label) (ins : Instruction) (insts : InstructionSeq) where
  add_one :
      ((ff : Option Label) (g : Cfg)
        → Falls g ff
        → Agrees g
        → fall_off insts ff ≡ none
        → Builds insts ff g)
      → (ff : Option Label) (g : Cfg) → Falls g ff
      → Agrees g
      → fall_off insts (fall_label ins l) ≡ none
      → (r : Cfg) × (do
        linked ← fall_edge ff l (push_inst l ins (insert l g))
        add_insts insts (fall_label ins l) (jump_edge (get_jump ins) l linked))
          ≡ ok r
        × Agrees r
  add_one rest ff g f k e =
      let opened = insert l g in
      let pushed = push_inst l ins opened in
      let (linked, p, here, agrees) =
        fall_edge-total ff l pushed (Falls_old ff g f)
          (Has-push_inst l l ins opened (Has-insert l g))
          (Agrees-push_inst l ins opened (Agrees-insert l g k)) in
      let (there, done) = jump_edge-Agrees (get_jump ins) l linked here agrees in
      let (r, q, c) =
        rest (fall_label ins l) (jump_edge (get_jump ins) l linked)
          (Falls-fall_label ins l (jump_edge (get_jump ins) l linked) there) done e in
      (r, rw p q, c)
    where
      Falls_old :
          (ff : Option Label) (g : Cfg) → Falls g ff → Falls (push_inst l ins (insert l g)) ff
      Falls_old none g h = tt
      Falls_old (some m) g h = Has-push_inst m l ins (insert l g) (Has-insert_old m l g h)

add_insts-total :
    (insts : InstructionSeq) (ff : Option Label) (g : Cfg)
    → Falls g ff
    → Agrees g
    → fall_off insts ff ≡ none
    → Builds insts ff g
unfolding add_insts fall_off
add_insts-total [] none g f k e = (g, refl, k)
add_insts-total [] (some l) g f k e = ground (arith, e)
add_insts-total ((label, Instruction.undefined u) ∷ insts) ff g f k e =
    add_insts-total insts ff g f k e
add_insts-total ((label, ins) ∷ insts) ff g f k e =
    add_one label ins insts (λ ff g f k e. add_insts-total insts ff g f k e) ff g f k e

pub Agrees-new_cfg : (entry exit : Label) → Agrees (new_cfg entry exit)
unfolding new_cfg has_label next_of prev_of
Agrees-new_cfg entry exit =
    IsSymmetric-emplace exit (emplace entry []) (IsSymmetric-emplace entry [] (λ a b. refl))

-- A listing that has an exit, and whose last instruction does not fall through, has a graph. In
-- that graph `b` is in the successors of `a` exactly where `a` is in the predecessors of `b`.
pub instruction_seq_to_cfg-total :
    (insts : InstructionSeq) (exit : Label)
    → last_exit insts none ≡ some exit
    → fall_off insts none ≡ none
    → (r : Cfg) × instruction_seq_to_cfg insts ≡ ok r × IsSymmetric r.blocks
unfolding instruction_seq_to_cfg find_exit_label
instruction_seq_to_cfg-total insts exit e f =
    let (r, p, k) =
      add_insts-total insts none (new_cfg (label_t 0) exit) tt (Agrees-new_cfg (label_t 0) exit)
        f in
    (r, rw (e, find_exit_label, instruction_seq_to_cfg) p, k)
