-- ===== src/Examples/Graphs.antt =====
-- Listings and graphs on which the theorems on src/asm_cfg.cpp, src/crab/cfg.hpp and
-- src/assertions.cpp are applied.
use ebpf_verifier.Base.{ℕ, ◌≡◌, refl, true, false, not, none, some, List, [], ◌∷◌, All, arith}
use ebpf_verifier.Base.Int.{pos}
use ebpf_verifier.Asm.{
  Label, label_t, Reg, Value, ConditionOp, Jmp, ArgSingleKind, ArgPairKind, Call, Assert,
  Instruction, InstructionSeq,
}
use ebpf_verifier.Outcome.{ok}
use ebpf_verifier.Assertions.{next_map_fd, extract, explicate_block}
use ebpf_verifier.Assertions.Erase.{drop_asserts, IsExplicable, IsOrdered, explicate_block-erase}
use ebpf_verifier.Helpers.Table.{kernel_prototypes}
use ebpf_verifier.Unmarshal.Jump.{make_call}
use ebpf_verifier.Assertions.Calls.{make_call-IsOrdered}
use ebpf_verifier.Assertions.Complete.{Covers, accesses, extract-total-Covers}
use ebpf_verifier.Cfg.{
  Block, Cfg, new_cfg, add_edge, remove_edge, emplace, find, place, has_label, erase_label,
}
use ebpf_verifier.Cfg.Symmetric.{
  IsSymmetric, IsSymmetric-add_edge, IsSymmetric-remove_edge, is_block, IsSymmetric-emplace,
  next_of, prev_of,
}
use ebpf_verifier.AsmCfg.{instruction_seq_to_cfg, last_exit, fall_label, has_fall, reverse_op}
use ebpf_verifier.AsmCfg.Symmetric.{fall_off, instruction_seq_to_cfg-total}
use ebpf_verifier.AsmCfg.{to_nondet, last_jump, first_label}
use ebpf_verifier.AsmCfg.Nondet.{Fork, IsPrepared, all_insts, all_edges, to_nondet_lem}
use ebpf_verifier.Cfg.Contents.{insts_of}
use ebpf_verifier.AsmCfg.Reverse.{holds, holds-reverse_op}

abbrev r : ℕ → Reg
r n = record { v = n }

-- A look-up: a map, a key, and a buffer whose size is in a register.
abbrev look_up : Call
look_up = record {
  func = pos 1;
  name = "lookup";
  pkt_access = false;
  returns_map = true;
  singles =
      record { kind = ArgSingleKind.map_fd; reg = r 1 }
      ∷ record { kind = ArgSingleKind.ptr_to_map_key; reg = r 2 }
      ∷ [];
  pairs =
      record { kind = ArgPairKind.ptr_to_mem_or_null; mem = r 3; size = r 4; can_be_zero = true }
      ∷ [];
}

look_up-ordered : IsExplicable (Instruction.call look_up)
unfolding next_map_fd
look_up-ordered = (tt, (tt, tt))

extract-total-Covers_example :
    (list : List Assert) × extract false (Instruction.call look_up) ≡ ok list
    × Covers (accesses (Instruction.call look_up)) list
extract-total-Covers_example = extract-total-Covers false (Instruction.call look_up) look_up-ordered

explicate_block-erase_example :
    (out : List Instruction) × explicate_block false
        (Instruction.call look_up ∷ Instruction.exit ∷ [])
      ≡ ok out
    × drop_asserts out ≡ Instruction.call look_up ∷ Instruction.exit ∷ []
explicate_block-erase_example =
    explicate_block-erase false (Instruction.call look_up ∷ Instruction.exit ∷ [])
      (look_up-ordered, (tt, tt))

make_call-IsOrdered_example :
    (c : Call) × make_call kernel_prototypes (pos 1) ≡ ok c × IsOrdered none c.singles
make_call-IsOrdered_example = make_call-IsOrdered (pos 1)

-- `if r1 < 5 goto 2; r0 = r1 lookup; exit`.
abbrev if_lt : Jmp
if_lt = record {
  cond = some (record { op = ConditionOp.lt; left = r 1; right = Value.imm (record { v = 5 }) });
  target = label_t 2;
}

abbrev listing : InstructionSeq
listing =
    (label_t 0, Instruction.jmp if_lt)
    ∷ (label_t 1, Instruction.call look_up)
    ∷ (label_t 2, Instruction.exit)
    ∷ []

last_exit-listing : last_exit listing none ≡ some (label_t 2)
unfolding last_exit
last_exit-listing = refl

fall_off-listing : fall_off listing none ≡ none
unfolding fall_off fall_label has_fall
fall_off-listing = refl

instruction_seq_to_cfg-total_example :
    (g : Cfg) × instruction_seq_to_cfg listing ≡ ok g × IsSymmetric g.blocks
instruction_seq_to_cfg-total_example =
    instruction_seq_to_cfg-total listing (label_t 2) last_exit-listing fall_off-listing

-- A branch at 0 to 1 and 2, which both go to 3.
abbrev block : ℕ → List Instruction → List Label → List Label → Block
block n insts prev next = record { label = label_t n; insts = insts; prev = prev; next = next }

abbrev diamond : Cfg
diamond = record {
  entry = label_t 0;
  exit = label_t 3;
  blocks =
      block 0 (Instruction.jmp if_lt ∷ []) [] (label_t 1 ∷ label_t 2 ∷ [])
      ∷ block 1 [] (label_t 0 ∷ []) (label_t 3 ∷ [])
      ∷ block 2 [] (label_t 0 ∷ []) (label_t 3 ∷ [])
      ∷ block 3 (Instruction.exit ∷ []) (label_t 1 ∷ label_t 2 ∷ []) []
      ∷ [];
}

-- The jump of the first block.
abbrev fork : Block → Fork
fork b = record {
  target = label_t 2;
  fall = label_t 1;
  cond = record { op = ConditionOp.lt; left = r 1; right = Value.imm (record { v = 5 }) };
}

diamond-IsPrepared : All (IsPrepared diamond fork) diamond.blocks
unfolding is_block next_of last_jump first_label erase_label
diamond-IsPrepared = (
  (tt, λ e. (if_lt, refl, refl, refl, refl, refl, refl, refl)),
  (
    (((refl, λ e. (refl, refl)), tt), λ e. absurd (ground arith)),
    (
      (((refl, λ e. (refl, refl)), tt), λ e. absurd (ground arith)),
      (
        (((refl, λ e. (refl, refl)), ((refl, λ e. (refl, refl)), tt)), λ e. absurd (ground arith)),
        tt,
      ),
    ),
  ),
)

to_nondet_lem_example :
    (h : Cfg) × (to_nondet diamond ≡ ok h)
    × ((x : Label) → insts_of x h.blocks ≡ all_insts fork diamond.blocks x)
    × ((x y : Label) → has_label y (next_of x h.blocks) ≡ all_edges fork diamond diamond.blocks x y)
    × IsSymmetric h.blocks
to_nondet_lem_example = to_nondet_lem diamond fork diamond-IsPrepared

holds-reverse_op_example :
    holds (reverse_op ConditionOp.sgt) 5 18446744073709551615
    ≡ not (holds ConditionOp.sgt 5 18446744073709551615)
holds-reverse_op_example = holds-reverse_op ConditionOp.sgt 5 18446744073709551615

-- Two blocks without edges.
abbrev pair : Cfg
pair = new_cfg (label_t 0) (label_t 1)

nothing_to : IsSymmetric []
unfolding has_label next_of prev_of
nothing_to = λ a b. refl

pair-IsSymmetric : IsSymmetric pair.blocks
unfolding new_cfg
pair-IsSymmetric =
    IsSymmetric-emplace (label_t 1) (emplace (label_t 0) [])
      (IsSymmetric-emplace (label_t 0) [] nothing_to)

first_is : is_block (label_t 0) pair.blocks ≡ true
unfolding new_cfg emplace find place is_block
first_is = refl

second_is : is_block (label_t 1) pair.blocks ≡ true
unfolding new_cfg emplace find place is_block
second_is = refl

IsSymmetric-add_edge_example : IsSymmetric (add_edge (label_t 0) (label_t 1) pair).blocks
IsSymmetric-add_edge_example =
    IsSymmetric-add_edge (label_t 0) (label_t 1) pair first_is second_is pair-IsSymmetric

IsSymmetric-remove_edge_example : IsSymmetric (remove_edge (label_t 0) (label_t 1) pair).blocks
IsSymmetric-remove_edge_example =
    IsSymmetric-remove_edge (label_t 0) (label_t 1) pair first_is second_is pair-IsSymmetric
