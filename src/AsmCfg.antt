-- ===== src/AsmCfg.antt =====
-- From instructions to a control-flow graph: src/asm_cfg.cpp.
pub mod Symmetric
pub mod Reverse
pub mod Decoded
pub mod Nondet
use ebpf_verifier.Base.{
  ℕ, zero, suc, ltb, Bool, true, false, not, ◌==◌, ◌&&◌, ◌||◌, if◌then◌else◌, Option, none, some,
  List, [], ◌∷◌, ◌++◌, length, String,
}
use ebpf_verifier.Base.Int.{ℤ, negsuc, eqb_ℤ}
use ebpf_verifier.Asm.{
  Label, label_t, edge_label, ConditionOp, Condition, Jmp, Call, ArgSingle, ArgSingleKind, BinOp,
  Bin, Instruction, InstructionSeq,
}
use ebpf_verifier.Outcome.{Result, ok, err, ◌>>=◌, Fault}
use ebpf_verifier.Cfg.{
  Block, Cfg, new_cfg, get_node, insert, push_inst, add_edge, erase_label, swap_instructions,
}
use ebpf_verifier.Cfg.Simplify.{simplify}
use ebpf_verifier.Assertions.{explicate_block, is_privileged, BpfProgType}

unfoldable pub get_jump : Instruction → Option Label
get_jump (Instruction.jmp j) = some j.target
get_jump _ = none

is_conditional : Jmp → Bool
is_conditional j = elim (j.cond) [ none ↦ false | some c ↦ true ]

unfoldable pub has_fall : Instruction → Bool
unfolding is_conditional
has_fall Instruction.exit = false
has_fall (Instruction.jmp j) = is_conditional j
has_fall _ = true

-- The label of the last exit.
unfoldable pub last_exit : InstructionSeq → Option Label → Option Label
last_exit [] l = l
last_exit ((label, Instruction.exit) ∷ insts) l = last_exit insts (some label)
last_exit ((label, _) ∷ insts) l = last_exit insts l

unfoldable pub find_exit_label : InstructionSeq → Result Label
find_exit_label insts = elim (last_exit insts none) [
  | none ↦ err (Fault.runtime_error "no exit")
  | some l ↦ ok l
]

-- `cfg.get_node(*falling_from) >> bb`.
unfoldable pub fall_edge : Option Label → Label → Cfg → Result Cfg
fall_edge none l g = ok g
fall_edge (some k) l g = do b ← get_node g k; ok (add_edge k l g)

-- `bb >> cfg.insert(*jump_target)`.
unfoldable pub jump_edge : Option Label → Label → Cfg → Cfg
jump_edge none l g = g
jump_edge (some k) l g = add_edge l k (insert k g)

unfoldable pub fall_label : Instruction → Label → Option Label
fall_label ins l = if has_fall ins then some l else none

-- One instruction of the listing, and the rest.
unfoldable pub add_insts : InstructionSeq → Option Label → Cfg → Result Cfg
add_insts [] none g = ok g
add_insts [] (some l) g = err (Fault.invalid_argument "fallthrough in last instruction")
add_insts ((label, Instruction.undefined u) ∷ insts) falling_from g = add_insts insts falling_from g
add_insts ((label, ins) ∷ insts) falling_from g = do
  linked ← fall_edge falling_from label (push_inst label ins (insert label g))
  add_insts insts (fall_label ins label) (jump_edge (get_jump ins) label linked)

unfoldable pub instruction_seq_to_cfg : InstructionSeq → Result Cfg
instruction_seq_to_cfg insts = do
  exit ← find_exit_label insts
  add_insts insts none (new_cfg (label_t 0) exit)

-- The inverse of a comparison.
unfoldable pub reverse_op : ConditionOp → ConditionOp
reverse_op ConditionOp.eq = ConditionOp.ne
reverse_op ConditionOp.ne = ConditionOp.eq
reverse_op ConditionOp.ge = ConditionOp.lt
reverse_op ConditionOp.lt = ConditionOp.ge
reverse_op ConditionOp.sge = ConditionOp.slt
reverse_op ConditionOp.slt = ConditionOp.sge
reverse_op ConditionOp.le = ConditionOp.gt
reverse_op ConditionOp.gt = ConditionOp.le
reverse_op ConditionOp.sle = ConditionOp.sgt
reverse_op ConditionOp.sgt = ConditionOp.sle
reverse_op ConditionOp.set = ConditionOp.nset
reverse_op ConditionOp.nset = ConditionOp.set

unfoldable pub reverse : Condition → Condition
reverse cond = record { op = reverse_op cond.op; left = cond.left; right = cond.right }

unfoldable pub is_jmp : Instruction → Bool
is_jmp (Instruction.jmp j) = true
is_jmp _ = false

-- The statements of a block that are no jumps.
unfoldable pub push_plain : Label → List Instruction → Cfg → Cfg
push_plain l [] g = g
push_plain l (ins ∷ insts) g = push_plain l insts (if is_jmp ins then g else push_inst l ins g)

-- The node that an edge comes from: that of the jump's edge where the source has two successors.
unfoldable pub source_label : Cfg → Label → Label → Result Label
source_label g prev l = do
  b ← get_node g prev
  if ltb 1 (length b.next) then edge_label prev l else ok prev

unfoldable pub add_sources : Cfg → Label → List Label → Cfg → Result Cfg
add_sources g l [] res = ok res
add_sources g l (prev ∷ set) res = do
  k ← source_label g prev l
  add_sources g l set (add_edge k l (insert k res))

-- One branch: a node for the edge that assumes the condition.
unfoldable pub add_branch : Label → Label → Condition → Cfg → Result Cfg
add_branch l next cond res = do
  k ← edge_label l next
  let opened = push_inst k (Instruction.assume (record { cond = cond })) (insert k res)
  ok (add_edge k next (insert next (add_edge l k opened)))

unfoldable pub add_nexts : Label → List Label → Cfg → Cfg
add_nexts l [] res = res
add_nexts l (next ∷ set) res = add_nexts l set (add_edge l next (insert next res))

-- `*bb.rbegin()`, `std::get<Jmp>` and `*jmp.cond`; the last also where there is no condition.
unfoldable pub last_jump : List Instruction → Result Jmp
last_jump [] = err Fault.out_of_range
last_jump (Instruction.jmp j ∷ []) = ok j
last_jump (ins ∷ []) = err (Fault.runtime_error "bad variant access")
last_jump (ins ∷ insts) = last_jump insts

unfoldable pub condition_of : Jmp → Result Condition
condition_of j = elim (j.cond) [ none ↦ err Fault.out_of_range | some c ↦ ok c ]

unfoldable pub first_label : List Label → Result Label
first_label [] = err Fault.out_of_range
first_label (l ∷ set) = ok l

unfoldable pub add_branches : Block → Cfg → Result Cfg
add_branches b res = do
  j ← last_jump b.insts
  fallthrough ← first_label (erase_label j.target b.next)
  cond ← condition_of j
  taken ← add_branch b.label j.target cond res
  add_branch b.label fallthrough (reverse cond) taken

-- One block of the loop, and the rest.
unfoldable pub nondet_block : Cfg → Block → Cfg → Result Cfg
nondet_block g b res = do
  linked ← add_sources g b.label b.prev (push_plain b.label b.insts (insert b.label res))
  if length b.next == 2 then add_branches b linked else ok (add_nexts b.label b.next linked)

unfoldable pub nondet_blocks : Cfg → List Block → Cfg → Result Cfg
nondet_blocks g [] res = ok res
nondet_blocks g (b ∷ blocks) res = do next ← nondet_block g b res; nondet_blocks g blocks next

unfoldable pub to_nondet : Cfg → Result Cfg
to_nondet g = nondet_blocks g g.blocks (new_cfg g.entry g.exit)

-- `explicate_assertions` of src/assertions.cpp.
unfoldable pub explicate_blocks : Bool → List Block → Cfg → Result Cfg
explicate_blocks privileged [] g = ok g
explicate_blocks privileged (b ∷ blocks) g = do
  insts ← explicate_block privileged b.insts
  explicate_blocks privileged blocks (swap_instructions b.label insts g)

unfoldable pub explicate_assertions : Bool → Cfg → Result Cfg
explicate_assertions privileged g = explicate_blocks privileged g.blocks g

-- The program's type is all that the passes read of `program_info`.
unfoldable pub prepare_cfg : InstructionSeq → BpfProgType → Bool → Result Cfg
prepare_cfg prog program_type simplified = do
  det ← instruction_seq_to_cfg prog
  asserted ← explicate_assertions (is_privileged program_type) det
  g ← to_nondet asserted
  if simplified then simplify g else ok g

is_anything : ArgSingle → Bool
is_anything arg = elim (arg.kind) [ ArgSingleKind.anything ↦ true | _ ↦ false ]

all_anything : List ArgSingle → Bool
unfolding is_anything
all_anything [] = true
all_anything (arg ∷ args) = is_anything arg && all_anything args

unfoldable pub call_type : Call → String
unfolding all_anything
call_type c =
    if c.returns_map
    then "call_1"
    else if length c.pairs == 0 && all_anything c.singles
    then "call_nomem"
    else "call_mem"

unfoldable pub instype : Instruction → String
unfolding call_type
instype (Instruction.call c) = call_type c
instype (Instruction.mem m) = if m.is_load then "load" else "store"
instype (Instruction.lock_add l) = "load_store"
instype (Instruction.packet p) = "packet_access"
instype (Instruction.bin b) = elim (b.op) [ BinOp.mov ↦ "assign" | _ ↦ "arith" ]
instype (Instruction.un u) = "arith"
instype (Instruction.load_map_fd m) = "assign"
instype (Instruction.assume a) = "assume"
instype _ = "other"
