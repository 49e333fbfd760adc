-- ===== src/Assertions.antt =====
-- The assertions that each instruction needs: the class `AssertExtractor` of src/assertions.cpp,
-- and the loop body of `explicate_assertions` over the instructions of a block.
pub mod Complete
pub mod Erase
pub mod Calls
use ebpf_verifier.Base.{
  ℕ, Bool, true, false, not, ◌==◌, ◌&&◌, if◌then◌else◌, Option, none, some, List, [], ◌∷◌, ◌++◌,
}
use ebpf_verifier.Base.Int.{ℤ, pos}
use ebpf_verifier.Asm.{
  Reg, Value, BinOp, Bin, ConditionOp, Condition, Jmp, ArgSingleKind, ArgSingle, ArgPairKind,
  ArgPair, Call, Mem, LockAdd, TypeGroup, AssertionConstraint, Assert, unproved, Instruction,
}
use ebpf_verifier.Outcome.{Result, ok, err, ◌>>=◌, Fault}
use ebpf_verifier.Ebpf.{r0_return_value, r10_stack_pointer}

-- `BpfProgType` of src/gpl/spec_type_descriptors.hpp.
pub data BpfProgType : Type 0 where
  unspec socket_filter kprobe sched_cls sched_act tracepoint xdp perf_event : BpfProgType
  cgroup_skb cgroup_sock lwt_in lwt_out lwt_xmit sock_ops sk_skb cgroup_device : BpfProgType
  sk_msg raw_tracepoint cgroup_sock_addr lwt_seg6local lirc_mode2 : BpfProgType

unfoldable pub is_privileged : BpfProgType → Bool
is_privileged BpfProgType.kprobe = true
is_privileged _ = false

abbrev needs_type : Reg → TypeGroup → Assert
needs_type r types = unproved (AssertionConstraint.type_constraint r types)

abbrev number_of : ℕ → Value
number_of n = Value.imm (record { v = n })

-- `ValidAccess{reg}`: the other fields have their defaults.
abbrev accessible : Reg → Assert
accessible r = unproved (AssertionConstraint.valid_access r (pos 0) (number_of 0) false)

unfoldable pub is_map_key : ArgSingleKind → Bool
is_map_key ArgSingleKind.ptr_to_map_key = true
is_map_key _ = false

-- `ValidMapKeyValue{arg.reg, *map_fd_reg, …}`: no register seen so far is the fault.
unfoldable pub map_argument : ArgSingle → Option Reg → Result (List Assert)
unfolding is_map_key
map_argument arg none = err Fault.out_of_range
map_argument arg (some fd) = ok (
    needs_type arg.reg TypeGroup.stack_or_packet
    ∷ unproved (AssertionConstraint.valid_map_key_value arg.reg fd (is_map_key arg.kind))
    ∷ [])

-- One round of the loop over `call.singles`: its assertions, and `map_fd_reg` behind it.
unfoldable pub single_asserts : Bool → ArgSingle → Option Reg → Result (List Assert)
unfolding map_argument
single_asserts privileged arg fd = elim (arg.kind) [
  | ArgSingleKind.anything ↦ ok (if privileged then [] else needs_type arg.reg TypeGroup.num ∷ [])
  | ArgSingleKind.map_fd ↦ ok (needs_type arg.reg TypeGroup.map_fd ∷ [])
  | ArgSingleKind.ptr_to_map_key ↦ map_argument arg fd
  | ArgSingleKind.ptr_to_map_value ↦ map_argument arg fd
  | ArgSingleKind.ptr_to_ctx ↦ ok (needs_type arg.reg TypeGroup.ctx ∷ [])
]

unfoldable pub next_map_fd : ArgSingle → Option Reg → Option Reg
next_map_fd arg fd = elim (arg.kind) [ ArgSingleKind.map_fd ↦ some arg.reg | _ ↦ fd ]

unfoldable pub singles_asserts : Bool → Option Reg → List ArgSingle → Result (List Assert)
unfolding single_asserts next_map_fd
singles_asserts privileged fd [] = ok []
singles_asserts privileged fd (arg ∷ args) = do
  these ← single_asserts privileged arg fd
  rest ← singles_asserts privileged (next_map_fd arg fd) args
  ok (these ++ rest)

pair_group : ArgPairKind → TypeGroup
pair_group ArgPairKind.ptr_to_mem_or_null = TypeGroup.mem_or_num
pair_group ArgPairKind.ptr_to_mem = TypeGroup.mem
pair_group ArgPairKind.ptr_to_uninit_mem = TypeGroup.mem

unfoldable pub is_or_null : ArgPairKind → Bool
is_or_null ArgPairKind.ptr_to_mem_or_null = true
is_or_null _ = false

unfoldable pub pair_asserts : List ArgPair → List Assert
unfolding pair_group is_or_null
pair_asserts [] = []
pair_asserts (arg ∷ args) =
    needs_type arg.mem (pair_group arg.kind)
    ∷ needs_type arg.size TypeGroup.num
    ∷ unproved (AssertionConstraint.valid_size arg.size arg.can_be_zero)
    ∷ unproved (
        AssertionConstraint.valid_access arg.mem (pos 0) (Value.reg arg.size) (is_or_null arg.kind))
    ∷ pair_asserts args

unfoldable pub call_asserts : Bool → Call → Result (List Assert)
unfolding singles_asserts pair_asserts
call_asserts privileged call = do
  singles ← singles_asserts privileged none call.singles
  ok (singles ++ pair_asserts call.pairs)

is_equality : ConditionOp → Bool
is_equality ConditionOp.eq = true
is_equality ConditionOp.ne = true
is_equality _ = false

-- `explicate`: what a comparison needs.
unfoldable pub explicate : Bool → Condition → List Assert
unfolding is_equality
explicate true cond = []
explicate false cond = accessible cond.left ∷ (elim (cond.right) [
  | Value.imm i ↦ if i.v == 0 then [] else needs_type cond.left TypeGroup.num ∷ []
  | Value.reg r ↦
      accessible r
      ∷ ((if is_equality cond.op then [] else needs_type cond.left TypeGroup.non_map_fd ∷ [])
          ++ unproved (AssertionConstraint.comparable cond.left r) ∷ [])
])

-- What a store of a register needs: a number, or 8 bytes that may hold a pointer.
unfoldable pub store_asserts : Bool → Mem → List Assert
store_asserts privileged m =
    if not privileged && not m.is_load
    then (elim (m.value) [
      | Value.imm i ↦ []
      | Value.reg r ↦
          if m.access.width == 8
          then unproved (AssertionConstraint.valid_store m.access.basereg r) ∷ []
          else needs_type r TypeGroup.num ∷ []
    ])
    else []

unfoldable pub mem_asserts : Bool → Mem → List Assert
unfolding store_asserts
mem_asserts privileged m =
    let access = unproved (
      AssertionConstraint.valid_access m.access.basereg m.access.offset (number_of m.access.width)
        false) in
    if m.access.basereg.v == r10_stack_pointer
    then access ∷ []
    else needs_type m.access.basereg TypeGroup.ptr ∷ access ∷ store_asserts privileged m

unfoldable pub lock_add_asserts : LockAdd → List Assert
lock_add_asserts l =
    needs_type l.access.basereg TypeGroup.shared
    ∷ unproved (
        AssertionConstraint.valid_access l.access.basereg l.access.offset (number_of l.access.width)
          false)
    ∷ []

unfoldable pub bin_asserts : Bin → List Assert
bin_asserts b = elim (b.op) [
  | BinOp.mov ↦ []
  | BinOp.add ↦ elim (b.v) [
    | Value.imm i ↦ []
    | Value.reg r ↦
        unproved (AssertionConstraint.addable r b.dst)
        ∷ unproved (AssertionConstraint.addable b.dst r)
        ∷ []
  ]
  | BinOp.sub ↦ elim (b.v) [
    | Value.imm i ↦ []
    | Value.reg r ↦
        needs_type b.dst TypeGroup.ptr_or_num
        ∷ unproved (AssertionConstraint.comparable r b.dst)
        ∷ []
  ]
  | _ ↦ needs_type b.dst TypeGroup.num ∷ []
]

-- The visitor. The alternatives with no case of their own need nothing.
unfoldable pub extract : Bool → Instruction → Result (List Assert)
unfolding call_asserts explicate mem_asserts lock_add_asserts bin_asserts
extract privileged (Instruction.packet p) = ok (needs_type (record { v = 6 }) TypeGroup.ctx ∷ [])
extract privileged Instruction.exit =
    ok (needs_type (record { v = r0_return_value }) TypeGroup.num ∷ [])
extract privileged (Instruction.call c) = call_asserts privileged c
extract privileged (Instruction.assume a) = ok (explicate privileged a.cond)
extract privileged (Instruction.jmp j) =
    ok (elim (j.cond) [ none ↦ [] | some c ↦ explicate privileged c ])
extract privileged (Instruction.mem m) = ok (mem_asserts privileged m)
extract privileged (Instruction.lock_add l) = ok (lock_add_asserts l)
extract privileged (Instruction.bin b) = ok (bin_asserts b)
extract privileged _ = ok []

unfoldable pub assert_all : List Assert → List Instruction
assert_all [] = []
assert_all (a ∷ rest) = Instruction.assert a ∷ assert_all rest

-- The new instructions of a block: each behind its assertions.
unfoldable pub explicate_block : Bool → List Instruction → Result (List Instruction)
unfolding extract assert_all
explicate_block privileged [] = ok []
explicate_block privileged (ins ∷ insts) = do
  asserts ← extract privileged ins
  rest ← explicate_block privileged insts
  ok (assert_all asserts ++ ins ∷ rest)
