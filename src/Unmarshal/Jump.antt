-- ===== src/Unmarshal/Jump.antt =====
-- `getJmpOp`, `toArgSingleKind`, `toArgPairKind`, `makeCall` and `makeJmp` of
-- src/asm_unmarshal.cpp.
use ebpf_verifier.Base.{
  ℕ, ◌+◌, Bool, true, false, not, leb, ◌==◌, bit_and, if◌then◌else◌, Option, none, some, List, [],
  ◌∷◌, ◌++◌, length, get_elem?, suc,
}
use ebpf_verifier.Base.Int.{ℤ, pos, ◌+ℤ◌}
use ebpf_verifier.Base.Word.{u16_of, u32_of}
use ebpf_verifier.Asm.{
  ArgSingleKind, ArgPairKind, Call, ConditionOp, Condition, Value, Instruction, label_t,
}
use ebpf_verifier.Outcome.{Noted, Fault, Result, ok, err, pure, note_if, and_then}
use ebpf_verifier.Ebpf.{EbpfInst, op_field, inst_op_ja, inst_src_reg}
use ebpf_verifier.Helpers.{Ret, Arg, FuncProto, Prototypes}

-- The cases `return {}`, and the missing case 0xf, give the first enumerator.
unfoldable pub get_jmp_op : ℕ → Result ConditionOp
get_jmp_op opcode =
    let o = op_field opcode in
    if o == 0x0
    then ok ConditionOp.eq
    else if o == 0x1
    then ok ConditionOp.eq
    else if o == 0x2
    then ok ConditionOp.gt
    else if o == 0x3
    then ok ConditionOp.ge
    else if o == 0x4
    then ok ConditionOp.set
    else if o == 0x5
    then ok ConditionOp.ne
    else if o == 0x6
    then ok ConditionOp.sgt
    else if o == 0x7
    then ok ConditionOp.sge
    else if o == 0x8
    then ok ConditionOp.eq
    else if o == 0x9
    then ok ConditionOp.eq
    else if o == 0xa
    then ok ConditionOp.lt
    else if o == 0xb
    then ok ConditionOp.le
    else if o == 0xc
    then ok ConditionOp.slt
    else if o == 0xd
    then ok ConditionOp.sle
    else if o == 0xe
    then err (Fault.invalid_instruction "Invalid JMP op 0xe")
    else ok ConditionOp.eq

-- The default is the first enumerator, as `return {}` gives it.
unfoldable pub to_arg_single_kind : Arg → ArgSingleKind
to_arg_single_kind Arg.anything = ArgSingleKind.anything
to_arg_single_kind Arg.const_shared_ptr = ArgSingleKind.map_fd
to_arg_single_kind Arg.ptr_to_map_key = ArgSingleKind.ptr_to_map_key
to_arg_single_kind Arg.ptr_to_map_value = ArgSingleKind.ptr_to_map_value
to_arg_single_kind Arg.ptr_to_ctx = ArgSingleKind.ptr_to_ctx
to_arg_single_kind _ = ArgSingleKind.map_fd

unfoldable pub to_arg_pair_kind : Arg → ArgPairKind
to_arg_pair_kind Arg.ptr_to_mem_or_null = ArgPairKind.ptr_to_mem_or_null
to_arg_pair_kind Arg.ptr_to_mem = ArgPairKind.ptr_to_mem
to_arg_pair_kind Arg.ptr_to_uninit_mem = ArgPairKind.ptr_to_uninit_mem
to_arg_pair_kind _ = ArgPairKind.ptr_to_mem

-- `res.singles.push_back(…)` and `res.pairs.push_back(…)` at argument `i`.
unfoldable pub push_single : Arg → ℕ → Call → Call
unfolding to_arg_single_kind
push_single a i res = record res {
  singles = res.singles ++ record { kind = to_arg_single_kind a; reg = record { v = i } } ∷ [];
}

is_size_or_zero : Arg → Bool
is_size_or_zero Arg.const_size_or_zero = true
is_size_or_zero _ = false

unfoldable pub push_pair : Arg → Arg → ℕ → Call → Call
unfolding to_arg_pair_kind is_size_or_zero
push_pair a next i res = record res {
  pairs =
      res.pairs
      ++ record {
        kind = to_arg_pair_kind a;
        mem = record { v = i };
        size = record { v = i + 1 };
        can_be_zero = is_size_or_zero next;
      }
        ∷ [];
}

-- The loop over `args[i]`, `args[i + 1]`, …: the last one is only looked at from the one in front,
-- and a size is read together with its pointer.
unfoldable pub call_args : ℕ → List Arg → Call → Result Call
unfolding push_single push_pair
call_args i [] res = ok res
call_args i (a ∷ []) res = ok res
call_args i (Arg.dontcare ∷ next ∷ rest) res = ok res
call_args i (Arg.const_size ∷ next ∷ rest) res = err Fault.assertion
call_args i (Arg.const_size_or_zero ∷ next ∷ rest) res = err Fault.assertion
call_args i (Arg.ptr_to_mem ∷ next ∷ rest) res =
    call_args (suc (suc i)) rest (push_pair Arg.ptr_to_mem next i res)
call_args i (Arg.ptr_to_mem_or_null ∷ next ∷ rest) res =
    call_args (suc (suc i)) rest (push_pair Arg.ptr_to_mem_or_null next i res)
call_args i (Arg.ptr_to_uninit_mem ∷ next ∷ rest) res =
    call_args (suc (suc i)) rest (push_pair Arg.ptr_to_uninit_mem next i res)
call_args i (a ∷ next ∷ rest) res = call_args (suc i) (next ∷ rest) (push_single a i res)

is_map_value_or_null : Ret → Bool
is_map_value_or_null Ret.ptr_to_map_value_or_null = true
is_map_value_or_null _ = false

unfoldable pub call_of_proto : ℤ → FuncProto → Result Call
unfolding call_args is_map_value_or_null
call_of_proto imm proto =
    call_args 1
      (proto.arg1_type ∷ proto.arg2_type ∷ proto.arg3_type ∷ proto.arg4_type ∷ proto.arg5_type
        ∷ Arg.dontcare ∷ [])
      (record {
        func = imm;
        name = proto.name;
        pkt_access = proto.pkt_access;
        returns_map = is_map_value_or_null proto.ret_type;
        singles = [];
        pairs = [];
      })

-- The target of a jump: `pc_t new_pc = pc + 1 + inst.offset`.
unfoldable pub jump_pc : ℕ → ℤ → ℕ
unfolding u16_of ◌+ℤ◌
jump_pc pc offset = u16_of (pos (pc + 1) +ℤ offset)

unfoldable pub check_target : List EbpfInst → ℕ → Noted Instruction → Noted Instruction
check_target insts new_pc rest =
    if leb (length insts) new_pc
    then note_if true "jump out of bounds" rest
    else (elim (get_elem? insts new_pc) [
      | none ↦ rest
      | some target ↦ note_if (target.opcode == 0) "jump to middle of lddw" rest
    ])

unfoldable pub get_jmp_cond : EbpfInst → Result (Option Condition)
unfolding get_jmp_op
get_jmp_cond inst = if inst.opcode == inst_op_ja then ok none else (elim (get_jmp_op inst.opcode) [
  | err e ↦ err e
  | ok op ↦ ok (
      some (record {
        op = op;
        left = record { v = inst.dst };
        right =
            if bit_and inst.opcode inst_src_reg == 0
            then Value.imm (record { v = u32_of inst.imm })
            else Value.reg (record { v = inst.src });
      }))
])

module _ (protos : Prototypes) where
  unfoldable pub make_call : ℤ → Result Call
  unfolding call_of_proto
  make_call imm = call_of_proto imm (protos.get_prototype (u32_of imm))

  unfoldable pub make_jmp : EbpfInst → List EbpfInst → ℕ → Noted Instruction
  make_jmp inst insts pc =
      let o = op_field inst.opcode in
      if o == 0x8
      then note_if (not (protos.is_valid_prototype (u32_of inst.imm))) "invalid function id " (
          and_then (record { notes = []; result = make_call inst.imm })
            λ c. pure (Instruction.call c))
      else if o == 0x9
      then pure Instruction.exit
      else check_target insts (jump_pc pc inst.offset) (
          and_then (record { notes = []; result = get_jmp_cond inst })
            λ cond.
              pure (
                Instruction.jmp
                  (record { cond = cond; target = label_t (jump_pc pc inst.offset) })))
