-- ===== src/Unmarshal/Memory.antt =====
-- `getMemIsLoad`, `getMemWidth`, `makeMemOp` and `makeLddw` of src/asm_unmarshal.cpp.
use ebpf_verifier.Base.{
  ℕ, ◌+◌, ◌-◌, ◌/◌, ◌^◌, Bool, true, false, not, ltb, leb, ◌==◌, ◌||◌, ◌&&◌, bit_and, if◌then◌else◌,
  Option, none, some, List, length, get_elem?,
}
use ebpf_verifier.Base.Int.{ℤ, pos, negsuc, ◌+ℤ◌, eqb_ℤ, ltb_ℤ}
use ebpf_verifier.Base.Word.{u32_of}
use ebpf_verifier.Asm.{BinOp, Value, Reg, Instruction}
use ebpf_verifier.Outcome.{Noted, Fault, ok, err, pure, throw, note_if}
use ebpf_verifier.Ebpf.{
  EbpfInst, inst_class, inst_cls_ld, inst_cls_ldx, inst_size_mask, inst_size_b, inst_size_h,
  inst_size_w, inst_size_dw, inst_mode_mask, inst_abs, inst_ind, inst_mem, inst_len, inst_msh,
  inst_xadd, inst_mem_unused, r10_stack_pointer, opcode_to_width, merge,
}

unfoldable pub get_mem_is_load : ℕ → Bool
get_mem_is_load opcode =
    let c = inst_class opcode in if c == inst_cls_ld || c == inst_cls_ldx then true else false

unfoldable pub get_mem_width : ℕ → ℕ
get_mem_width opcode =
    let size = bit_and opcode inst_size_mask in
    if size == inst_size_b
    then 1
    else if size == inst_size_h
    then 2
    else if size == inst_size_w
    then 4
    else if size == inst_size_dw
    then 8
    else 0

abbrev pub stack_size : ℕ
stack_size = 512

-- The check of an access based on r10, in front of the rest.
unfoldable pub check_stack_access : EbpfInst → ℕ → Noted Instruction → Noted Instruction
unfolding opcode_to_width ◌+ℤ◌
check_stack_access inst basereg rest =
    if basereg == r10_stack_pointer
    then (elim (opcode_to_width inst.opcode) [
      | ok w ↦
          note_if
            (ltb_ℤ (pos 0) (inst.offset +ℤ pos w) || ltb_ℤ inst.offset (negsuc (stack_size - 1)))
            "Stack access out of bounds" rest
      | err e ↦ throw e
    ])
    else rest

-- `case INST_MEM` behind the check of the class.
unfoldable pub make_plain_mem : EbpfInst → Noted Instruction
unfolding get_mem_is_load get_mem_width
make_plain_mem inst =
    let is_load = get_mem_is_load inst.opcode in
    let is_imm = bit_and inst.opcode 1 == 0 in
    let basereg = if is_load then inst.src else inst.dst in
    note_if (is_load && (inst.dst == r10_stack_pointer)) "Cannot modify r10" (
      if is_load && is_imm
      then throw Fault.assertion
      else check_stack_access inst basereg (
          pure (
            Instruction.mem (record {
              access = record {
                width = get_mem_width inst.opcode;
                basereg = record { v = basereg };
                offset = inst.offset;
              };
              value =
                  if is_load
                  then Value.reg (record { v = inst.dst })
                  else if is_imm
                  then Value.imm (record { v = u32_of inst.imm })
                  else Value.reg (record { v = inst.src });
              is_load = is_load;
            }))))

-- `case INST_ABS` and `case INST_IND`.
unfoldable pub make_packet : EbpfInst → Option Reg → Noted Instruction
unfolding get_mem_width
make_packet inst regoffset = pure (
    Instruction.packet
      (record { width = get_mem_width inst.opcode; offset = inst.imm; regoffset = regoffset }))

unfoldable pub make_mem_op : EbpfInst → Noted Instruction
unfolding make_plain_mem make_packet get_mem_width
make_mem_op inst =
    let width = get_mem_width inst.opcode in
    let is_ld = inst_class inst.opcode == inst_cls_ld in
    let mode = bit_and inst.opcode inst_mode_mask / 2 ^ 5 in
    note_if (ltb r10_stack_pointer inst.dst || ltb r10_stack_pointer inst.src) "Bad register" (
      if mode == 0
      then note_if true "Bad instruction"
          (pure (Instruction.undefined (record { opcode = inst.opcode })))
      else if mode == inst_abs
      then (if is_ld
          then note_if (width == 8) "invalid opcode LDABSDW" (make_packet inst none)
          else throw (Fault.unsupported_memory_mode "ABS but not LD"))
      else if mode == inst_ind
      then (if is_ld
          then note_if (width == 8) "invalid opcode LDINDDW"
              (make_packet inst (some (record { v = inst.src })))
          else throw (Fault.unsupported_memory_mode "IND but not LD"))
      else if mode == inst_mem
      then (if is_ld then throw (Fault.unsupported_memory_mode "plain LD") else make_plain_mem inst)
      else if mode == inst_len
      then throw (Fault.unsupported_memory_mode "LEN")
      else if mode == inst_msh
      then throw (Fault.unsupported_memory_mode "MSH")
      else if mode == inst_xadd
      then pure (
          Instruction.lock_add (record {
            access = record {
              width = width;
              basereg = record { v = inst.dst };
              offset = inst.offset;
            };
            valreg = record { v = inst.src };
          }))
      else if mode == inst_mem_unused
      then throw (Fault.unsupported_memory_mode "Memory mode 7")
      else pure (Instruction.undefined (record { opcode = 0 })))

-- `insts[pc + 1]` behind the end is the fault `out_of_range`.
unfoldable pub make_lddw : EbpfInst → ℤ → List EbpfInst → ℕ → Noted Instruction
unfolding merge
make_lddw inst next_imm insts pc = note_if (leb (length insts - 1) pc) "incomplete LDDW" (
    note_if (ltb 1 inst.src || ltb r10_stack_pointer inst.dst || not (eqb_ℤ inst.offset (pos 0)))
      "LDDW uses reserved fields"
      (if inst.src == 1
        then pure
            (Instruction.load_map_fd (record { dst = record { v = inst.dst }; mapfd = inst.imm }))
        else (elim (get_elem? insts (pc + 1)) [
          | none ↦ throw Fault.out_of_range
          | some next ↦
              note_if
                (not (next.opcode == 0)
                  || not (next.dst == 0)
                  || not (next.src == 0)
                  || not (eqb_ℤ next.offset (pos 0)))
                "invalid LDDW"
                (pure (
                  Instruction.bin (record {
                    op = BinOp.mov;
                    is64 = true;
                    dst = record { v = inst.dst };
                    v = Value.imm (record { v = merge inst.imm next_imm });
                    lddw = true;
                  })))
        ])))
