-- ===== src/Unmarshal/Alu.antt =====
-- `getAluOp`, `getBinValue` and `makeAluOp` of src/asm_unmarshal.cpp.
use ebpf_verifier.Base.{Bool, true, false, not, ◌==◌, ◌&&◌, bit_and, if◌then◌else◌}
use ebpf_verifier.Base.Int.{pos, eqb_ℤ}
use ebpf_verifier.Base.Word.{u32_of}
use ebpf_verifier.Asm.{BinOp, UnOp, Value, Instruction}
use ebpf_verifier.Outcome.{Noted, Fault, pure, throw, note_if, and_then}
use ebpf_verifier.Ebpf.{
  EbpfInst, op_field, inst_class, inst_cls_alu, inst_cls_alu64, inst_src_reg, r10_stack_pointer,
}

-- `std::variant<Bin::Op, Un::Op>`.
pub data AluOp : Type 0 where
  bin_op : BinOp → AluOp
  un_op : UnOp → AluOp

-- `switch (inst.imm)` of the byte swaps.
unfoldable pub endian_op : EbpfInst → Noted AluOp
endian_op inst =
    if eqb_ℤ inst.imm (pos 16)
    then pure (un_op UnOp.le16)
    else if eqb_ℤ inst.imm (pos 32)
    then (if inst_class inst.opcode == inst_cls_alu64
        then throw (Fault.invalid_instruction "invalid endian immediate 32 for 64 bit instruction")
        else pure (un_op UnOp.le32))
    else if eqb_ℤ inst.imm (pos 64)
    then (if inst_class inst.opcode == inst_cls_alu
        then throw (Fault.invalid_instruction "invalid endian immediate 64 for 32 bit instruction")
        else pure (un_op UnOp.le64))
    else note_if true "invalid endian immediate; falling back to 64" (pure (un_op UnOp.le64))

-- The last line is the `return {}` behind the switch, the first operation of the first variant.
unfoldable pub get_alu_op : EbpfInst → Noted AluOp
unfolding endian_op
get_alu_op inst =
    let o = op_field inst.opcode in
    if o == 0x0
    then pure (bin_op BinOp.add)
    else if o == 0x1
    then pure (bin_op BinOp.sub)
    else if o == 0x2
    then pure (bin_op BinOp.mul)
    else if o == 0x3
    then pure (bin_op BinOp.div)
    else if o == 0x4
    then pure (bin_op BinOp.or)
    else if o == 0x5
    then pure (bin_op BinOp.and)
    else if o == 0x6
    then pure (bin_op BinOp.lsh)
    else if o == 0x7
    then pure (bin_op BinOp.rsh)
    else if o == 0x8
    then pure (un_op UnOp.neg)
    else if o == 0x9
    then pure (bin_op BinOp.mod_op)
    else if o == 0xa
    then pure (bin_op BinOp.xor)
    else if o == 0xb
    then pure (bin_op BinOp.mov)
    else if o == 0xc
    then note_if (inst_class inst.opcode == inst_cls_alu) "arsh32 is not allowed"
        (pure (bin_op BinOp.arsh))
    else if o == 0xd
    then endian_op inst
    else if o == 0xe
    then throw (Fault.invalid_instruction "Invalid ALU op 0xe")
    else if o == 0xf
    then throw (Fault.invalid_instruction "Invalid ALU op 0xf")
    else pure (bin_op BinOp.mov)

unfoldable pub get_bin_value : EbpfInst → Noted Value
get_bin_value inst =
    note_if (not (eqb_ℤ inst.offset (pos 0))) "nonzero offset for register alu op" (
      if bit_and inst.opcode inst_src_reg == 0
      then note_if (not (inst.src == 0)) "nonzero src for register alu op"
          (pure (Value.imm (record { v = u32_of inst.imm })))
      else note_if (not (eqb_ℤ inst.imm (pos 0))) "nonzero imm for register alu op"
          (pure (Value.reg (record { v = inst.src }))))

is_zero_imm : Value → Bool
is_zero_imm (Value.imm i) = i.v == 0
is_zero_imm (Value.reg r) = false

is_division : BinOp → Bool
is_division BinOp.div = true
is_division BinOp.mod_op = true
is_division _ = false

unfoldable pub visit_alu_op : EbpfInst → AluOp → Noted Instruction
unfolding get_bin_value is_zero_imm is_division
visit_alu_op inst (un_op op) =
    pure (Instruction.un (record { op = op; dst = record { v = inst.dst } }))
visit_alu_op inst (bin_op op) = and_then (get_bin_value inst) λ v.
    note_if (is_division op && is_zero_imm v) "division by zero" (
      pure (
        Instruction.bin (record {
          op = op;
          is64 = inst_class inst.opcode == inst_cls_alu64;
          dst = record { v = inst.dst };
          v = v;
          lddw = false;
        })))

unfoldable pub make_alu_op : EbpfInst → Noted Instruction
unfolding get_alu_op visit_alu_op
make_alu_op inst =
    note_if (inst.dst == r10_stack_pointer) "Invalid target r10"
      (and_then (get_alu_op inst) (visit_alu_op inst))
