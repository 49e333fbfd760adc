-- ===== src/Marshal.antt =====
-- The encoder of src/asm_marshal.cpp, with `label_to_offset` of src/asm_ostream.hpp.
-- A C++ `uint8_t` cast of a sum of opcode fields is written as `% 256`, a value stored in a
-- register field of 4 bits as `% 16`.
pub mod Program
use ebpf_verifier.Base.{
  ℕ, suc, ◌+◌, ◌*◌, ◌%◌, ◌^◌, Bool, true, false, bit_or, if◌then◌else◌, Option, none, some, List,
  [], ◌∷◌, ◌++◌, length,
}
use ebpf_verifier.Base.Int.{ℤ, pos, ◌-ℤ◌}
use ebpf_verifier.Base.Word.{i16_of, i32_of}
use ebpf_verifier.Asm.{
  Label, label_t, label_eq, Value, Reg, BinOp, Bin, UnOp, Un, LoadMapFd, Call, ConditionOp,
  Condition, Jmp, Deref, Mem, Packet, LockAdd, Instruction, LabeledInstruction, InstructionSeq,
}
use ebpf_verifier.Outcome.{Fault, Result, ok, err, ◌>>=◌}
use ebpf_verifier.Ebpf.{
  EbpfInst, inst_cls_ld, inst_cls_st, inst_cls_alu, inst_cls_alu64, inst_cls_jmp, inst_src_reg,
  inst_abs, inst_ind, inst_mem, inst_xadd, inst_op_ja, inst_op_call, inst_op_exit, width_to_opcode,
  split,
}

-- `label.from - pc - 1`, as an `int16_t`.
unfoldable pub label_to_offset : ℕ → Label → ℤ
unfolding ◌-ℤ◌
label_to_offset pc label = i16_of (pos label.from -ℤ pos (pc + 1))

unfoldable pub condition_op : ConditionOp → Result ℕ
condition_op ConditionOp.eq = ok 0x1
condition_op ConditionOp.gt = ok 0x2
condition_op ConditionOp.ge = ok 0x3
condition_op ConditionOp.set = ok 0x4
condition_op ConditionOp.nset = err Fault.assertion
condition_op ConditionOp.ne = ok 0x5
condition_op ConditionOp.sgt = ok 0x6
condition_op ConditionOp.sge = ok 0x7
condition_op ConditionOp.lt = ok 0xa
condition_op ConditionOp.le = ok 0xb
condition_op ConditionOp.slt = ok 0xc
condition_op ConditionOp.sle = ok 0xd

unfoldable pub bin_op : BinOp → ℕ
bin_op BinOp.add = 0x0
bin_op BinOp.sub = 0x1
bin_op BinOp.mul = 0x2
bin_op BinOp.div = 0x3
bin_op BinOp.or = 0x4
bin_op BinOp.and = 0x5
bin_op BinOp.lsh = 0x6
bin_op BinOp.rsh = 0x7
bin_op BinOp.mod_op = 0x9
bin_op BinOp.xor = 0xa
bin_op BinOp.mov = 0xb
bin_op BinOp.arsh = 0xc

unfoldable pub un_imm : UnOp → ℤ
un_imm UnOp.neg = pos 0
un_imm UnOp.le16 = pos 16
un_imm UnOp.le32 = pos 32
un_imm UnOp.le64 = pos 64

abbrev pub byte_of : ℕ → ℕ
byte_of n = n % 256

abbrev pub field_of : Reg → ℕ
field_of r = r.v % 16

unfoldable pub make_lddw : Reg → Bool → ℤ → ℤ → Result (List EbpfInst)
unfolding width_to_opcode
make_lddw dst is_fd imm next_imm = do
  w ← width_to_opcode 8
  ok (
      record {
        opcode = byte_of (bit_or inst_cls_ld w);
        dst = field_of dst;
        src = if is_fd then 1 else 0;
        offset = pos 0;
        imm = imm;
      }
      ∷ record { opcode = 0; dst = 0; src = 0; offset = pos 0; imm = next_imm }
      ∷ [])

-- The operand of an arithmetic or a jump instruction, put into an instruction without one.
unfoldable pub set_operand : Value → EbpfInst → EbpfInst
set_operand (Value.reg right) res = record res {
  opcode = bit_or res.opcode inst_src_reg;
  src = field_of right;
}
set_operand (Value.imm right) res = record res { imm = i32_of right.v }

unfoldable pub marshal_bin : Bin → Result (List EbpfInst)
unfolding make_lddw bin_op set_operand split
marshal_bin b =
    if b.lddw
    then (elim b.v [
      | Value.reg r ↦ err Fault.assertion
      | Value.imm i ↦ make_lddw b.dst false (split i.v).0 (split i.v).1
    ])
    else ok (
        set_operand b.v (record {
          opcode =
              byte_of
                (bit_or (if b.is64 then inst_cls_alu64 else inst_cls_alu) (bin_op b.op * 2 ^ 4));
          dst = field_of b.dst;
          src = 0;
          offset = pos 0;
          imm = pos 0;
        })
        ∷ [])

-- The opcode of the negation, and of a byte swap.
unfoldable pub un_opcode : UnOp → ℕ
un_opcode UnOp.neg = byte_of (bit_or inst_cls_alu (bit_or 0x3 (0x8 * 2 ^ 4)))
un_opcode UnOp.le64 = byte_of (bit_or inst_cls_alu64 (bit_or 0x8 (0xd * 2 ^ 4)))
un_opcode UnOp.le16 = byte_of (bit_or inst_cls_alu (bit_or 0x8 (0xd * 2 ^ 4)))
un_opcode UnOp.le32 = byte_of (bit_or inst_cls_alu (bit_or 0x8 (0xd * 2 ^ 4)))

unfoldable pub marshal_un : Un → Result (List EbpfInst)
unfolding un_opcode un_imm
marshal_un b = ok (
    record {
      opcode = un_opcode b.op;
      dst = field_of b.dst;
      src = 0;
      offset = pos 0;
      imm = un_imm b.op;
    }
    ∷ [])

unfoldable pub marshal_jmp : ℕ → Jmp → Result (List EbpfInst)
unfolding label_to_offset condition_op set_operand
marshal_jmp pc b = elim b.cond [
  | none ↦ ok (
      record {
        opcode = inst_op_ja;
        dst = 0;
        src = 0;
        offset = label_to_offset pc b.target;
        imm = pos 0;
      }
      ∷ [])
  | some cond ↦ do
    o ← condition_op cond.op
    ok (
        set_operand cond.right (record {
          opcode = byte_of (bit_or inst_cls_jmp (o * 2 ^ 4));
          dst = field_of cond.left;
          src = 0;
          offset = label_to_offset pc b.target;
          imm = pos 0;
        })
        ∷ [])
]

-- A load takes its value to a register; a store takes it from a register or an immediate.
unfoldable pub set_value : Mem → EbpfInst → Result EbpfInst
set_value b res =
    if b.is_load
    then (elim b.value [
      | Value.imm i ↦ err (Fault.runtime_error "LD IMM")
      | Value.reg r ↦ ok (record res {
        opcode = bit_or res.opcode (bit_or inst_cls_ld 0x1);
        dst = field_of r;
        src = field_of b.access.basereg;
      })
    ])
    else (elim b.value [
      | Value.reg r ↦ ok (record res {
        opcode = bit_or (bit_or res.opcode inst_cls_st) 0x1;
        dst = field_of b.access.basereg;
        src = field_of r;
      })
      | Value.imm i ↦ ok (record res {
        opcode = bit_or (bit_or res.opcode inst_cls_st) 0x0;
        dst = field_of b.access.basereg;
        imm = i32_of i.v;
      })
    ])

unfoldable pub marshal_mem : Mem → Result (List EbpfInst)
unfolding width_to_opcode set_value
marshal_mem b = do
  w ← width_to_opcode b.access.width
  res ← set_value b (record {
    opcode = byte_of (bit_or (inst_mem * 2 ^ 5) w);
    dst = 0;
    src = 0;
    offset = i16_of b.access.offset;
    imm = pos 0;
  })
  ok (res ∷ [])

unfoldable pub marshal_packet : Packet → Result (List EbpfInst)
unfolding width_to_opcode
marshal_packet b = do
  w ← width_to_opcode b.width
  let opcode = byte_of (bit_or inst_cls_ld w)
  let res : EbpfInst = record { opcode = opcode; dst = 0; src = 0; offset = pos 0; imm = b.offset }
  elim b.regoffset [
    | some r ↦ ok (record res { opcode = bit_or opcode (inst_ind * 2 ^ 5); src = field_of r } ∷ [])
    | none ↦ ok (record res { opcode = bit_or opcode (inst_abs * 2 ^ 5) } ∷ [])
  ]

unfoldable pub marshal_lock_add : LockAdd → Result (List EbpfInst)
unfolding width_to_opcode
marshal_lock_add b = do
  w ← width_to_opcode b.access.width
  ok (
      record {
        opcode = byte_of (bit_or inst_cls_st (bit_or 0x1 (bit_or (inst_xadd * 2 ^ 5) w)));
        dst = field_of b.access.basereg;
        src = field_of b.valreg;
        offset = i16_of b.access.offset;
        imm = pos 0;
      }
      ∷ [])

abbrev one_slot : ℕ → ℤ → Result (List EbpfInst)
one_slot opcode imm =
    ok (record { opcode = opcode; dst = 0; src = 0; offset = pos 0; imm = imm } ∷ [])

-- `marshal(ins, pc)`: the visitor, by the alternative of the instruction.
unfoldable pub marshal_one : ℕ → Instruction → Result (List EbpfInst)
unfolding make_lddw marshal_bin marshal_un marshal_jmp marshal_mem marshal_packet marshal_lock_add
marshal_one pc (Instruction.undefined a) = err Fault.assertion
marshal_one pc (Instruction.load_map_fd b) = make_lddw b.dst true b.mapfd (pos 0)
marshal_one pc (Instruction.bin b) = marshal_bin b
marshal_one pc (Instruction.un b) = marshal_un b
marshal_one pc (Instruction.call b) = one_slot inst_op_call b.func
marshal_one pc Instruction.exit = one_slot inst_op_exit (pos 0)
marshal_one pc (Instruction.assume b) = err (Fault.invalid_argument "Cannot marshal assumptions")
marshal_one pc (Instruction.assert b) = err (Fault.invalid_argument "Cannot marshal assertions")
marshal_one pc (Instruction.jmp b) = marshal_jmp pc b
marshal_one pc (Instruction.mem b) = marshal_mem b
marshal_one pc (Instruction.packet b) = marshal_packet b
marshal_one pc (Instruction.lock_add b) = marshal_lock_add b
