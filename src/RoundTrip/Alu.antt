-- ===== src/RoundTrip/Alu.antt =====
-- Arithmetic instructions: `makeAluOp` on what the visitor makes of a `Bin` or a `Un`.
use ebpf_verifier.Base.{ℕ, ◌*◌, ◌%◌, ◌^◌, ◌≡◌, Bool, true, false, refl, List, bit_or, if◌then◌else◌}
use ebpf_verifier.Base.Int.{pos}
use ebpf_verifier.Base.Word.{i32_of, u32_of}
use ebpf_verifier.Asm.{Value, BinOp, UnOp, Instruction}
use ebpf_verifier.Outcome.{ok}
use ebpf_verifier.Helpers.{Prototypes}
use ebpf_verifier.Ebpf.{EbpfInst, inst_cls_alu, inst_cls_alu64}
use ebpf_verifier.Unmarshal.Alu.{make_alu_op}
use ebpf_verifier.Unmarshal.Loop.{decode, is_lddw}
use ebpf_verifier.Marshal.{bin_op, byte_of, set_operand, un_opcode, un_imm}

-- The slot of a `Bin`, as `marshal_bin` builds it.
abbrev pub alu_inst : BinOp → Bool → ℕ → EbpfInst
alu_inst op is64 dst = record {
  opcode = byte_of (bit_or (if is64 then inst_cls_alu64 else inst_cls_alu) (bin_op op * 2 ^ 4));
  dst = dst % 16;
  src = 0;
  offset = pos 0;
  imm = pos 0;
}

abbrev pub alu_ins : BinOp → Bool → ℕ → Value → Instruction
alu_ins op is64 dst v =
    Instruction.bin (record { op = op; is64 = is64; dst = record { v = dst }; v = v; lddw = false })

module _ (protos : Prototypes) (insts : List EbpfInst) (pc : ℕ) where
  pub decode_reg :
      (op : BinOp) (is64 : Bool) (dst src : ℕ)
      → (decode protos insts pc
          (set_operand (Value.reg (record { v = src })) (alu_inst op is64 dst))).result
        ≡ ok (alu_ins op is64 (dst % 16) (Value.reg (record { v = src % 16 })))
  unfolding decode make_alu_op set_operand bin_op
  decode_reg BinOp.mov true dst src = refl
  decode_reg BinOp.mov false dst src = refl
  decode_reg _ true dst src = refl
  decode_reg _ false dst src = refl

  pub decode_imm :
      (op : BinOp) (is64 : Bool) (dst k : ℕ)
      → (decode protos insts pc
          (set_operand (Value.imm (record { v = k })) (alu_inst op is64 dst))).result
        ≡ ok (alu_ins op is64 (dst % 16) (Value.imm (record { v = u32_of (i32_of k) })))
  unfolding decode make_alu_op set_operand bin_op
  decode_imm BinOp.mov true dst k = refl
  decode_imm BinOp.mov false dst k = refl
  decode_imm _ true dst k = refl
  decode_imm _ false dst k = refl

  pub decode_un :
      (op : UnOp) (dst : ℕ)
      → (decode protos insts pc (record {
        opcode = un_opcode op;
        dst = dst;
        src = 0;
        offset = pos 0;
        imm = un_imm op;
      })).result
        ≡ ok (Instruction.un (record { op = op; dst = record { v = dst } }))
  unfolding decode make_alu_op un_opcode un_imm
  decode_un UnOp.le16 dst = refl
  decode_un _ dst = refl

pub operand-ne-lddw :
    (op : BinOp) (is64 : Bool) (dst : ℕ) (v : Value)
    → is_lddw (set_operand v (alu_inst op is64 dst)) ≡ false
unfolding is_lddw set_operand bin_op
operand-ne-lddw BinOp.mov true dst (Value.reg r) = refl
operand-ne-lddw BinOp.mov false dst (Value.reg r) = refl
operand-ne-lddw BinOp.mov true dst (Value.imm i) = refl
operand-ne-lddw BinOp.mov false dst (Value.imm i) = refl
operand-ne-lddw _ true dst (Value.reg r) = refl
operand-ne-lddw _ false dst (Value.reg r) = refl
operand-ne-lddw _ true dst (Value.imm i) = refl
operand-ne-lddw _ false dst (Value.imm i) = refl

pub un-ne-lddw :
    (op : UnOp) (dst : ℕ)
    → is_lddw
        (record { opcode = un_opcode op; dst = dst; src = 0; offset = pos 0; imm = un_imm op })
      ≡ false
unfolding is_lddw un_opcode
un-ne-lddw UnOp.le16 dst = refl
un-ne-lddw _ dst = refl
