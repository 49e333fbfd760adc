-- ===== src/Examples.antt =====
-- Inputs on which the theorems on the encoder and the decoder are applied: a program with a jump, a
-- load and a move of two slots. The children have inputs for the other theorems.
mod Intervals
mod Graphs
mod Memory
mod Analysis
mod Numeric
use ebpf_verifier.Base.{
  ℕ, ◌≡◌, ◌≢◌, ◌↔◌, ◌⊎◌, inl, inr, ◌<◌, ◌^◌, refl, Bool, true, false, not, ◌&&◌, none, some, List,
  [], ◌∷◌, All, length, bit_and, arith, String, if◌then◌else◌,
}
use ebpf_verifier.Base.Int.{ℤ, pos, negsuc, neg_ℤ, ◌+ℤ◌, ◌-ℤ◌, ◌*ℤ◌}
use ebpf_verifier.Base.Word.{u32_of}
use ebpf_verifier.Asm.{
  Label, label_t, Imm, Reg, Value, BinOp, Bin, ConditionOp, Condition, Jmp, ArgSingle,
  ArgSingleKind, ArgPair, ArgPairKind, Call, Deref, Mem, Assert, Instruction, InstructionSeq,
}
use ebpf_verifier.Outcome.{Result, ok, err}
use ebpf_verifier.Ebpf.{EbpfInst, merge, split}
use ebpf_verifier.Helpers.Table.{kernel_prototypes, get_prototype, prototypes}
use ebpf_verifier.Unmarshal.Alu.{make_alu_op, visit_alu_op, get_alu_op, get_bin_value}
use ebpf_verifier.Unmarshal.Loop
use ebpf_verifier.Unmarshal.Loop.{
  unmarshal, unmarshal_all, unmarshal_loop, round, decode, falls_through, count_exit, is_exit,
  is_goto, is_lddw,
}
use ebpf_verifier.Unmarshal.Quiet.{Quiet}
use ebpf_verifier.AsmCfg.{find_exit_label}
use ebpf_verifier.AsmCfg.Decoded.{find_exit_label-unmarshal_all}
use ebpf_verifier.Unmarshal.Jump.{jump_pc, make_jmp, make_call, call_of_proto}
use ebpf_verifier.Marshal.{label_to_offset, marshal_one}
use ebpf_verifier.Marshal.Program.{size, get_labels, relabel, marshal}
use ebpf_verifier.RoundTrip.Encodable.{IsEncodable}
use ebpf_verifier.RoundTrip.Slots.{HasCode}
use ebpf_verifier.RoundTrip.Labels.{slots, IsPlaced, relabel-IsClosed}
use ebpf_verifier.RoundTrip.Program.{unmarshal-marshal}
use ebpf_verifier.RoundTrip.Instruction.{marshal_one-HasCode, length-marshal_one}
use ebpf_verifier.RoundTrip.Jump.{jump_pc-label_to_offset}
use ebpf_verifier.RoundTrip.Wide.{merge-split}

abbrev r : ℕ → Reg
r n = record { v = n }

abbrev wide_move : Instruction
wide_move = Instruction.bin (record {
  op = BinOp.mov;
  is64 = true;
  dst = r 0;
  v = Value.imm (record { v = 7 });
  lddw = true;
})

abbrev if_r1_eq_3 : ℕ → Jmp
if_r1_eq_3 target = record {
  cond = some (record { op = ConditionOp.eq; left = r 1; right = Value.imm (record { v = 3 }) });
  target = label_t target;
}

abbrev load_r2 : Mem
load_r2 = record {
  access = record { width = 4; basereg = r 1; offset = negsuc 3 };
  value = Value.reg (r 2);
  is_load = true;
}

abbrev ktime_get_ns : Call
ktime_get_ns = record {
  func = pos 5;
  name = "ktime_get_ns";
  pkt_access = false;
  returns_map = false;
  singles = [];
  pairs = [];
}

-- `r0 = 7 ll; if r1 == 3 goto 4; r2 = *(u32 *)(r1 - 4); call 5; exit`.
abbrev program : InstructionSeq
program =
    (label_t 0, wide_move)
    ∷ (label_t 2, Instruction.jmp (if_r1_eq_3 4))
    ∷ (label_t 3, Instruction.mem load_r2)
    ∷ (label_t 4, Instruction.call ktime_get_ns)
    ∷ (label_t 5, Instruction.exit)
    ∷ []

program-nonempty : program ≢ []
program-nonempty e = ground (arith, e)

program-IsPlaced : IsPlaced kernel_prototypes program 0 program
unfolding size make_call call_of_proto get_prototype prototypes u32_of
program-IsPlaced = (
  refl,
  (omega arith, (refl, refl, omega arith)),
  tt,
  (
    refl,
    (((λ e. ground (arith, e)), omega arith, omega arith), (omega arith, refl)),
    inr (inr (inr (inl refl))),
    (
      refl,
      (inr (inr (inl refl)), omega arith, omega arith, omega arith),
      tt,
      (refl, refl, tt, (refl, tt, tt, tt)),
    ),
  ),
)

program-short : slots program < 2 ^ 16
unfolding slots size
program-short = omega arith

unmarshal-marshal_example :
    (es : List EbpfInst) × (marshal program ≡ ok es)
    × (unmarshal kernel_prototypes es ≡ ok (inl program))
unmarshal-marshal_example =
    unmarshal-marshal kernel_prototypes program program-nonempty program-IsPlaced program-short

marshal_one-HasCode_example : HasCode kernel_prototypes 3 (Instruction.mem load_r2)
marshal_one-HasCode_example =
    marshal_one-HasCode kernel_prototypes 3 (Instruction.mem load_r2) (omega arith)
      (inr (inr (inl refl)), omega arith, omega arith, omega arith)

jump_pc-label_to_offset_example : jump_pc 9 (label_to_offset 9 (label_t 4)) ≡ 4
jump_pc-label_to_offset_example = jump_pc-label_to_offset 9 (label_t 4) (omega arith) (omega arith)

-- The two slots of a wide move.
second_code : (es : List EbpfInst) × marshal_one 5 wide_move ≡ ok es
unfolding marshal_one
second_code = (_, refl)

-- `r0 = 0; exit` in slots.
abbrev slots_of_exit : List EbpfInst
slots_of_exit =
    record { opcode = 183; dst = 0; src = 0; offset = pos 0; imm = pos 0 }
    ∷ record { opcode = 149; dst = 0; src = 0; offset = pos 0; imm = pos 0 }
    ∷ []

abbrev exit_program : InstructionSeq
exit_program =
    (
      label_t 0,
      Instruction.bin (record {
        op = BinOp.mov;
        is64 = true;
        dst = r 0;
        v = Value.imm (record { v = 0 });
        lddw = false;
      }),
    )
    ∷ (label_t 1, Instruction.exit)
    ∷ []

exit_program-Quiet : Quiet (unmarshal_all kernel_prototypes slots_of_exit).notes
unfolding unmarshal_all unmarshal_loop round decode make_alu_op visit_alu_op get_alu_op
    get_bin_value make_jmp falls_through count_exit is_exit is_goto is_lddw Loop.is_jmp
exit_program-Quiet = (refl, (refl, (refl, tt)))

exit_program-decoded : (unmarshal_all kernel_prototypes slots_of_exit).result ≡ ok exit_program
unfolding unmarshal_all unmarshal_loop round decode make_alu_op visit_alu_op get_alu_op
    get_bin_value make_jmp falls_through count_exit is_exit is_goto is_lddw Loop.is_jmp u32_of
exit_program-decoded = refl

find_exit_label-unmarshal_all_example : (l : Label) × find_exit_label exit_program ≡ ok l
find_exit_label-unmarshal_all_example =
    find_exit_label-unmarshal_all kernel_prototypes slots_of_exit exit_program exit_program-Quiet
      exit_program-decoded
