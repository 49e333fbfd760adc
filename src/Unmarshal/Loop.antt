-- ===== src/Unmarshal/Loop.antt =====
-- `Unmarshaller::unmarshal` and the function `unmarshal` of src/asm_unmarshal.cpp.
use ebpf_verifier.Base.{
  ℕ, suc, ◌+◌, ◌-◌, ◌%◌, ◌^◌, Bool, true, false, ltb, ◌==◌, ◌&&◌, if◌then◌else◌, none, some, List,
  [], ◌∷◌, ◌++◌, length, get_elem?, String, ◌⊎◌, inl, inr,
}
use ebpf_verifier.Base.Word.{u32_of, i32_of}
use ebpf_verifier.Asm.{Instruction, LabeledInstruction, InstructionSeq, label_t}
use ebpf_verifier.Outcome.{Noted, Fault, Result, ok, err, throw}
use ebpf_verifier.Ebpf.{
  EbpfInst, inst_class, inst_cls_ld, inst_cls_ldx, inst_cls_st, inst_cls_stx, inst_cls_alu,
  inst_cls_alu64, inst_cls_jmp, inst_op_lddw_imm,
}
use ebpf_verifier.Helpers.{Prototypes}
use ebpf_verifier.Unmarshal.Alu.{make_alu_op}
use ebpf_verifier.Unmarshal.Memory.{make_mem_op, make_lddw}
use ebpf_verifier.Unmarshal.Jump.{make_jmp}

unfoldable pub is_exit : Instruction → Bool
is_exit Instruction.exit = true
is_exit _ = false

-- A `Jmp` with no condition.
unfoldable pub is_goto : Instruction → Bool
is_goto (Instruction.jmp j) = elim j.cond [ none ↦ true | some c ↦ false ]
is_goto (Instruction.undefined u) = false
is_goto _ = false

-- The immediate of the slot behind, or 0 at the end.
unfoldable pub next_imm : List EbpfInst → ℕ → ℕ
next_imm insts pc =
    if ltb pc (length insts - 1)
    then elim (get_elem? insts (pc + 1)) [ none ↦ 0 | some next ↦ u32_of next.imm ]
    else 0

unfoldable pub is_lddw : EbpfInst → Bool
is_lddw inst = inst_class inst.opcode == inst_cls_ld && inst.opcode == inst_op_lddw_imm

unfoldable pub is_jmp : EbpfInst → Bool
is_jmp inst = inst_class inst.opcode == inst_cls_jmp

-- The notes for each slot, with one line more at the end, and the program.
pub record Listing : Type 0 where
  pub notes : List (List String)
  pub result : Result InstructionSeq

abbrev pub add_instruction : LabeledInstruction → Result InstructionSeq → Result InstructionSeq
add_instruction li (ok prog) = ok (li ∷ prog)
add_instruction li (err e) = err e

abbrev pub fall_note : Bool → List String
fall_note b = if b then "fallthrough in last instruction" ∷ [] else []

module _ (protos : Prototypes) where
  -- The `switch` on the class of an instruction. `pc` is narrowed to a `pc_t` in each call.
  unfoldable pub decode : List EbpfInst → ℕ → EbpfInst → Noted Instruction
  unfolding next_imm is_lddw
  decode insts pc inst =
      let c = inst_class inst.opcode in
      if is_lddw inst
      then make_lddw inst (i32_of (next_imm insts pc)) insts (pc % 2 ^ 16)
      else if c == inst_cls_ld
      then make_mem_op inst
      else if c == inst_cls_ldx
      then make_mem_op inst
      else if c == inst_cls_st
      then make_mem_op inst
      else if c == inst_cls_stx
      then make_mem_op inst
      else if c == inst_cls_alu
      then make_alu_op inst
      else if c == inst_cls_alu64
      then make_alu_op inst
      else if c == inst_cls_jmp
      then make_jmp protos inst insts (pc % 2 ^ 16)
      else throw (Fault.invalid_instruction "Invalid class 0x6")

  unfoldable pub falls_through : EbpfInst → Instruction → Bool
  unfolding is_exit is_goto is_jmp
  falls_through inst ins =
      if is_jmp inst
      then (if is_exit ins then false else if is_goto ins then false else true)
      else true

  -- `exit_count` behind one more instruction.
  unfoldable pub count_exit : EbpfInst → Instruction → ℕ → ℕ
  unfolding is_exit is_jmp
  count_exit inst ins n = if is_jmp inst && is_exit ins then suc n else n

  -- One round of the loop: the notes and the instruction of slot `pc`, in front of what `next`
  -- finds behind one slot, or behind two.
  unfoldable pub round : List EbpfInst → ℕ → ℕ → EbpfInst → (ℕ → Listing) → (ℕ → Listing) → Listing
  unfolding falls_through count_exit
  round insts pc exits inst next skip =
      let d = decode insts pc inst in
      elim d.result [
        | err e ↦ record { notes = d.notes ∷ []; result = err e }
        | ok ins ↦
            let line = d.notes ++ fall_note (pc == length insts - 1 && falls_through inst ins) in
            let one = next (count_exit inst ins exits) in
            let two = skip (count_exit inst ins exits) in
            if is_lddw inst
            then record {
              notes = line ∷ [] ∷ two.notes;
              result = add_instruction (label_t pc, ins) two.result;
            }
            else record {
              notes = line ∷ one.notes;
              result = add_instruction (label_t pc, ins) one.result;
            }
      ]

  -- The `for` loop, at slot `pc` with the slots from there on.
  unfoldable pub unmarshal_loop : List EbpfInst → ℕ → List EbpfInst → ℕ → Listing
  unfolding round
  unmarshal_loop insts pc [] exits = record {
    notes = (if exits == 0 then "no exit instruction" ∷ [] else []) ∷ [];
    result = ok [];
  }
  unmarshal_loop insts pc (inst ∷ []) exits =
      round insts pc exits inst (unmarshal_loop insts (pc + 1) [])
        (unmarshal_loop insts (pc + 2) [])
  unmarshal_loop insts pc (inst ∷ next ∷ rest) exits =
      round insts pc exits inst (unmarshal_loop insts (pc + 1) (next ∷ rest))
        (unmarshal_loop insts (pc + 2) rest)

  -- The method.
  unfoldable pub unmarshal_all : List EbpfInst → Listing
  unfolding unmarshal_loop
  unmarshal_all [] = record {
    notes = [] ∷ [];
    result = err (Fault.invalid_argument "Zero length programs are not allowed");
  }
  unmarshal_all (inst ∷ rest) = unmarshal_loop (inst ∷ rest) 0 (inst ∷ rest) 0

  -- The function: an `InvalidInstruction` becomes its message, and any other exception goes on.
  unfoldable pub unmarshal : List EbpfInst → Result (InstructionSeq ⊎ String)
  unfolding unmarshal_all
  unmarshal insts = elim ((unmarshal_all insts).result) [
    | ok prog ↦ ok (inl prog)
    | err (Fault.invalid_instruction what) ↦ ok (inr what)
    | err e ↦ err e
  ]
