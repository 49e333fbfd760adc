-- ===== src/Marshal/Program.antt =====
-- `size`, `get_labels` and the two functions `marshal` over programs of src/asm_marshal.cpp.
use ebpf_verifier.Base.{ℕ, ◌+◌, ◌%◌, ◌^◌, if◌then◌else◌, List, [], ◌∷◌, ◌++◌, length}
use ebpf_verifier.Asm.{Label, label_t, label_eq, Instruction, InstructionSeq}
use ebpf_verifier.Outcome.{Fault, Result, ok, err, ◌>>=◌}
use ebpf_verifier.Ebpf.{EbpfInst}
use ebpf_verifier.Marshal.{marshal_one}

-- The number of slots of an instruction.
unfoldable pub size : Instruction → ℕ
size (Instruction.bin b) = if b.lddw then 2 else 1
size (Instruction.load_map_fd b) = 2
size _ = 1

-- `marshal` of a vector of instructions. `pc` is a `pc_t` and counts slots.
unfoldable pub marshal_insts : ℕ → List Instruction → Result (List EbpfInst)
marshal_insts pc [] = ok []
marshal_insts pc (ins ∷ insts) = do
  es ← marshal_one pc ins
  rest ← marshal_insts ((pc + length es) % 2 ^ 16) insts
  ok (es ++ rest)

-- `get_labels`: the map as an association list, a later entry in front of an earlier one.
unfoldable pub get_labels : ℕ → InstructionSeq → List (Label × ℕ) → List (Label × ℕ)
unfolding size
get_labels pc [] pc_of_label = pc_of_label
get_labels pc ((label, ins) ∷ insts) pc_of_label =
    get_labels ((pc + size ins) % 2 ^ 16) insts ((label, pc) ∷ pc_of_label)

-- `pc_of_label.at(label)`.
unfoldable pub at : List (Label × ℕ) → Label → Result ℕ
at [] l = err Fault.out_of_range
at ((k, pc) ∷ m) l = if label_eq k l then ok pc else at m l

-- The target of a jump, replaced by its slot.
unfoldable pub relabel : List (Label × ℕ) → Instruction → Result Instruction
unfolding at
relabel m (Instruction.jmp j) = do
  pc ← at m j.target
  ok (Instruction.jmp (record j { target = label_t pc }))
relabel m Instruction.exit = ok Instruction.exit
relabel m ins = ok ins

unfoldable pub marshal_labeled : List (Label × ℕ) → ℕ → InstructionSeq → Result (List EbpfInst)
unfolding relabel
marshal_labeled m pc [] = ok []
marshal_labeled m pc ((label, ins) ∷ insts) = do
  ins' ← relabel m ins
  es ← marshal_one pc ins'
  rest ← marshal_labeled m ((pc + length es) % 2 ^ 16) insts
  ok (es ++ rest)

-- `marshal` of a labelled program.
unfoldable pub marshal : InstructionSeq → Result (List EbpfInst)
unfolding get_labels marshal_labeled
marshal insts = marshal_labeled (get_labels 0 insts []) 0 insts
