-- ===== src/RoundTrip/Labels.antt =====
-- The labels of a program whose instructions are labelled by their slots: `get_labels`, `at` and
-- the relabelling of jumps leave such a program alone.
use native.Mathlib.Nat.{mod-eq_of_lt}
use ebpf_verifier.Base.{
  ℕ, ◌+◌, ◌%◌, ◌^◌, ◌<◌, ◌≡◌, ◌⊎◌, inl, inr, true, refl, List, [], ◌∷◌, arith, All,
}
use ebpf_verifier.Asm.{Label, label_t, label_eq, Instruction, InstructionSeq}
use ebpf_verifier.Outcome.{ok}
use ebpf_verifier.Helpers.{Prototypes}
use ebpf_verifier.Marshal.Program.{size, get_labels, at, relabel}
use ebpf_verifier.RoundTrip.Encodable.{IsEncodable}

-- The slots that a program takes.
unfoldable pub slots : InstructionSeq → ℕ
slots [] = 0
slots ((l, ins) ∷ prog) = size ins + slots prog

-- `l` labels an instruction.
abbrev pub IsLabel : InstructionSeq → Label → Type 0
IsLabel [] l = ⊥
IsLabel ((k, ins) ∷ prog) l = (k ≡ l) ⊎ IsLabel prog l

-- A jump has its target among the labels of `prog`.
abbrev pub IsClosed : InstructionSeq → Instruction → Type 0
IsClosed prog (Instruction.jmp j) = IsLabel prog j.target
IsClosed prog _ = Unit

abbrev Entries : List (Label × ℕ) → Type 0
Entries m = All (λ e. e.0.from ≡ e.1) m

abbrev IsKey : List (Label × ℕ) → Label → Type 0
IsKey [] l = ⊥
IsKey ((k, pc) ∷ m) l = (k ≡ l) ⊎ IsKey m l

label_eq-eq : (k l : Label) → label_eq k l ≡ true → k ≡ l
label_eq-eq k l h = ground arith

label_eq_self : (l : Label) → label_eq l l ≡ true
label_eq_self l = ground arith

at-key : (m : List (Label × ℕ)) (l : Label) → Entries m → IsKey m l → at m l ≡ ok l.from
unfolding at
at-key [] l h k = absurd k
at-key ((k, pc) ∷ m) l h (inl e) = ground arith
at-key ((k, pc) ∷ m) l h (inr r) = ground (arith, at-key m l h.1 r)

module _ (protos : Prototypes) where
  -- Every instruction is encodable, is labelled by its slot, and jumps to a label of `all`.
  abbrev pub IsPlaced : InstructionSeq → ℕ → InstructionSeq → Type 0
  IsPlaced all pc [] = Unit
  IsPlaced all pc ((l, ins) ∷ prog) =
      (l ≡ label_t pc)
      × IsEncodable protos ins
      × IsClosed all ins
      × IsPlaced all (pc + size ins) prog

size_pos : (ins : Instruction) → 0 < size ins
unfolding size
size_pos (Instruction.bin b) = ground arith
size_pos _ = ground arith

next_slot :
    (pc : ℕ) (ins : Instruction) (prog : InstructionSeq)
    → pc + slots ((label_t pc, ins) ∷ prog) < 2 ^ 16
    → (pc + size ins) % 2 ^ 16 ≡ pc + size ins
unfolding slots
next_slot pc ins prog h = mod-eq_of_lt (omega arith)

module _ (protos : Prototypes) (all : InstructionSeq) where
  get_labels-Entries :
      (pc : ℕ) (prog : InstructionSeq) (m : List (Label × ℕ))
      → IsPlaced protos all pc prog
      → pc + slots prog < 2 ^ 16
      → Entries m
      → Entries (get_labels pc prog m)
  unfolding get_labels slots
  get_labels-Entries pc [] m p h e = e
  get_labels-Entries pc ((l, ins) ∷ prog) m p h e =
      rw (next_slot pc ins prog h)
        (get_labels-Entries (pc + size ins) prog ((l, pc) ∷ m) p.3 (omega arith) (ground arith))

  get_labels-old :
      (pc : ℕ) (prog : InstructionSeq) (m : List (Label × ℕ)) (l : Label)
      → IsKey m l
      → IsKey (get_labels pc prog m) l
  unfolding get_labels
  get_labels-old pc [] m l k = k
  get_labels-old pc ((j, ins) ∷ prog) m l k =
      get_labels-old ((pc + size ins) % 2 ^ 16) prog ((j, pc) ∷ m) l (inr k)

  get_labels-IsKey :
      (pc : ℕ) (prog : InstructionSeq) (m : List (Label × ℕ)) (l : Label)
      → IsLabel prog l
      → IsKey (get_labels pc prog m) l
  unfolding get_labels
  get_labels-IsKey pc [] m l k = absurd k
  get_labels-IsKey pc ((j, ins) ∷ prog) m l (inl e) =
      get_labels-old ((pc + size ins) % 2 ^ 16) prog ((j, pc) ∷ m) l (inl e)
  get_labels-IsKey pc ((j, ins) ∷ prog) m l (inr r) =
      get_labels-IsKey ((pc + size ins) % 2 ^ 16) prog ((j, pc) ∷ m) l r

-- In a program of fewer than 2^16 slots whose instructions are encodable, labelled by their slots
-- and jump to labels of the program, the table of labels leaves an encodable instruction that jumps
-- to a label of the program as it is.
pub relabel-IsClosed :
    (protos : Prototypes) (prog : InstructionSeq) (ins : Instruction)
    → IsPlaced protos prog 0 prog
    → slots prog < 2 ^ 16
    → IsEncodable protos ins
    → IsClosed prog ins
    → relabel (get_labels 0 prog []) ins ≡ ok ins
unfolding relabel
relabel-IsClosed protos prog (Instruction.jmp j) p h e c =
    rw
      (at-key _ j.target (get_labels-Entries protos prog 0 prog [] p (omega arith) tt)
        (get_labels-IsKey protos prog 0 prog [] j.target c))
      (ground arith)
relabel-IsClosed protos prog Instruction.exit p h e c = refl
relabel-IsClosed protos prog _ p h e c = refl
