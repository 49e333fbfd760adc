-- ===== src/RoundTrip/Program.antt =====
-- The round trip of whole programs: `unmarshal` of src/asm_unmarshal.cpp on what `marshal` of
-- src/asm_marshal.cpp makes of a labelled program.
use ebpf_verifier.Base.{
  ℕ, ◌+◌, ◌%◌, ◌^◌, ◌<◌, ◌≡◌, ◌≢◌, inl, true, false, refl, ap, ◌∙◌, List, [], ◌∷◌, ◌++◌, arith,
  length, get_elem?, get_elem?-append,
}
use ebpf_verifier.Asm.{Label, label_t, Instruction, InstructionSeq}
use ebpf_verifier.Outcome.{ok}
use ebpf_verifier.Helpers.{Prototypes}
use ebpf_verifier.Ebpf.{EbpfInst}
use ebpf_verifier.Unmarshal.Loop.{
  Listing, round, unmarshal_loop, unmarshal_all, unmarshal, is_lddw, decode,
}
use ebpf_verifier.Marshal.Program.{size, get_labels, marshal_labeled, marshal, relabel}
use ebpf_verifier.RoundTrip.Encodable.{IsEncodable}
use ebpf_verifier.RoundTrip.Slots.{Codes, one, two}
use ebpf_verifier.RoundTrip.Labels.{slots, IsClosed, IsPlaced, relabel-IsClosed}
use ebpf_verifier.RoundTrip.Instruction.{marshal_one-HasCode, length-marshal_one}

-- The slots from `pc` on are `es`.
abbrev Holds : List EbpfInst → ℕ → List EbpfInst → Type 0
Holds insts pc es = (k : ℕ) → get_elem? insts (pc + k) ≡ get_elem? es k

module _ (protos : Prototypes) (insts : List EbpfInst) (pc : ℕ) (ins : Instruction) where
  -- What the loop finds behind, for every count of exits.
  abbrev Reads : ℕ → List EbpfInst → InstructionSeq → Type 0
  Reads at es prog = (exits : ℕ) → (unmarshal_loop protos insts at es exits).result ≡ ok prog

  round_one :
      (exits : ℕ) (i : EbpfInst) (next skip : ℕ → Listing) (prog : InstructionSeq)
      → (decode protos insts pc i).result ≡ ok ins
      → is_lddw i ≡ false
      → ((n : ℕ) → (next n).result ≡ ok prog)
      → (round protos insts pc exits i next skip).result ≡ ok ((label_t pc, ins) ∷ prog)
  unfolding round
  round_one exits i next skip prog d l r = rw (d, round) (rw l (rw (r _)))

  round_two :
      (exits : ℕ) (i : EbpfInst) (next skip : ℕ → Listing) (prog : InstructionSeq)
      → (decode protos insts pc i).result ≡ ok ins
      → is_lddw i ≡ true
      → ((n : ℕ) → (skip n).result ≡ ok prog)
      → (round protos insts pc exits i next skip).result ≡ ok ((label_t pc, ins) ∷ prog)
  unfolding round
  round_two exits i next skip prog d l r = rw (d, round) (rw l (rw (r _)))

-- The rest of a program in memory, behind the code of one instruction.
Holds-tail :
    (insts : List EbpfInst) (pc : ℕ) (es rest : List EbpfInst)
    → Holds insts pc (es ++ rest)
    → Holds insts (pc + length es) rest
Holds-tail insts pc es rest h k =
    ap (get_elem? insts) (omega arith) ∙ h (length es + k) ∙ get_elem?-append es rest k

module _ (protos : Prototypes) (insts : List EbpfInst) (pc : ℕ) (ins : Instruction) where
  -- One round of the loop over the code of an instruction.
  loop-Codes :
      {es : List EbpfInst} (rest : List EbpfInst) (prog : InstructionSeq)
      → Codes protos pc ins es
      → Holds insts pc (es ++ rest)
      → Reads protos insts pc ins (pc + length es) rest prog
      → Reads protos insts pc ins pc (es ++ rest) ((label_t pc, ins) ∷ prog)
  unfolding unmarshal_loop
  loop-Codes [] prog (one i l d) h r n =
      round_one protos insts pc ins n i (unmarshal_loop protos insts (pc + 1) [])
        (unmarshal_loop protos insts (pc + 2) []) prog (d insts) l r
  loop-Codes (j ∷ rest) prog (one i l d) h r n =
      round_one protos insts pc ins n i (unmarshal_loop protos insts (pc + 1) (j ∷ rest))
        (unmarshal_loop protos insts (pc + 2) rest) prog (d insts) l r
  loop-Codes rest prog (two i j l d) h r n =
      round_two protos insts pc ins n i (unmarshal_loop protos insts (pc + 1) (j ∷ rest))
        (unmarshal_loop protos insts (pc + 2) rest) prog (d insts (h 1)) l r

-- The same, where the rest is read back from the slot that `size` gives.
loop-size :
    (protos : Prototypes) (pc k : ℕ) (ins : Instruction) (es rest : List EbpfInst)
    (prog : InstructionSeq)
    → length es ≡ k
    → Codes protos pc ins es
    → ((insts : List EbpfInst) (exits : ℕ)
        → Holds insts (pc + k) rest
        → (unmarshal_loop protos insts (pc + k) rest exits).result ≡ ok prog)
    → (insts : List EbpfInst) (exits : ℕ) → Holds insts pc (es ++ rest)
    → (unmarshal_loop protos insts pc (es ++ rest) exits).result ≡ ok ((label_t pc, ins) ∷ prog)
loop-size protos pc k ins es rest prog e code back insts exits holds =
    let behind : Holds insts (pc + k) rest = λ j. rw (← e) (Holds-tail insts pc es rest holds j) in
    loop-Codes protos insts pc ins rest prog code holds (λ n. rw e (back insts n behind)) exits

next_pc :
    (pc : ℕ) (ins : Instruction) (es : List EbpfInst) (later : ℕ)
    → length es ≡ size ins
    → pc + (size ins + later) < 2 ^ 16
    → (pc + length es) % 2 ^ 16 ≡ pc + size ins
next_pc pc ins es later n h = omega arith

module _ (protos : Prototypes) (all : InstructionSeq) (m : List (Label × ℕ)) where
  -- The encoder succeeds on the rest of a program, and the loop reads that rest back.
  program_back :
      (pc : ℕ) (prog : InstructionSeq)
      → ((ins : Instruction) → IsEncodable protos ins → IsClosed all ins → relabel m ins ≡ ok ins)
      → IsPlaced protos all pc prog
      → pc + slots prog < 2 ^ 16
      → (es : List EbpfInst) × (marshal_labeled m pc prog ≡ ok es)
        × ((insts : List EbpfInst) (exits : ℕ)
            → Holds insts pc es
            → (unmarshal_loop protos insts pc es exits).result ≡ ok prog)
  unfolding marshal_labeled slots unmarshal_loop
  program_back pc [] keep p h = ([], refl, λ insts exits holds. refl)
  program_back pc ((l, ins) ∷ prog) keep p h =
      let (es, done, code) = marshal_one-HasCode protos pc ins (omega arith) p.1 in
      let n = length-marshal_one pc ins done in
      let (rest, more, back) = program_back (pc + size ins) prog keep p.3 (omega arith) in
      (
        es ++ rest,
        rw (keep ins p.1 p.2, done, next_pc pc ins es (slots prog) n h, more),
        λ insts exits holds.
            rw p.0 (loop-size protos pc (size ins) ins es rest prog n code back insts exits holds),
      )

unmarshal-loop :
    (protos : Prototypes) (prog : InstructionSeq) (es : List EbpfInst)
    → prog ≢ []
    → (unmarshal_loop protos es 0 es 0).result ≡ ok prog
    → unmarshal protos es ≡ ok (inl prog)
unfolding unmarshal unmarshal_all unmarshal_loop
unmarshal-loop protos prog [] ne e = absurd (ne (ground arith))
unmarshal-loop protos prog (i ∷ es) ne e = rw (e, unmarshal)

-- A program that is not empty, takes fewer than 2^16 slots, and whose instructions are encodable,
-- labelled by their slots and jump to labels of the program is encoded by `marshal`, and
-- `unmarshal` on the result returns the program.
pub unmarshal-marshal :
    (protos : Prototypes) (prog : InstructionSeq)
    → prog ≢ []
    → IsPlaced protos prog 0 prog
    → slots prog < 2 ^ 16
    → (es : List EbpfInst) × (marshal prog ≡ ok es) × (unmarshal protos es ≡ ok (inl prog))
unfolding marshal
unmarshal-marshal protos prog ne p h =
    let (es, done, back) =
      program_back protos prog (get_labels 0 prog []) 0 prog
        (λ ins e c. relabel-IsClosed protos prog ins p h e c) p (omega arith) in
    (es, done, unmarshal-loop protos prog es ne (back es 0 (λ k. ap (get_elem? es) (omega arith))))
