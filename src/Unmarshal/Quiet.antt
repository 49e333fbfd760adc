-- ===== src/Unmarshal/Quiet.antt =====
-- What the absence of notes says of a program that `Unmarshaller::unmarshal` of
-- src/asm_unmarshal.cpp decodes.
use ebpf_verifier.Base.{
  ℕ, zero, suc, ◌+◌, ◌-◌, ◌<◌, ◌==◌, ◌≡◌, refl, ◌⊎◌, inl, inr, Bool, true, false, Bool-cases, ◌&&◌,
  if◌then◌else◌, List, [], ◌∷◌, ◌++◌, All, String, length, arith,
}
use ebpf_verifier.Asm.{Label, label_t, Instruction, InstructionSeq}
use ebpf_verifier.Outcome.{Result, ok, err}
use ebpf_verifier.Helpers.{Prototypes}
use ebpf_verifier.Ebpf.{EbpfInst}
use ebpf_verifier.Unmarshal.Loop.{
  Listing, add_instruction, fall_note, is_exit, is_lddw, decode, falls_through, count_exit, round,
  unmarshal_loop, unmarshal_all,
}

-- No slot has a note.
abbrev pub Quiet : List (List String) → Type 0
Quiet notes = All (λ line. line ≡ []) notes

unfoldable pub has_exit : InstructionSeq → Bool
has_exit [] = false
has_exit ((l, ins) ∷ prog) = if is_exit ins then true else has_exit prog

-- An exit was counted, or is in the rest of the program.
abbrev Seen : ℕ → InstructionSeq → Type 0
Seen n prog = (0 < n) ⊎ (has_exit prog ≡ true)

-- What holds of a listing, if it has no notes and a program.
abbrev Shows : (InstructionSeq → Type 0) → Listing → Type 0
Shows P l = (prog : InstructionSeq) → Quiet l.notes → l.result ≡ ok prog → P prog

added :
    (li : Label × Instruction) (r : Result InstructionSeq) (prog : InstructionSeq)
    → add_instruction li r ≡ ok prog
    → (rest : InstructionSeq) × (r ≡ ok rest) × (prog ≡ li ∷ rest)
added li (ok rest) prog e = (rest, refl, ground (arith, e))
added li (err f) prog e = ground (arith, e)

note_there : {s : String} → s ∷ [] ≡ [] → ⊥
note_there e = ground (arith, e)

module _ (protos : Prototypes) where
  seen_first :
      (inst : EbpfInst) (l : Label) (ins : Instruction) (n : ℕ) (rest : InstructionSeq)
      → Seen (count_exit protos inst ins n) rest
      → Seen n ((l, ins) ∷ rest)
  unfolding has_exit count_exit
  seen_first inst l ins n rest s = elim (Bool-cases (is_exit ins)) [
    | inl e ↦ inr (rw (e, has_exit) refl)
    | inr e ↦ elim s [ inl p ↦ inl (ground (arith, e, p)) | inr p ↦ inr (rw (e, has_exit) p) ]
  ]

  module _ (insts : List EbpfInst) (pc exits : ℕ) (inst : EbpfInst) where
    one_slot :
        (ins : Instruction) (l : Listing) (prog : InstructionSeq)
        → Shows (Seen (count_exit protos inst ins exits)) l
        → Quiet l.notes
        → add_instruction (label_t pc, ins) l.result ≡ ok prog
        → Seen exits prog
    one_slot ins l prog s q e =
        let (rest, r, p) = added (label_t pc, ins) l.result prog e in
        rw p (seen_first inst (label_t pc) ins exits rest (s rest q r))

    round-Shows :
        (next skip : ℕ → Listing)
        → ((n : ℕ) → Shows (Seen n) (next n))
        → ((n : ℕ) → Shows (Seen n) (skip n))
        → Shows (Seen exits) (round protos insts pc exits inst next skip)
    unfolding round
    round-Shows next skip h k prog q e = go (decode protos insts pc inst).result q e
      where
        one : Instruction → Listing
        one ins = record {
          notes =
              ((decode protos insts pc inst).notes
                ++ fall_note (pc == length insts - 1 && falls_through protos inst ins))
              ∷ (next (count_exit protos inst ins exits)).notes;
          result =
              add_instruction (label_t pc, ins) (next (count_exit protos inst ins exits)).result;
        }

        two : Instruction → Listing
        two ins = record {
          notes =
              ((decode protos insts pc inst).notes
                ++ fall_note (pc == length insts - 1 && falls_through protos inst ins))
              ∷ []
              ∷ (skip (count_exit protos inst ins exits)).notes;
          result =
              add_instruction (label_t pc, ins) (skip (count_exit protos inst ins exits)).result;
        }

        listing : Result Instruction → Listing
        listing (err e) = record {
          notes = (decode protos insts pc inst).notes ∷ [];
          result = err e;
        }
        listing (ok ins) = if is_lddw inst then two ins else one ins

        choose :
            (ins : Instruction) (t : Bool)
            → Quiet (if t then two ins else one ins).notes
            → (if t then two ins else one ins).result ≡ ok prog
            → Seen exits prog
        choose ins true q e =
            one_slot ins (skip (count_exit protos inst ins exits)) prog
              (k (count_exit protos inst ins exits)) q.1.1 e
        choose ins false q e =
            one_slot ins (next (count_exit protos inst ins exits)) prog
              (h (count_exit protos inst ins exits)) q.1 e

        go :
            (r : Result Instruction)
            → Quiet (listing r).notes
            → (listing r).result ≡ ok prog
            → Seen exits prog
        go (err f) q e = ground (arith, e)
        go (ok ins) q e = choose ins (is_lddw inst) q e

  loop-Shows :
      (insts : List EbpfInst) (pc : ℕ) (rest : List EbpfInst) (exits : ℕ)
      → Shows (Seen exits) (unmarshal_loop protos insts pc rest exits)
  unfolding unmarshal_loop
  loop-Shows insts pc [] zero prog q e = absurd (note_there (q.0))
  loop-Shows insts pc [] (suc n) prog q e = inl (omega arith)
  loop-Shows insts pc (inst ∷ []) exits prog q e =
      round-Shows insts pc exits inst (unmarshal_loop protos insts (pc + 1) [])
        (unmarshal_loop protos insts (pc + 2) []) (loop-Shows insts (pc + 1) [])
        (loop-Shows insts (pc + 2) []) prog q e
  loop-Shows insts pc (inst ∷ next ∷ rest) exits prog q e =
      round-Shows insts pc exits inst (unmarshal_loop protos insts (pc + 1) (next ∷ rest))
        (unmarshal_loop protos insts (pc + 2) rest) (loop-Shows insts (pc + 1) (next ∷ rest))
        (loop-Shows insts (pc + 2) rest) prog q e

not_less : ¬ (0 < 0)
not_less = omega arith

pub unmarshal_all-has_exit :
    (protos : Prototypes) (insts : List EbpfInst) (prog : InstructionSeq)
    → Quiet (unmarshal_all protos insts).notes
    → (unmarshal_all protos insts).result ≡ ok prog
    → has_exit prog ≡ true
unfolding unmarshal_all
unmarshal_all-has_exit protos [] prog q e = ground (arith, e)
unmarshal_all-has_exit protos (inst ∷ rest) prog q e =
    elim (loop-Shows protos (inst ∷ rest) 0 (inst ∷ rest) 0 prog q e) [
      | inl p ↦ absurd (not_less p)
      | inr p ↦ p
    ]
