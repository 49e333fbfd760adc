-- ===== src/AsmCfg/Decoded.antt =====
-- What the notes of `unmarshal` of src/asm_unmarshal.cpp mean to `find_exit_label` of
-- src/asm_cfg.cpp.
use ebpf_verifier.Base.{true, false≢true, ◌≡◌, refl, none, some, List, [], ◌∷◌}
use ebpf_verifier.Asm.{Label, Instruction, InstructionSeq}
use ebpf_verifier.Outcome.{ok}
use ebpf_verifier.Helpers.{Prototypes}
use ebpf_verifier.Ebpf.{EbpfInst}
use ebpf_verifier.Unmarshal.Loop.{is_exit, unmarshal_all}
use ebpf_verifier.Unmarshal.Quiet.{Quiet, has_exit, unmarshal_all-has_exit}
use ebpf_verifier.AsmCfg.{last_exit, find_exit_label}

kept_exit : (insts : InstructionSeq) (l : Label) → (k : Label) × last_exit insts (some l) ≡ some k
unfolding last_exit
kept_exit [] l = (l, refl)
kept_exit ((m, Instruction.exit) ∷ insts) l = kept_exit insts m
kept_exit ((m, _) ∷ insts) l = kept_exit insts l

found_exit :
    (insts : InstructionSeq) → has_exit insts ≡ true → (k : Label) × last_exit insts none ≡ some k
unfolding last_exit has_exit is_exit
found_exit [] h = absurd (false≢true h)
found_exit ((m, Instruction.exit) ∷ insts) h = kept_exit insts m
found_exit ((m, _) ∷ insts) h = found_exit insts h

-- When the decoder makes a program of a list of slots and leaves no note on any slot,
-- `find_exit_label` finds an exit in that program, so the conversion to a graph does not stop for
-- want of one.
pub find_exit_label-unmarshal_all :
    (protos : Prototypes) (insts : List EbpfInst) (prog : InstructionSeq)
    → Quiet (unmarshal_all protos insts).notes
    → (unmarshal_all protos insts).result ≡ ok prog
    → (l : Label) × find_exit_label prog ≡ ok l
unfolding find_exit_label
find_exit_label-unmarshal_all protos insts prog q e =
    let (l, p) = found_exit prog (unmarshal_all-has_exit protos insts prog q e) in
    (l, rw (p, find_exit_label) refl)
