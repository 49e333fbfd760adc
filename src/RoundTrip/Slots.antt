-- ===== src/RoundTrip/Slots.antt =====
-- The slots that an instruction is encoded in, and that the decoder reads back.
use ebpf_verifier.Base.{ℕ, ◌+◌, ◌≡◌, true, false, some, List, [], ◌∷◌, get_elem?}
use ebpf_verifier.Asm.{Instruction}
use ebpf_verifier.Outcome.{ok}
use ebpf_verifier.Helpers.{Prototypes}
use ebpf_verifier.Ebpf.{EbpfInst}
use ebpf_verifier.Unmarshal.Loop.{decode, is_lddw}
use ebpf_verifier.Marshal.{marshal_one}

module _ (protos : Prototypes) (pc : ℕ) (ins : Instruction) where
  -- One slot, or two of which the second is read at `pc + 1`.
  pub data Codes : List EbpfInst → Type 0 where
    one :
        (i : EbpfInst)
        → is_lddw i ≡ false
        → ((insts : List EbpfInst) → (decode protos insts pc i).result ≡ ok ins)
        → Codes (i ∷ [])
    two :
        (i j : EbpfInst)
        → is_lddw i ≡ true
        → ((insts : List EbpfInst)
            → get_elem? insts (pc + 1) ≡ some j
            → (decode protos insts pc i).result ≡ ok ins)
        → Codes (i ∷ j ∷ [])

  -- The encoder succeeds, and the decoder reads the instruction back.
  abbrev pub HasCode : Type 0
  HasCode = (es : List EbpfInst) × (marshal_one pc ins ≡ ok es) × Codes es
