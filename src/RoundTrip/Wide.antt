-- ===== src/RoundTrip/Wide.antt =====
-- The two slots of LDDW: `makeLddw` of the decoder on those of the encoder.
use native.Mathlib.Nat.{mod-eq_of_lt}
use ebpf_verifier.Base.{
  ℕ, zero, suc, ◌+◌, ◌/◌, ◌%◌, ◌^◌, ◌<◌, ◌≡◌, true, refl, some, List, [], ◌∷◌, length, get_elem?,
  arith,
}
use ebpf_verifier.Base.Word.{
  i32_of, u32_of, u64_of, IsI32, i32_of-u32_of, u32_of-i32_of, i32_of_fits,
}
use ebpf_verifier.Asm.{Reg, Value, BinOp, LoadMapFd, Instruction}
use ebpf_verifier.Helpers.{Prototypes}
use ebpf_verifier.Ebpf.{EbpfInst, merge, split}
use ebpf_verifier.Unmarshal.Memory.{make_lddw}
use ebpf_verifier.Unmarshal.Loop.{decode, is_lddw, next_imm}
use ebpf_verifier.Marshal.{marshal_one}
use ebpf_verifier.RoundTrip.Encodable.{IsReg, IsWideImm}
use ebpf_verifier.RoundTrip.Slots.{HasCode, two}

get_elem?-lt {ℓ} :
    {A : Type ℓ} (xs : List A) (i : ℕ) {x : A} → get_elem? xs i ≡ some x → i < length xs
get_elem?-lt [] i h = absurd (cc)
get_elem?-lt (x ∷ xs) zero h = omega arith
get_elem?-lt (x ∷ xs) (suc i) h = omega (arith, get_elem?-lt xs i h)

u64_of-i32_of : (n : ℕ) → n < 2 ^ 32 → u64_of (i32_of n) % 2 ^ 32 ≡ n
unfolding u64_of i32_of
u64_of-i32_of n h = ground arith

-- A number below 2^64 is the merge of the two halves that it is split into.
pub merge-split : (v : ℕ) → v < 2 ^ 64 → merge (split v).0 (split v).1 ≡ v
unfolding merge split
merge-split v h = omega (
  arith,
  u64_of-i32_of (v / 2 ^ 32 % 2 ^ 32) (omega arith),
  u32_of-i32_of (v % 2 ^ 32) (omega arith),
)

next_imm-some :
    (insts : List EbpfInst) (pc : ℕ) (j : EbpfInst)
    → get_elem? insts (pc + 1) ≡ some j
    → next_imm insts pc ≡ u32_of j.imm
unfolding next_imm
next_imm-some insts pc j h = ground (arith, get_elem?-lt insts (pc + 1) h)

second_half : (v : ℕ) → i32_of (u32_of (split v).1) ≡ (split v).1
unfolding split
second_half v = i32_of-u32_of _ (i32_of_fits _)

module _ (protos : Prototypes) (pc : ℕ) (short : pc < 2 ^ 16) where
  pub load_map_fd-HasCode :
      (l : LoadMapFd) → IsReg l.dst → IsI32 l.mapfd → HasCode protos pc (Instruction.load_map_fd l)
  unfolding marshal_one decode is_lddw make_lddw
  load_map_fd-HasCode l r h = (_, refl, two _ _ refl (λ insts e. rw (mod-eq_of_lt r)))

  pub wide_bin-HasCode :
      (dst : Reg) (v : Value)
      → IsReg dst
      → IsWideImm v
      → HasCode protos pc
          (Instruction.bin (record { op = BinOp.mov; is64 = true; dst = dst; v = v; lddw = true }))
  unfolding marshal_one decode is_lddw make_lddw
  wide_bin-HasCode dst (Value.reg x) r h = absurd h
  wide_bin-HasCode dst (Value.imm i) r h = (
    _,
    refl,
    two _ _ refl λ insts e. rw (
      mod-eq_of_lt short,
      e,
      next_imm-some insts pc _ e,
      second_half i.v,
      merge-split i.v h,
      mod-eq_of_lt r,
    ),
  )
