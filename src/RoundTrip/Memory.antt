-- ===== src/RoundTrip/Memory.antt =====
-- Loads, stores, packet accesses and atomic additions: `makeMemOp` on what the visitor builds.
use native.Mathlib.Nat.{mod-eq_of_lt}
use ebpf_verifier.Base.{
  ℕ, ◌<◌, ◌≡◌, Bool, true, false, refl, ◌∙◌, inl, inr, Option, none, some, arith,
}
use ebpf_verifier.Base.Int.{ℤ}
use ebpf_verifier.Base.Word.{IsI16, i16_of_fits, u32_of-i32_of}
use ebpf_verifier.Asm.{Reg, Value, Mem, Packet, LockAdd, Instruction}
use ebpf_verifier.Outcome.{ok, Noted}
use ebpf_verifier.Helpers.{Prototypes}
use ebpf_verifier.Ebpf.{EbpfInst, opcode_to_width}
use ebpf_verifier.Unmarshal.Memory.{check_stack_access, make_mem_op}
use ebpf_verifier.Unmarshal.Loop.{decode, is_lddw}
use ebpf_verifier.Marshal.{marshal_one}
use ebpf_verifier.RoundTrip.Encodable.{IsReg, IsOperand, IsMemValue, IsWidth, IsOptionalReg}
use ebpf_verifier.RoundTrip.Slots.{HasCode, one}

-- The check of the stack bounds only leaves a note.
check_stack_access-result :
    (inst : EbpfInst) (base : ℕ) (rest : Noted Instruction) {w : ℕ}
    → opcode_to_width inst.opcode ≡ ok w
    → (check_stack_access inst base rest).result ≡ rest.result
unfolding check_stack_access
check_stack_access-result inst base rest e = ground arith

-- The four widths as an enumeration, so that a proof over them is a pair of clauses.
data Size : Type 0 where
  byte half word double : Size

abbrev bytes : Size → ℕ
bytes byte = 1
bytes half = 2
bytes word = 4
bytes double = 8

at_widths {ℓ} : (P : ℕ → Type ℓ) → ((k : Size) → P (bytes k)) → (w : ℕ) → IsWidth w → P w
at_widths P p w (inl e) = rw e (p byte)
at_widths P p w (inr (inl e)) = rw e (p half)
at_widths P p w (inr (inr (inl e))) = rw e (p word)
at_widths P p w (inr (inr (inr e))) = rw e (p double)

module _ (protos : Prototypes) (pc base : ℕ) (offset : ℤ) (hb : base < 16) (ho : IsI16 offset) where
  abbrev Access : Bool → Value → ℕ → Type 0
  Access is_load value w = HasCode protos pc (
      Instruction.mem (record {
        access = record { width = w; basereg = record { v = base }; offset = offset };
        value = value;
        is_load = is_load;
      }))

  load_at : (r : Reg) → IsReg r → (k : Size) → Access true (Value.reg r) (bytes k)
  unfolding marshal_one decode is_lddw make_mem_op opcode_to_width
  load_at r hv byte = (
    _,
    refl,
    one _ refl λ insts.
        check_stack_access-result _ _ _ refl
        ∙ rw (mod-eq_of_lt hb, mod-eq_of_lt hv, i16_of_fits offset ho),
  )
  load_at r hv _ = (
    _,
    refl,
    one _ refl λ insts.
        check_stack_access-result _ _ _ refl
        ∙ rw (mod-eq_of_lt hb, mod-eq_of_lt hv, i16_of_fits offset ho),
  )

  store_at : (v : Value) → IsOperand v → (k : Size) → Access false v (bytes k)
  unfolding marshal_one decode is_lddw make_mem_op opcode_to_width
  store_at (Value.reg r) hv byte = (
    _,
    refl,
    one _ refl λ insts.
        check_stack_access-result _ _ _ refl
        ∙ rw (mod-eq_of_lt hb, mod-eq_of_lt hv, i16_of_fits offset ho),
  )
  store_at (Value.reg r) hv _ = (
    _,
    refl,
    one _ refl λ insts.
        check_stack_access-result _ _ _ refl
        ∙ rw (mod-eq_of_lt hb, mod-eq_of_lt hv, i16_of_fits offset ho),
  )
  store_at (Value.imm i) hv byte = (
    _,
    refl,
    one _ refl λ insts.
        check_stack_access-result _ _ _ refl
        ∙ rw (mod-eq_of_lt hb, u32_of-i32_of i.v hv, i16_of_fits offset ho),
  )
  store_at (Value.imm i) hv _ = (
    _,
    refl,
    one _ refl λ insts.
        check_stack_access-result _ _ _ refl
        ∙ rw (mod-eq_of_lt hb, u32_of-i32_of i.v hv, i16_of_fits offset ho),
  )

  lock_add_at :
      (r : Reg)
      → IsReg r
      → (k : Size)
      → HasCode protos pc (
          Instruction.lock_add (record {
            access = record { width = bytes k; basereg = record { v = base }; offset = offset };
            valreg = r;
          }))
  unfolding marshal_one decode is_lddw make_mem_op
  lock_add_at r h byte =
      (_, refl, one _ refl λ insts. rw (mod-eq_of_lt hb, mod-eq_of_lt h, i16_of_fits offset ho))
  lock_add_at r h _ =
      (_, refl, one _ refl λ insts. rw (mod-eq_of_lt hb, mod-eq_of_lt h, i16_of_fits offset ho))

module _ (protos : Prototypes) (pc : ℕ) where
  pub mem-HasCode :
      (m : Mem)
      → IsWidth m.access.width
      → IsReg m.access.basereg
      → IsI16 m.access.offset
      → IsMemValue m.is_load m.value
      → HasCode protos pc (Instruction.mem m)
  mem-HasCode m hw hb ho hv = go m.is_load m.value hv
    where
      open m.access use {width, basereg, offset}

      At : Bool → Value → ℕ → Type 0
      At = Access protos pc basereg.v offset hb ho

      go : (l : Bool) (v : Value) → IsMemValue l v → At l v width
      go true (Value.imm i) h = absurd h
      go true (Value.reg r) h =
          at_widths (At true (Value.reg r)) (load_at protos pc basereg.v offset hb ho r h) width hw
      go false v h = at_widths (At false v) (store_at protos pc basereg.v offset hb ho v h) width hw

  pub lock_add-HasCode :
      (l : LockAdd)
      → IsWidth l.access.width
      → IsReg l.access.basereg
      → IsI16 l.access.offset
      → IsReg l.valreg
      → HasCode protos pc (Instruction.lock_add l)
  lock_add-HasCode l hw hb ho hv =
      at_widths
        (λ w. HasCode protos pc (
          Instruction.lock_add (record {
            access = record { width = w; basereg = l.access.basereg; offset = l.access.offset };
            valreg = l.valreg;
          })))
        (lock_add_at protos pc _ _ hb ho l.valreg hv) _ hw

  packet_at :
      (offset : ℤ) (r : Option Reg)
      → IsOptionalReg r
      → (k : Size)
      → HasCode protos pc
          (Instruction.packet (record { width = bytes k; offset = offset; regoffset = r }))
  unfolding marshal_one decode is_lddw make_mem_op
  packet_at offset none h byte = (_, refl, one _ refl λ insts. refl)
  packet_at offset none h _ = (_, refl, one _ refl λ insts. refl)
  packet_at offset (some r) h byte = (_, refl, one _ refl λ insts. rw (mod-eq_of_lt h))
  packet_at offset (some r) h _ = (_, refl, one _ refl λ insts. rw (mod-eq_of_lt h))

  pub packet-HasCode :
      (p : Packet)
      → IsWidth p.width
      → IsOptionalReg p.regoffset
      → HasCode protos pc (Instruction.packet p)
  packet-HasCode p hw hr =
      at_widths
        (λ w.
          HasCode protos pc
            (Instruction.packet (record { width = w; offset = p.offset; regoffset = p.regoffset })))
        (packet_at p.offset p.regoffset hr) _ hw
