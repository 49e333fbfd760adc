-- ===== src/RoundTrip/Instruction.antt =====
-- Every encodable instruction has a code that the decoder reads back.
use native.Mathlib.Nat.{mod-eq_of_lt}
use ebpf_verifier.Base.{ℕ, ◌%◌, ◌^◌, ◌<◌, ◌≡◌, Bool, true, false, refl, List, arith, length}
use ebpf_verifier.Base.Word.{u32_of-i32_of}
use ebpf_verifier.Asm.{Value, BinOp, Un, Reg, Instruction}
use ebpf_verifier.Outcome.{ok}
use ebpf_verifier.Helpers.{Prototypes}
use ebpf_verifier.Ebpf.{EbpfInst}
use ebpf_verifier.Marshal.{marshal_one}
use ebpf_verifier.Marshal.Program.{size}
use ebpf_verifier.RoundTrip.Encodable.{IsReg, IsOperand, IsBinForm, IsEncodable}
use ebpf_verifier.RoundTrip.Slots.{HasCode, one}
use ebpf_verifier.RoundTrip.Alu.{decode_reg, decode_imm, decode_un, operand-ne-lddw, un-ne-lddw}
use ebpf_verifier.RoundTrip.Wide.{load_map_fd-HasCode, wide_bin-HasCode}
use ebpf_verifier.RoundTrip.Memory.{mem-HasCode, packet-HasCode, lock_add-HasCode}
use ebpf_verifier.RoundTrip.Jump.{exit-HasCode, call-HasCode, jmp-HasCode}

module _ (protos : Prototypes) (pc : ℕ) where
  bin-HasCode :
      (op : BinOp) (is64 : Bool) (dst : Reg) (v : Value)
      → IsReg dst
      → IsOperand v
      → HasCode protos pc
          (Instruction.bin (record { op = op; is64 = is64; dst = dst; v = v; lddw = false }))
  unfolding marshal_one
  bin-HasCode op is64 dst (Value.reg r) hd hv = (
    _,
    refl,
    one _ (operand-ne-lddw op is64 dst.v (Value.reg r)) λ insts.
        rw (decode_reg protos insts pc op is64 dst.v r.v, mod-eq_of_lt hd, mod-eq_of_lt hv),
  )
  bin-HasCode op is64 dst (Value.imm i) hd hv = (
    _,
    refl,
    one _ (operand-ne-lddw op is64 dst.v (Value.imm i)) λ insts.
        rw (decode_imm protos insts pc op is64 dst.v i.v, mod-eq_of_lt hd, u32_of-i32_of i.v hv),
  )

  un-HasCode : (u : Un) → IsReg u.dst → HasCode protos pc (Instruction.un u)
  unfolding marshal_one
  un-HasCode u h = (
    _,
    refl,
    one _ (un-ne-lddw u.op (u.dst.v % 16))
        λ insts. rw (decode_un protos insts pc u.op (u.dst.v % 16), mod-eq_of_lt h),
  )

  -- An encodable instruction at a slot below 2^16 is encoded in one slot, or in two, and the
  -- decoder reads it back from there in every program that holds the second slot behind the first.
  pub marshal_one-HasCode :
      (ins : Instruction) → pc < 2 ^ 16 → IsEncodable protos ins → HasCode protos pc ins
  marshal_one-HasCode (Instruction.undefined u) short h = absurd h
  marshal_one-HasCode (Instruction.bin b) short h = go b.lddw h.1
    where
      go :
          (wide : Bool)
          → IsBinForm wide b
          → HasCode protos pc (Instruction.bin (record b { lddw = wide }))
      go true w = rw (w.0, w.1) (wide_bin-HasCode protos pc short b.dst b.v h.0 w.2)
      go false w = bin-HasCode b.op b.is64 b.dst b.v h.0 w
  marshal_one-HasCode (Instruction.un u) short h = un-HasCode u h
  marshal_one-HasCode (Instruction.load_map_fd l) short h =
      load_map_fd-HasCode protos pc short l h.0 h.1
  marshal_one-HasCode (Instruction.call c) short h = call-HasCode protos pc c h
  marshal_one-HasCode Instruction.exit short h = exit-HasCode protos pc
  marshal_one-HasCode (Instruction.jmp j) short h = jmp-HasCode protos pc j short h.0 h.1
  marshal_one-HasCode (Instruction.mem m) short h = mem-HasCode protos pc m h.0 h.1 h.2 h.3
  marshal_one-HasCode (Instruction.packet p) short h = packet-HasCode protos pc p h.0 h.1
  marshal_one-HasCode (Instruction.lock_add l) short h =
      lock_add-HasCode protos pc l h.0 h.1 h.2 h.3
  marshal_one-HasCode (Instruction.assume a) short h = absurd h
  marshal_one-HasCode (Instruction.assert a) short h = absurd h

-- Wherever an instruction stands, if it is encoded it takes as many slots as `size` counts.
pub length-marshal_one :
    (pc : ℕ) (ins : Instruction) {es : List EbpfInst}
    → marshal_one pc ins ≡ ok es
    → length es ≡ size ins
unfolding marshal_one size
length-marshal_one pc (Instruction.undefined u) e = ground arith
length-marshal_one pc _ e = ground arith
