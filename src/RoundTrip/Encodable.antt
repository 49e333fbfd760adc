-- ===== src/RoundTrip/Encodable.antt =====
-- The instructions that src/asm_marshal.cpp can express in the fields of `ebpf_inst`.
use ebpf_verifier.Base.{ℕ, ◌^◌, ◌<◌, ◌≡◌, ◌≢◌, ◌⊎◌, Bool, true, false, Option, none, some}
use ebpf_verifier.Base.Word.{IsI32, IsI16}
use ebpf_verifier.Asm.{Reg, Value, BinOp, Bin, ConditionOp, Condition, Label, Instruction}
use ebpf_verifier.Outcome.{ok}
use ebpf_verifier.Helpers.{Prototypes}
use ebpf_verifier.Unmarshal.Jump.{make_call}

abbrev pub IsReg : Reg → Type 0
IsReg r = r.v < 16

-- An immediate of 32 bits, or a register.
abbrev pub IsOperand : Value → Type 0
IsOperand (Value.imm i) = i.v < 2 ^ 32
IsOperand (Value.reg r) = IsReg r

abbrev pub IsWideImm : Value → Type 0
IsWideImm (Value.imm i) = i.v < 2 ^ 64
IsWideImm (Value.reg r) = ⊥

-- Only a 64-bit move of an immediate has the form of two slots.
abbrev pub IsBinForm : Bool → Bin → Type 0
IsBinForm true b = (b.op ≡ BinOp.mov) × (b.is64 ≡ true) × IsWideImm b.v
IsBinForm false b = IsOperand b.v

abbrev pub IsWidth : ℕ → Type 0
IsWidth w = (w ≡ 1) ⊎ (w ≡ 2) ⊎ (w ≡ 4) ⊎ (w ≡ 8)

abbrev pub IsCondition : Option Condition → Type 0
IsCondition none = Unit
IsCondition (some c) = (c.op ≢ ConditionOp.nset) × IsReg c.left × IsOperand c.right

abbrev pub IsTarget : Label → Type 0
IsTarget l = (l.from < 2 ^ 16) × (l.to ≡ 0)

abbrev pub IsLoadValue : Value → Type 0
IsLoadValue (Value.imm i) = ⊥
IsLoadValue (Value.reg r) = IsReg r

abbrev pub IsMemValue : Bool → Value → Type 0
IsMemValue true v = IsLoadValue v
IsMemValue false v = IsOperand v

abbrev pub IsOptionalReg : Option Reg → Type 0
IsOptionalReg none = Unit
IsOptionalReg (some r) = IsReg r

module _ (protos : Prototypes) where
  abbrev pub IsEncodable : Instruction → Type 0
  IsEncodable (Instruction.undefined u) = ⊥
  IsEncodable (Instruction.bin b) = IsReg b.dst × IsBinForm b.lddw b
  IsEncodable (Instruction.un u) = IsReg u.dst
  IsEncodable (Instruction.load_map_fd l) = IsReg l.dst × IsI32 l.mapfd
  IsEncodable (Instruction.call c) = make_call protos c.func ≡ ok c
  IsEncodable Instruction.exit = Unit
  IsEncodable (Instruction.jmp j) = IsCondition j.cond × IsTarget j.target
  IsEncodable (Instruction.mem m) =
      IsWidth m.access.width
      × IsReg m.access.basereg
      × IsI16 m.access.offset
      × IsMemValue m.is_load m.value
  IsEncodable (Instruction.packet p) = IsWidth p.width × IsOptionalReg p.regoffset
  IsEncodable (Instruction.lock_add l) =
      IsWidth l.access.width × IsReg l.access.basereg × IsI16 l.access.offset × IsReg l.valreg
  IsEncodable (Instruction.assume a) = ⊥
  IsEncodable (Instruction.assert a) = ⊥
