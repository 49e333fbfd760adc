-- ===== src/Asm.antt =====
-- The assembly syntax: labels, operands, the instructions and the assertions of
-- src/asm_syntax.hpp. A `std::variant` is a data type with one constructor for each alternative,
-- an `enum class` a data type, a `struct` a record.
use ebpf_verifier.Base.{ℕ, Bool, Option, List, String, ltb, ◌==◌, ◌&&◌, ◌||◌, if◌then◌else◌}
use ebpf_verifier.Outcome.{Result, ok, err, Fault}
use ebpf_verifier.Base.Int.{ℤ}

-- Indices of instructions come from `pc_t`, so both parts are numbers; `to` is 0 on a plain label.
pub record Label : Type 0 where
  pub from : ℕ
  pub to : ℕ

abbrev pub label_t : ℕ → Label
label_t index = record { from = index; to = 0 }

-- The label of the edge between two labels, which have to be plain.
abbrev pub edge_label : Label → Label → Result Label
edge_label source target =
    if source.to == 0 && target.to == 0
    then ok (record { from = source.from; to = target.from })
    else err Fault.assertion

abbrev pub label_eq : Label → Label → Bool
label_eq a b = a.from == b.from && a.to == b.to

abbrev pub label_lt : Label → Label → Bool
label_lt a b = ltb a.from b.from || a.from == b.from && ltb a.to b.to

pub record Imm : Type 0 where
  pub v : ℕ

pub record Reg : Type 0 where
  pub v : ℕ

pub data Value : Type 0 where
  imm : Imm → Value
  reg : Reg → Value

pub data BinOp : Type 0 where
  mov add sub mul div mod_op or and lsh rsh arsh xor : BinOp

pub record Bin : Type 0 where
  pub op : BinOp
  pub is64 : Bool
  pub dst : Reg
  pub v : Value
  pub lddw : Bool

pub data UnOp : Type 0 where
  le16 le32 le64 neg : UnOp

pub record Un : Type 0 where
  pub op : UnOp
  pub dst : Reg

pub record LoadMapFd : Type 0 where
  pub dst : Reg
  pub mapfd : ℤ

pub data ConditionOp : Type 0 where
  eq ne set nset lt le gt ge slt sle sgt sge : ConditionOp

pub record Condition : Type 0 where
  pub op : ConditionOp
  pub left : Reg
  pub right : Value

pub record Jmp : Type 0 where
  pub cond : Option Condition
  pub target : Label

pub data ArgSingleKind : Type 0 where
  map_fd ptr_to_map_key ptr_to_map_value ptr_to_ctx anything : ArgSingleKind

pub record ArgSingle : Type 0 where
  pub kind : ArgSingleKind
  pub reg : Reg

pub data ArgPairKind : Type 0 where
  ptr_to_mem ptr_to_mem_or_null ptr_to_uninit_mem : ArgPairKind

pub record ArgPair : Type 0 where
  pub kind : ArgPairKind
  pub mem : Reg
  pub size : Reg
  pub can_be_zero : Bool

pub record Call : Type 0 where
  pub func : ℤ
  pub name : String
  pub pkt_access : Bool
  pub returns_map : Bool
  pub singles : List ArgSingle
  pub pairs : List ArgPair

pub record Deref : Type 0 where
  pub width : ℕ
  pub basereg : Reg
  pub offset : ℤ

pub record Mem : Type 0 where
  pub access : Deref
  pub value : Value
  pub is_load : Bool

pub record Packet : Type 0 where
  pub width : ℕ
  pub offset : ℤ
  pub regoffset : Option Reg

pub record LockAdd : Type 0 where
  pub access : Deref
  pub valreg : Reg

pub record Undefined : Type 0 where
  pub opcode : ℕ

pub record Assume : Type 0 where
  pub cond : Condition

pub data TypeGroup : Type 0 where
  num map_fd ctx packet stack shared : TypeGroup
  non_map_fd mem mem_or_num ptr ptr_or_num stack_or_packet : TypeGroup

pub data AssertionConstraint : Type 0 where
  comparable : (r1 r2 : Reg) → AssertionConstraint
  addable : (ptr num : Reg) → AssertionConstraint
  valid_access : (reg : Reg) (offset : ℤ) (width : Value) (or_null : Bool) → AssertionConstraint
  valid_store : (mem val : Reg) → AssertionConstraint
  valid_size : (reg : Reg) (can_be_zero : Bool) → AssertionConstraint
  valid_map_key_value : (access_reg map_fd_reg : Reg) (key : Bool) → AssertionConstraint
  type_constraint : (reg : Reg) (types : TypeGroup) → AssertionConstraint

pub record Assert : Type 0 where
  pub cst : AssertionConstraint
  pub satisfied : Bool

-- `Assert{cst}`: not yet shown to hold.
abbrev pub unproved : AssertionConstraint → Assert
unproved c = record { cst = c; satisfied = Bool.false }

pub data Instruction : Type 0 where
  undefined : Undefined → Instruction
  bin : Bin → Instruction
  un : Un → Instruction
  load_map_fd : LoadMapFd → Instruction
  call : Call → Instruction
  exit : Instruction
  jmp : Jmp → Instruction
  mem : Mem → Instruction
  packet : Packet → Instruction
  lock_add : LockAdd → Instruction
  assume : Assume → Instruction
  assert : Assert → Instruction

abbrev pub LabeledInstruction : Type 0
LabeledInstruction = Label × Instruction

abbrev pub InstructionSeq : Type 0
InstructionSeq = List LabeledInstruction
