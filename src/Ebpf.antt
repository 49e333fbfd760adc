-- ===== src/Ebpf.antt =====
-- The raw instruction and its opcode fields: src/linux_ebpf.hpp, and the two functions between
-- widths and size fields of src/asm_unmarshal.cpp.
use ebpf_verifier.Base.{ℕ, ◌+◌, ◌*◌, ◌/◌, ◌%◌, ◌^◌, bit_and, bit_or, ◌==◌, if◌then◌else◌}
use ebpf_verifier.Base.Int.{ℤ}
use ebpf_verifier.Base.Word.{u32_of, u64_of, i32_of}
use ebpf_verifier.Outcome.{Result, ok, err, Fault}

-- `dst` and `src` are fields of 4 bits, `offset` is an int16_t and `imm` an int32_t.
pub record EbpfInst : Type 0 where
  pub opcode : ℕ
  pub dst : ℕ
  pub src : ℕ
  pub offset : ℤ
  pub imm : ℤ

abbrev pub inst_cls_mask : ℕ
inst_cls_mask = 0x07

abbrev pub inst_cls_ld : ℕ
inst_cls_ld = 0x00

abbrev pub inst_cls_ldx : ℕ
inst_cls_ldx = 0x01

abbrev pub inst_cls_st : ℕ
inst_cls_st = 0x02

abbrev pub inst_cls_stx : ℕ
inst_cls_stx = 0x03

abbrev pub inst_cls_alu : ℕ
inst_cls_alu = 0x04

abbrev pub inst_cls_jmp : ℕ
inst_cls_jmp = 0x05

abbrev pub inst_cls_unused : ℕ
inst_cls_unused = 0x06

abbrev pub inst_cls_alu64 : ℕ
inst_cls_alu64 = 0x07

abbrev pub inst_src_imm : ℕ
inst_src_imm = 0x00

abbrev pub inst_src_reg : ℕ
inst_src_reg = 0x08

abbrev pub inst_size_w : ℕ
inst_size_w = 0x00

abbrev pub inst_size_h : ℕ
inst_size_h = 0x08

abbrev pub inst_size_b : ℕ
inst_size_b = 0x10

abbrev pub inst_size_dw : ℕ
inst_size_dw = 0x18

abbrev pub inst_size_mask : ℕ
inst_size_mask = 0x18

abbrev pub inst_mode_mask : ℕ
inst_mode_mask = 0xe0

abbrev pub inst_abs : ℕ
inst_abs = 1

abbrev pub inst_ind : ℕ
inst_ind = 2

abbrev pub inst_mem : ℕ
inst_mem = 3

abbrev pub inst_len : ℕ
inst_len = 4

abbrev pub inst_msh : ℕ
inst_msh = 5

abbrev pub inst_xadd : ℕ
inst_xadd = 6

abbrev pub inst_mem_unused : ℕ
inst_mem_unused = 7

abbrev pub inst_op_lddw_imm : ℕ
inst_op_lddw_imm = bit_or inst_cls_ld (bit_or inst_src_imm inst_size_dw)

abbrev pub inst_op_ja : ℕ
inst_op_ja = bit_or inst_cls_jmp 0x00

abbrev pub inst_op_call : ℕ
inst_op_call = bit_or inst_cls_jmp 0x80

abbrev pub inst_op_exit : ℕ
inst_op_exit = bit_or inst_cls_jmp 0x90

abbrev pub r0_return_value : ℕ
r0_return_value = 0

abbrev pub r10_stack_pointer : ℕ
r10_stack_pointer = 10

-- The fields of an opcode that the code masks out: its class, its upper four bits.
abbrev pub inst_class : ℕ → ℕ
inst_class opcode = bit_and opcode inst_cls_mask

abbrev pub op_field : ℕ → ℕ
op_field opcode = bit_and (opcode / 2 ^ 4) 0xf

-- The last line is the `assert(false)` behind the switch.
unfoldable pub opcode_to_width : ℕ → Result ℕ
opcode_to_width opcode =
    let size = bit_and opcode inst_size_mask in
    if size == inst_size_b
    then ok 1
    else if size == inst_size_h
    then ok 2
    else if size == inst_size_w
    then ok 4
    else if size == inst_size_dw
    then ok 8
    else err Fault.assertion

unfoldable pub width_to_opcode : ℕ → Result ℕ
width_to_opcode width =
    if width == 1
    then ok inst_size_b
    else if width == 2
    then ok inst_size_h
    else if width == 4
    then ok inst_size_w
    else if width == 8
    then ok inst_size_dw
    else err Fault.assertion

-- The 64-bit immediate of two slots. The shifted half has no low bits, so `|` is `+`.
unfoldable pub merge : ℤ → ℤ → ℕ
merge imm next_imm = u64_of next_imm * 2 ^ 32 % 2 ^ 64 + u32_of imm

unfoldable pub split : ℕ → ℤ × ℤ
split v = (i32_of (v % 2 ^ 32), i32_of (v / 2 ^ 32 % 2 ^ 32))
