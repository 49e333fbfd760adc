-- ===== src/RoundTrip/Jump.antt =====
-- Jumps, calls and the exit: `makeJmp` on what the visitor builds.
use native.Mathlib.Nat.{mod-eq_of_lt}
use ebpf_verifier.Base.{ℕ, ◌^◌, ◌<◌, ◌≡◌, ◌≢◌, refl, Option, none, some, List, arith}
use ebpf_verifier.Base.Int.{◌+ℤ◌, ◌-ℤ◌}
use ebpf_verifier.Base.Word.{u16_of, i16_of, u32_of-i32_of}
use ebpf_verifier.Asm.{Value, Label, label_t, ConditionOp, Condition, Jmp, Call, Instruction}
use ebpf_verifier.Outcome.{ok, Noted}
use ebpf_verifier.Helpers.{Prototypes}
use ebpf_verifier.Ebpf.{EbpfInst}
use ebpf_verifier.Unmarshal.Jump.{jump_pc, check_target, make_jmp, make_call, get_jmp_cond}
use ebpf_verifier.Unmarshal.Loop.{decode, is_lddw}
use ebpf_verifier.Marshal.{marshal_one, label_to_offset}
use ebpf_verifier.RoundTrip.Encodable.{IsOperand, IsCondition, IsTarget}
use ebpf_verifier.RoundTrip.Slots.{HasCode, one}

-- From every slot below 2^16, the 16-bit offset of a jump to a label below 2^16 leads back to the
-- label, wrapping around where it has to.
pub jump_pc-label_to_offset :
    (pc : ℕ) (l : Label)
    → pc < 2 ^ 16
    → l.from < 2 ^ 16
    → jump_pc pc (label_to_offset pc l) ≡ l.from
unfolding jump_pc label_to_offset u16_of i16_of ◌+ℤ◌ ◌-ℤ◌
jump_pc-label_to_offset pc l hp hl = ground arith

-- The checks of a target only leave notes.
check_target-result :
    (insts : List EbpfInst) (n : ℕ) (rest : Noted Instruction)
    → (check_target insts n rest).result ≡ rest.result
unfolding check_target
check_target-result insts n rest = ground arith

abbrev condition : ConditionOp → ℕ → Value → Condition
condition op left right = record { op = op; left = record { v = left }; right = right }

module _ (protos : Prototypes) (pc : ℕ) where
  pub exit-HasCode : HasCode protos pc Instruction.exit
  unfolding marshal_one decode is_lddw make_jmp
  exit-HasCode = (_, refl, one _ refl λ insts. refl)

  pub call-HasCode :
      (c : Call) → make_call protos c.func ≡ ok c → HasCode protos pc (Instruction.call c)
  unfolding marshal_one decode is_lddw make_jmp
  call-HasCode c h = (_, refl, one _ refl λ insts. rw h)

  module _ (target : Label) (short : pc < 2 ^ 16) (ht : IsTarget target) where
    target_back : label_t (jump_pc pc (label_to_offset pc target)) ≡ target
    target_back = ground (arith, jump_pc-label_to_offset pc target short ht.0)

    goto-HasCode : HasCode protos pc (Instruction.jmp (record { cond = none; target = target }))
    unfolding marshal_one decode is_lddw make_jmp get_jmp_cond
    goto-HasCode =
        (_, refl, one _ refl λ insts. rw (check_target-result, mod-eq_of_lt short, target_back))

    Branches : ConditionOp → ℕ → Value → Type 0
    Branches op left right =
        HasCode protos pc
          (Instruction.jmp (record { cond = some (condition op left right); target = target }))

    branch-HasCode :
        (op : ConditionOp) (left : ℕ) (right : Value)
        → op ≢ ConditionOp.nset
        → left < 16
        → IsOperand right
        → Branches op left right
    unfolding Branches marshal_one decode is_lddw make_jmp get_jmp_cond
    branch-HasCode ConditionOp.nset left right h hl hr = absurd (h refl)
    branch-HasCode ConditionOp.eq left (Value.reg r) h hl hr = (
      _,
      refl,
      one _ refl λ insts.
          rw (
            check_target-result,
            mod-eq_of_lt short,
            target_back,
            mod-eq_of_lt hl,
            mod-eq_of_lt hr,
          ),
    )
    branch-HasCode ConditionOp.eq left (Value.imm i) h hl hr = (
      _,
      refl,
      one _ refl λ insts. rw (
        check_target-result,
        mod-eq_of_lt short,
        target_back,
        mod-eq_of_lt hl,
        u32_of-i32_of i.v hr,
      ),
    )
    branch-HasCode _ left (Value.reg r) h hl hr = (
      _,
      refl,
      one _ refl λ insts.
          rw (
            check_target-result,
            mod-eq_of_lt short,
            target_back,
            mod-eq_of_lt hl,
            mod-eq_of_lt hr,
          ),
    )
    branch-HasCode _ left (Value.imm i) h hl hr = (
      _,
      refl,
      one _ refl λ insts. rw (
        check_target-result,
        mod-eq_of_lt short,
        target_back,
        mod-eq_of_lt hl,
        u32_of-i32_of i.v hr,
      ),
    )

  pub jmp-HasCode :
      (j : Jmp)
      → pc < 2 ^ 16
      → IsCondition j.cond
      → IsTarget j.target
      → HasCode protos pc (Instruction.jmp j)
  unfolding Branches
  jmp-HasCode j short hc ht = go j.cond hc
    where
      go :
          (cond : Option Condition)
          → IsCondition cond
          → HasCode protos pc (Instruction.jmp (record j { cond = cond }))
      go none h = goto-HasCode j.target short ht
      go (some c) h = branch-HasCode j.target short ht c.op c.left.v c.right h.0 h.1 h.2
