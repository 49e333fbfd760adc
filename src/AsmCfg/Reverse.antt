-- ===== src/AsmCfg/Reverse.antt =====
-- The inverse of a comparison, `reverse` of src/asm_cfg.cpp, against what the comparisons mean on
-- 64-bit registers.
use ebpf_verifier.Base.{ℕ, Bool, not, ltb, leb, ◌==◌, ◌≡◌, refl, bit_and, arith, ◌^◌}
use ebpf_verifier.Base.Int.{ℤ, ltb_ℤ, leb_ℤ}
use ebpf_verifier.Base.Word.{to_signed}
use ebpf_verifier.Asm.{ConditionOp}
use ebpf_verifier.AsmCfg.{reverse_op}

-- A comparison of two 64-bit words; the signed ones read them in two's complement.
abbrev pub holds : ConditionOp → ℕ → ℕ → Bool
holds ConditionOp.eq a b = a == b
holds ConditionOp.ne a b = not (a == b)
holds ConditionOp.set a b = not (bit_and a b == 0)
holds ConditionOp.nset a b = bit_and a b == 0
holds ConditionOp.lt a b = ltb a b
holds ConditionOp.le a b = leb a b
holds ConditionOp.gt a b = ltb b a
holds ConditionOp.ge a b = leb b a
holds ConditionOp.slt a b = ltb_ℤ (to_signed (2 ^ 63) a) (to_signed (2 ^ 63) b)
holds ConditionOp.sle a b = leb_ℤ (to_signed (2 ^ 63) a) (to_signed (2 ^ 63) b)
holds ConditionOp.sgt a b = ltb_ℤ (to_signed (2 ^ 63) b) (to_signed (2 ^ 63) a)
holds ConditionOp.sge a b = leb_ℤ (to_signed (2 ^ 63) b) (to_signed (2 ^ 63) a)

not-not : (b : Bool) → b ≡ not (not b)
not-not b = ground arith

leb-ltb : (a b : ℕ) → leb a b ≡ not (ltb b a)
leb-ltb a b = ground arith

leb_ℤ-ltb_ℤ : (a b : ℤ) → leb_ℤ a b ≡ not (ltb_ℤ b a)
leb_ℤ-ltb_ℤ a b = ground arith

ltb-leb : (a b : ℕ) → ltb a b ≡ not (leb b a)
ltb-leb a b = ground arith

ltb_ℤ-leb_ℤ : (a b : ℤ) → ltb_ℤ a b ≡ not (leb_ℤ b a)
ltb_ℤ-leb_ℤ a b = ground arith

-- The inverse of a comparison holds of two 64-bit words exactly where the comparison does not.
pub holds-reverse_op : (op : ConditionOp) (a b : ℕ) → holds (reverse_op op) a b ≡ not (holds op a b)
unfolding reverse_op
holds-reverse_op ConditionOp.eq a b = refl
holds-reverse_op ConditionOp.ne a b = not-not (a == b)
holds-reverse_op ConditionOp.set a b = not-not (bit_and a b == 0)
holds-reverse_op ConditionOp.nset a b = refl
holds-reverse_op ConditionOp.lt a b = leb-ltb b a
holds-reverse_op ConditionOp.le a b = ltb-leb b a
holds-reverse_op ConditionOp.gt a b = leb-ltb a b
holds-reverse_op ConditionOp.ge a b = ltb-leb a b
holds-reverse_op ConditionOp.slt a b = leb_ℤ-ltb_ℤ (to_signed (2 ^ 63) b) (to_signed (2 ^ 63) a)
holds-reverse_op ConditionOp.sle a b = ltb_ℤ-leb_ℤ (to_signed (2 ^ 63) b) (to_signed (2 ^ 63) a)
holds-reverse_op ConditionOp.sgt a b = leb_ℤ-ltb_ℤ (to_signed (2 ^ 63) a) (to_signed (2 ^ 63) b)
holds-reverse_op ConditionOp.sge a b = ltb_ℤ-leb_ℤ (to_signed (2 ^ 63) a) (to_signed (2 ^ 63) b)
