-- ===== src/Assertions/Erase.antt =====
-- What `explicate_assertions` of src/assertions.cpp leaves of a block: the same instructions with
-- assertions between them, and a block for every block that orders its map arguments.
use ebpf_verifier.Base.{
  Bool, ◌≡◌, refl, ap, ◌∙◌, Option, none, some, List, [], ◌∷◌, ◌++◌, All, arith,
}
use ebpf_verifier.Asm.{ArgSingle, ArgSingleKind, Assert, Instruction, Reg}
use ebpf_verifier.Outcome.{ok}
use ebpf_verifier.Assertions.{
  map_argument, single_asserts, next_map_fd, singles_asserts, pair_asserts, call_asserts, extract,
  assert_all, explicate_block,
}

-- The instructions of a block that are no assertions.
unfoldable pub drop_asserts : List Instruction → List Instruction
drop_asserts [] = []
drop_asserts (Instruction.assert a ∷ insts) = drop_asserts insts
drop_asserts (ins ∷ insts) = ins ∷ drop_asserts insts

-- `fd` is there for an argument that reads it.
abbrev pub Given : ArgSingleKind → Option Reg → Type 0
Given ArgSingleKind.ptr_to_map_key none = ⊥
Given ArgSingleKind.ptr_to_map_value none = ⊥
Given _ _ = Unit

-- Every map key or value argument has a map argument before it.
abbrev pub IsOrdered : Option Reg → List ArgSingle → Type 0
IsOrdered fd [] = Unit
IsOrdered fd (arg ∷ args) = Given (arg.kind) fd × IsOrdered (next_map_fd arg fd) args

abbrev pub IsExplicable : Instruction → Type 0
IsExplicable (Instruction.assert a) = ⊥
IsExplicable (Instruction.call c) = IsOrdered none c.singles
IsExplicable _ = Unit

single_asserts-total :
    (p : Bool) (kind : ArgSingleKind) (r : Reg) (fd : Option Reg)
    → Given kind fd
    → (list : List Assert) × single_asserts p (record { kind = kind; reg = r }) fd ≡ ok list
unfolding single_asserts map_argument
single_asserts-total p ArgSingleKind.anything r fd h = (_, refl)
single_asserts-total p ArgSingleKind.map_fd r fd h = (_, refl)
single_asserts-total p ArgSingleKind.ptr_to_ctx r fd h = (_, refl)
single_asserts-total p ArgSingleKind.ptr_to_map_key r none h = absurd h
single_asserts-total p ArgSingleKind.ptr_to_map_key r (some k) h = (_, refl)
single_asserts-total p ArgSingleKind.ptr_to_map_value r none h = absurd h
single_asserts-total p ArgSingleKind.ptr_to_map_value r (some k) h = (_, refl)

singles_asserts-total :
    (p : Bool) (fd : Option Reg) (args : List ArgSingle)
    → IsOrdered fd args
    → (list : List Assert) × singles_asserts p fd args ≡ ok list
unfolding singles_asserts
singles_asserts-total p fd [] h = (_, refl)
singles_asserts-total p fd (arg ∷ args) (g, h) =
    let (these, e) = single_asserts-total p arg.kind arg.reg fd g in
    let (rest, f) = singles_asserts-total p (next_map_fd arg fd) args h in
    (these ++ rest, grind (arith, e, f))

pub extract-total :
    (p : Bool) (ins : Instruction)
    → IsExplicable ins
    → (list : List Assert) × extract p ins ≡ ok list
unfolding extract call_asserts
extract-total p (Instruction.call c) h =
    let (list, e) = singles_asserts-total p none c.singles h in
    (list ++ pair_asserts c.pairs, grind (arith, e))
extract-total p (Instruction.assert a) h = absurd h
extract-total p (Instruction.undefined i) h = (_, refl)
extract-total p (Instruction.bin i) h = (_, refl)
extract-total p (Instruction.un i) h = (_, refl)
extract-total p (Instruction.load_map_fd i) h = (_, refl)
extract-total p Instruction.exit h = (_, refl)
extract-total p (Instruction.jmp i) h = (_, refl)
extract-total p (Instruction.mem i) h = (_, refl)
extract-total p (Instruction.packet i) h = (_, refl)
extract-total p (Instruction.lock_add i) h = (_, refl)
extract-total p (Instruction.assume i) h = (_, refl)

drop_asserts-assert_all :
    (list : List Assert) (insts : List Instruction)
    → drop_asserts (assert_all list ++ insts) ≡ drop_asserts insts
unfolding drop_asserts assert_all
drop_asserts-assert_all [] insts = refl
drop_asserts-assert_all (a ∷ list) insts = drop_asserts-assert_all list insts

drop_asserts-plain :
    (ins : Instruction) (insts : List Instruction)
    → IsExplicable ins
    → drop_asserts (ins ∷ insts) ≡ ins ∷ drop_asserts insts
unfolding drop_asserts
drop_asserts-plain (Instruction.assert a) insts h = absurd h
drop_asserts-plain _ insts h = refl

drop_nil : drop_asserts [] ≡ []
unfolding drop_asserts
drop_nil = refl

-- A block without assertions, in which every call has a map argument before each map key or value
-- argument, gets a block with assertions; without its assertions that block is the given one.
pub explicate_block-erase :
    (p : Bool) (insts : List Instruction)
    → All IsExplicable insts
    → (out : List Instruction) × explicate_block p insts ≡ ok out × drop_asserts out ≡ insts
unfolding explicate_block
explicate_block-erase p [] h = ([], refl, drop_nil)
explicate_block-erase p (ins ∷ insts) (g, h) =
    let (list, e) = extract-total p ins g in
    let (out, f, k) = explicate_block-erase p insts h in
    (
      assert_all list ++ ins ∷ out,
      grind (arith, e, f),
      drop_asserts-assert_all list (ins ∷ out) ∙ drop_asserts-plain ins out g ∙ ap (λ t. ins ∷ t) k,
    )
