-- ===== src/Assertions/Calls.antt =====
-- The calls that `makeCall` of src/asm_unmarshal.cpp makes from the table of
-- src/gpl/spec_prototypes.cpp have all that `AssertExtractor` of src/assertions.cpp needs.
use ebpf_verifier.Base.{
  ℕ, zero, suc, Bool, true, false, false≢true, ◌&&◌, ◌≡◌, refl, Option, none, some, List, [], ◌∷◌,
  get_elem?, arith,
}
use ebpf_verifier.Base.Int.{ℤ}
use ebpf_verifier.Base.Word.{u32_of}
use ebpf_verifier.Asm.{ArgSingle, ArgSingleKind, Call, Reg}
use ebpf_verifier.Outcome.{Result, ok, err}
use ebpf_verifier.Helpers.{FuncProto}
use ebpf_verifier.Helpers.Lower.{unspec_proto}
use ebpf_verifier.Helpers.Table.{prototypes, get_prototype, kernel_prototypes}
use ebpf_verifier.Unmarshal.Jump.{make_call, call_of_proto}
use ebpf_verifier.Assertions.{next_map_fd}
use ebpf_verifier.Assertions.Erase.{Given, IsOrdered}

-- The order of the arguments, as a test.
given : ArgSingleKind → Option Reg → Bool
given ArgSingleKind.ptr_to_map_key none = false
given ArgSingleKind.ptr_to_map_value none = false
given _ _ = true

unfoldable ordered : Option Reg → List ArgSingle → Bool
unfolding given
ordered fd [] = true
ordered fd (arg ∷ args) = given arg.kind fd && ordered (next_map_fd arg fd) args

unfoldable call_ordered : Result Call → Bool
unfolding ordered
call_ordered (ok c) = ordered none c.singles
call_ordered (err e) = false

unfoldable all_ordered : ℤ → List FuncProto → Bool
all_ordered z [] = true
all_ordered z (p ∷ table) = call_ordered (call_of_proto z p) && all_ordered z table

all_ordered-prototypes : (z : ℤ) → all_ordered z prototypes ≡ true
unfolding all_ordered call_ordered call_of_proto prototypes next_map_fd
all_ordered-prototypes z = refl

get_elem?-ordered :
    (z : ℤ) (table : List FuncProto) (n : ℕ)
    → all_ordered z table ≡ true
    → call_ordered (call_of_proto z unspec_proto) ≡ true
    → call_ordered (call_of_proto z (elim (get_elem? table n) [ none ↦ unspec_proto | some p ↦ p ]))
      ≡ true
unfolding all_ordered
get_elem?-ordered z [] n h u = u
get_elem?-ordered z (p ∷ table) zero h u = ground (arith, h)
get_elem?-ordered z (p ∷ table) (suc n) h u = get_elem?-ordered z table n (ground (arith, h)) u

unspec_ordered : (z : ℤ) → call_ordered (call_of_proto z unspec_proto) ≡ true
unfolding call_ordered call_of_proto
unspec_ordered z = refl

given-Given : (kind : ArgSingleKind) (fd : Option Reg) → given kind fd ≡ true → Given kind fd
unfolding given
given-Given ArgSingleKind.map_fd fd h = tt
given-Given ArgSingleKind.ptr_to_map_key none h = absurd (false≢true h)
given-Given ArgSingleKind.ptr_to_map_key (some r) h = tt
given-Given ArgSingleKind.ptr_to_map_value none h = absurd (false≢true h)
given-Given ArgSingleKind.ptr_to_map_value (some r) h = tt
given-Given ArgSingleKind.ptr_to_ctx fd h = tt
given-Given ArgSingleKind.anything fd h = tt

ordered-IsOrdered :
    (fd : Option Reg) (args : List ArgSingle) → ordered fd args ≡ true → IsOrdered fd args
unfolding ordered next_map_fd
ordered-IsOrdered fd [] h = tt
ordered-IsOrdered fd (arg ∷ args) h = (
  given-Given arg.kind fd (ground (arith, h)),
  ordered-IsOrdered (next_map_fd arg fd) args (ground (arith, h)),
)

-- For every number in a call instruction, `makeCall` makes a call from the table of helper
-- functions without a failed assertion, and in that call every map key or value argument has a map
-- argument before it, so that the assertions of the call never read an absent register.
pub make_call-IsOrdered :
    (imm : ℤ) → (c : Call) × make_call kernel_prototypes imm ≡ ok c × IsOrdered none c.singles
unfolding make_call get_prototype call_ordered
make_call-IsOrdered imm = from_test (call_of_proto imm (get_prototype (u32_of imm))) (
    get_elem?-ordered imm prototypes (u32_of imm) (all_ordered-prototypes imm) (unspec_ordered imm))
  where
    from_test :
        (r : Result Call) → call_ordered r ≡ true → (c : Call) × r ≡ ok c × IsOrdered none c.singles
    from_test (ok c) h = (c, refl, ordered-IsOrdered none c.singles h)
    from_test (err e) h = absurd (false≢true h)
