-- ===== src/Bitset.antt =====
-- The bytes of the stack that may hold something else than a number: `bitset_domain_t` of
-- src/crab/bitset_domain.hpp. A `std::bitset<STACK_SIZE>` is the list of its bits. An operation that
-- throws leaves the bits that it has changed before.
pub mod Sets
pub mod Ranges
use ebpf_verifier.Base.{
  ℕ, zero, suc, ◌+◌, ◌%◌, ◌^◌, List, [], ◌∷◌, Bool, true, false, not, ◌&&◌, ◌||◌, xor, ltb,
  if◌then◌else◌,
}
use ebpf_verifier.Base.Int.{ℤ, pos, pos_part}
use ebpf_verifier.Outcome.{Result, ok, err, Fault, ◌>>=◌}

abbrev pub stack_size : ℕ
stack_size = 512

abbrev pub Bits : Type 0
Bits = List Bool

-- `n` equal bits.
unfoldable pub fill : ℕ → Bool → Bits
fill zero b = []
fill (suc n) b = b ∷ fill n b

unfoldable pub set_to_top : Bits
unfolding fill
set_to_top = fill stack_size true

unfoldable pub set_to_bottom : Bits
unfolding fill
set_to_bottom = fill stack_size false

unfoldable pub is_top : Bits → Bool
is_top [] = true
is_top (b ∷ r) = b && is_top r

-- `operator|`, `operator&` and `==` of `std::bitset`.
unfoldable pub bits_or : Bits → Bits → Bits
bits_or [] _ = []
bits_or (a ∷ r) [] = []
bits_or (a ∷ r) (b ∷ s) = (a || b) ∷ bits_or r s

unfoldable pub bits_and : Bits → Bits → Bits
bits_and [] _ = []
bits_and (a ∷ r) [] = []
bits_and (a ∷ r) (b ∷ s) = (a && b) ∷ bits_and r s

unfoldable pub bits_eq : Bits → Bits → Bool
bits_eq [] [] = true
bits_eq (a ∷ r) (b ∷ s) = not (xor a b) && bits_eq r s
bits_eq _ _ = false

unfoldable pub le : Bits → Bits → Bool
unfolding bits_or bits_eq
le a b = bits_eq (bits_or a b) b

unfoldable pub join : Bits → Bits → Bits
unfolding bits_or
join a b = bits_or a b

unfoldable pub meet : Bits → Bits → Bits
unfolding bits_and
meet a b = bits_and a b

unfoldable pub widen : Bits → Bits → Bits
unfolding bits_or
widen a b = bits_or a b

unfoldable pub narrow : Bits → Bits → Bits
unfolding bits_and
narrow a b = bits_and a b

-- `operator[]`, which has no check of its own, and `set` and `reset` of one bit, which throw.
unfoldable pub test : Bits → ℕ → Result Bool
test [] i = err Fault.out_of_range
test (b ∷ r) zero = ok b
test (b ∷ r) (suc i) = test r i

unfoldable pub write : Bool → Bits → ℕ → Result Bits
write v [] i = err Fault.out_of_range
write v (b ∷ r) zero = ok (v ∷ r)
write v (b ∷ r) (suc i) = write v r i >>= λ s. ok (b ∷ s)

-- `lb + j` of a `size_t` and an `int` that is not negative.
abbrev pub position : ℕ → ℕ → ℕ
position lb j = (lb + j) % 2 ^ 64

-- The loop of `uniformity`, from round `j` on, with `n` rounds left.
unfoldable pub uniformity_loop : Bits → ℕ → ℕ → ℕ → Bool → Bool → Result (Bool × Bool)
unfolding test
uniformity_loop bits lb j zero only_num only_non_num = ok (only_num, only_non_num)
uniformity_loop bits lb j (suc n) only_num only_non_num = test bits (position lb j) >>= λ b.
    uniformity_loop bits lb (suc j) n (only_num && not b) (only_non_num && b)

unfoldable pub uniformity : Bits → ℕ → ℤ → Result (Bool × Bool)
unfolding uniformity_loop
uniformity bits lb width = uniformity_loop bits lb 0 (pos_part width) true true

-- The loops of `reset` and `havoc`: the bits at the end, and whether it throws.
unfoldable pub write_loop : Bool → ℕ → ℕ → ℕ → Bits → Bits × Result (Unit {0})
unfolding write
write_loop v lb j zero bits = (bits, ok tt)
write_loop v lb j (suc n) bits = elim (write v bits (position lb j)) [
  | ok bits' ↦ write_loop v lb (suc j) n bits'
  | err e ↦ (bits, err e)
]

unfoldable pub reset : Bits → ℕ → ℤ → Bits × Result (Unit {0})
unfolding write_loop
reset bits lb n = write_loop false lb 0 (pos_part n) bits

unfoldable pub havoc : Bits → ℕ → ℤ → Bits × Result (Unit {0})
unfolding write_loop
havoc bits lb width = write_loop true lb 0 (pos_part width) bits
