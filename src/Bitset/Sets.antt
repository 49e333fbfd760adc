-- ===== src/Bitset/Sets.antt =====
-- `bitset_domain_t` of src/crab/bitset_domain.hpp stands for a set of bytes of the stack.
use ebpf_verifier.Base.{
  ℕ, zero, suc, ◌<◌, [], ◌∷◌, ◌≡◌, ◌↔◌, refl, ap, Bool, true, false, not, ◌&&◌, ◌||◌, xor, length,
  arith,
}
use ebpf_verifier.Bitset.{
  Bits, stack_size, fill, set_to_top, set_to_bottom, is_top, bits_or, bits_and, bits_eq, le, join,
  meet, widen, narrow,
}

-- Whether byte `i` is in the set; no byte past the stack is.
unfoldable pub contains : Bits → ℕ → Bool
contains [] i = false
contains (b ∷ r) zero = b
contains (b ∷ r) (suc i) = contains r i

abbrev pub IsWf : Bits → Type 0
IsWf bits = length bits ≡ stack_size

contains-bits_or :
    (a b : Bits) (i : ℕ)
    → length a ≡ length b
    → contains (bits_or a b) i ≡ (contains a i || contains b i)
unfolding contains bits_or
contains-bits_or [] [] i h = refl
contains-bits_or [] (_ ∷ _) i h = absurd (omega arith)
contains-bits_or (_ ∷ _) [] i h = absurd (omega arith)
contains-bits_or (a ∷ r) (b ∷ s) zero h = refl
contains-bits_or (a ∷ r) (b ∷ s) (suc i) h = contains-bits_or r s i (omega arith)

contains-bits_and :
    (a b : Bits) (i : ℕ)
    → length a ≡ length b
    → contains (bits_and a b) i ≡ (contains a i && contains b i)
unfolding contains bits_and
contains-bits_and [] [] i h = refl
contains-bits_and [] (_ ∷ _) i h = absurd (omega arith)
contains-bits_and (_ ∷ _) [] i h = absurd (omega arith)
contains-bits_and (a ∷ r) (b ∷ s) zero h = refl
contains-bits_and (a ∷ r) (b ∷ s) (suc i) h = contains-bits_and r s i (omega arith)

contains-fill : (n : ℕ) (b : Bool) (i : ℕ) → i < n → contains (fill n b) i ≡ b
unfolding contains fill
contains-fill zero b i h = absurd (omega arith)
contains-fill (suc n) b zero h = refl
contains-fill (suc n) b (suc i) h = contains-fill n b i (omega arith)

and_right : (a : Bool) {b : Bool} → (a && b) ≡ true → b ≡ true
and_right a h = ground arith

-- Inclusion, read off the bits.
abbrev pub Includes : Bits → Bits → Type 0
Includes a b = (i : ℕ) → contains a i ≡ true → contains b i ≡ true

le_forward : (a b : Bits) → length a ≡ length b → le a b ≡ true → Includes a b
unfolding le bits_or bits_eq contains
le_forward [] [] h e i = cc
le_forward [] (_ ∷ _) h e i = absurd (omega arith)
le_forward (_ ∷ _) [] h e i = absurd (omega arith)
le_forward (a ∷ r) (b ∷ s) h e zero = λ p. ground arith
le_forward (a ∷ r) (b ∷ s) h e (suc i) =
    le_forward r s (omega arith) (and_right (not (xor (a || b) b)) e) i

le_backward : (a b : Bits) → length a ≡ length b → Includes a b → le a b ≡ true
unfolding le bits_or bits_eq contains
le_backward [] [] h p = refl
le_backward [] (_ ∷ _) h p = absurd (omega arith)
le_backward (_ ∷ _) [] h p = absurd (omega arith)
le_backward (a ∷ r) (b ∷ s) h p =
    ground (arith, p 0, le_backward r s (omega arith) (λ i. p (suc i)))

abbrev pub Same : Bits → Bits → Type 0
Same a b = (i : ℕ) → contains a i ≡ contains b i

eq_forward : (a b : Bits) → bits_eq a b ≡ true → a ≡ b
unfolding bits_eq
eq_forward [] [] h = refl
eq_forward [] (_ ∷ _) h = cc
eq_forward (_ ∷ _) [] h = cc
eq_forward (a ∷ r) (b ∷ s) h = ground (arith, eq_forward r s)

eq_backward : (a b : Bits) → length a ≡ length b → Same a b → bits_eq a b ≡ true
unfolding bits_eq contains
eq_backward [] [] h p = refl
eq_backward [] (_ ∷ _) h p = absurd (omega arith)
eq_backward (_ ∷ _) [] h p = absurd (omega arith)
eq_backward (a ∷ r) (b ∷ s) h p =
    ground (arith, p 0, eq_backward r s (omega arith) (λ i. p (suc i)))

abbrev pub Full : Bits → Type 0
Full bits = (i : ℕ) → i < length bits → contains bits i ≡ true

top_forward : (a : Bits) → is_top a ≡ true → Full a
unfolding is_top contains
top_forward [] h i p = absurd (omega arith)
top_forward (a ∷ r) h zero p = ground arith
top_forward (a ∷ r) h (suc i) p = top_forward r (and_right a h) i (omega arith)

top_backward : (a : Bits) → Full a → is_top a ≡ true
unfolding is_top contains
top_backward [] p = refl
top_backward (a ∷ r) p =
    ground (arith, p 0 (omega arith), top_backward r (λ i h. p (suc i) (omega arith)))

contains-fill-false : (n i : ℕ) → contains (fill n false) i ≡ false
unfolding contains fill
contains-fill-false zero i = refl
contains-fill-false (suc n) zero = refl
contains-fill-false (suc n) (suc i) = contains-fill-false n i

-- The operations of the bitset domain on the bits of a whole stack refine those on sets of bytes:
-- join and widening are the union, meet and narrowing the intersection, top has every byte and
-- bottom none, and `<=`, `==` and `is_top` decide inclusion, equality and whether every byte is in
-- the set.
pub lattice-refines_sets :
    (a b : Bits)
    → IsWf a
    → IsWf b
    → ((i : ℕ) → contains (join a b) i ≡ (contains a i || contains b i))
      × ((i : ℕ) → contains (meet a b) i ≡ (contains a i && contains b i))
      × ((i : ℕ) → contains (widen a b) i ≡ (contains a i || contains b i))
      × ((i : ℕ) → contains (narrow a b) i ≡ (contains a i && contains b i))
      × ((i : ℕ) → i < stack_size → contains set_to_top i ≡ true)
      × ((i : ℕ) → contains set_to_bottom i ≡ false)
      × ((le a b ≡ true) ↔ Includes a b)
      × ((bits_eq a b ≡ true) ↔ Same a b)
      × ((is_top a ≡ true) ↔ Full a)
unfolding join meet widen narrow set_to_top set_to_bottom
lattice-refines_sets a b h k =
    let l : length a ≡ length b = omega arith in
    (
      λ i. contains-bits_or a b i l,
      λ i. contains-bits_and a b i l,
      λ i. contains-bits_or a b i l,
      λ i. contains-bits_and a b i l,
      λ i. contains-fill stack_size true i,
      λ i. contains-fill-false stack_size i,
      (le_forward a b l, le_backward a b l),
      (λ e i. ap (λ t. contains t i) (eq_forward a b e), eq_backward a b l),
      (top_forward a, top_backward a),
    )
