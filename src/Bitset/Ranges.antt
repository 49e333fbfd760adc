-- ===== src/Bitset/Ranges.antt =====
-- What `uniformity`, `reset` and `havoc` of src/crab/bitset_domain.hpp do on a range of bytes, in
-- and past the end of the stack.
use ebpf_verifier.Base.{
  ℕ, zero, suc, ◌+◌, ◌<◌, ◌≤◌, [], ◌∷◌, ◌≡◌, ◌↔◌, inl, inr, refl, ap, ◌∙◌, Bool, true, false, not,
  xor, ◌&&◌, ltb, leb, length, arith, if◌then◌else◌, Bool-cases,
}
use ebpf_verifier.Base.Int.{ℤ, pos_part}
use ebpf_verifier.Outcome.{ok, err, Fault}
use ebpf_verifier.Bitset.{
  Bits, stack_size, test, write, position, uniformity_loop, uniformity, write_loop, reset, havoc,
}
use ebpf_verifier.Bitset.Sets.{contains, IsWf}

-- One bit.
test_lem : (bits : Bits) (i : ℕ) → i < length bits → test bits i ≡ ok (contains bits i)
unfolding test contains
test_lem [] i h = absurd (omega arith)
test_lem (b ∷ r) zero h = refl
test_lem (b ∷ r) (suc i) h = test_lem r i (omega arith)

-- The bits after a write inside, as a list and as a set.
put : Bool → Bits → ℕ → Bits
put v [] i = []
put v (b ∷ r) zero = v ∷ r
put v (b ∷ r) (suc i) = b ∷ put v r i

length-put : (v : Bool) (bits : Bits) (i : ℕ) → length (put v bits i) ≡ length bits
unfolding put
length-put v [] i = refl
length-put v (b ∷ r) zero = refl
length-put v (b ∷ r) (suc i) = ap suc (length-put v r i)

contains-put :
    (v : Bool) (bits : Bits) (i j : ℕ)
    → i < length bits
    → contains (put v bits i) j ≡ (if leb i j && leb j i then v else contains bits j)
unfolding put contains
contains-put v [] i j h = absurd (omega arith)
contains-put v (b ∷ r) zero zero h = refl
contains-put v (b ∷ r) zero (suc j) h = ground arith
contains-put v (b ∷ r) (suc i) zero h = ground arith
contains-put v (b ∷ r) (suc i) (suc j) h = ground (arith, contains-put v r i j (omega arith))

write_inside :
    (v : Bool) (bits : Bits) (i : ℕ) → i < length bits → write v bits i ≡ ok (put v bits i)
unfolding write put
write_inside v [] i h = absurd (omega arith)
write_inside v (b ∷ r) zero h = refl
write_inside v (b ∷ r) (suc i) h = rw (write_inside v r i (omega arith)) refl

write_outside :
    (v : Bool) (bits : Bits) (i : ℕ) → length bits ≤ i → write v bits i ≡ err Fault.out_of_range
unfolding write
write_outside v [] i h = refl
write_outside v (b ∷ r) zero h = absurd (omega arith)
write_outside v (b ∷ r) (suc i) h = rw (write_outside v r i (omega arith)) refl

position_small : (lb j : ℕ) → lb + j ≤ stack_size → position lb j ≡ lb + j
position_small lb j h = omega arith

module _ (v : Bool) (lb j n : ℕ) (bits : Bits) (p : lb + j ≤ stack_size) where
  round_inside :
      lb + j < length bits
      → write_loop v lb j (suc n) bits ≡ write_loop v lb (suc j) n (put v bits (lb + j))
  unfolding write_loop
  round_inside h = cc (ap (write v bits) (position_small lb j p), write_inside v bits (lb + j) h)

  round_outside :
      length bits ≤ lb + j → write_loop v lb j (suc n) bits ≡ (bits, err Fault.out_of_range)
  unfolding write_loop
  round_outside h = cc (ap (write v bits) (position_small lb j p), write_outside v bits (lb + j) h)

-- A loop that starts in the stack writes the bytes of its range that are in the stack, no others,
-- and throws exactly when the range ends past it.
write_loop_lem :
    (v : Bool) (lb j n : ℕ) (bits : Bits)
    → IsWf bits
    → lb + j ≤ stack_size
    → IsWf (write_loop v lb j n bits).0
      × ((i : ℕ)
          → contains (write_loop v lb j n bits).0 i ≡ (
              if leb (lb + j) i && ltb i (lb + j + n) && ltb i stack_size
              then v
              else contains bits i))
      × ((write_loop v lb j n bits).1
          ≡ (if leb (lb + j + n) stack_size then ok tt else err Fault.out_of_range))
unfolding write_loop
write_loop_lem v lb j zero bits h p = (h, (λ i. ground arith), ground arith)
write_loop_lem v lb j (suc n) bits h p = elim (Bool-cases (ltb (lb + j) stack_size)) [
  | inl e ↦
      let b : lb + j < length bits = ground arith in
      let (w, c, f) =
        write_loop_lem v lb (suc j) n (put v bits (lb + j)) (length-put v bits (lb + j) ∙ h)
          (ground arith) in
      rw (round_inside v lb j n bits p b)
        (w, (λ i. ground (arith, c i, contains-put v bits (lb + j) i b)), ground arith)
  | inr e ↦ rw (round_outside v lb j n bits p (ground arith)) (h, (λ i. ground arith), ground arith)
]

-- For a range that starts in the stack or at its end, `reset` clears and `havoc` sets exactly the
-- bytes of the range that are in the stack, and both throw exactly when the range ends past the
-- stack; a width that is not positive is an empty range.
pub reset-havoc_ranges :
    (bits : Bits) (lb : ℕ) (width : ℤ)
    → IsWf bits
    → lb ≤ stack_size
    → let stop = lb + pos_part width in
      let outcome = if leb stop stack_size then ok (tt {0}) else err Fault.out_of_range in
      let within = λ (i : ℕ). leb lb i && ltb i stop && ltb i stack_size in
      IsWf (reset bits lb width).0
      × IsWf (havoc bits lb width).0
      × ((i : ℕ)
          → contains (reset bits lb width).0 i ≡ (if within i then false else contains bits i))
      × ((i : ℕ)
          → contains (havoc bits lb width).0 i ≡ (if within i then true else contains bits i))
      × ((reset bits lb width).1 ≡ outcome)
      × ((havoc bits lb width).1 ≡ outcome)
unfolding reset havoc
reset-havoc_ranges bits lb width h p =
    let (w, c, f) = write_loop_lem false lb 0 (pos_part width) bits h (omega arith) in
    let (w', c', f') = write_loop_lem true lb 0 (pos_part width) bits h (omega arith) in
    let z : lb + 0 ≡ lb = omega arith in (w, w', rw z at c, rw z at c', rw z at f, rw z at f')

-- Whether every byte of a range is as `v` says.
every : Bool → Bits → ℕ → ℕ → Bool
every v bits lb zero = true
every v bits lb (suc n) = not (xor (contains bits lb) v) && every v bits (suc lb) n

every_forward :
    (v : Bool) (bits : Bits) (lb n : ℕ)
    → every v bits lb n ≡ true
    → (i : ℕ) → lb ≤ i
    → i < lb + n
    → contains bits i ≡ v
unfolding every
every_forward v bits lb zero h i p q = absurd (omega arith)
every_forward v bits lb (suc n) h i p q = elim (Bool-cases (ltb lb i)) [
  | inl e ↦ every_forward v bits (suc lb) n (ground arith) i (ground arith) (omega arith)
  | inr e ↦ let z : i ≡ lb = ground arith in rw z (ground arith)
]

every_backward :
    (v : Bool) (bits : Bits) (lb n : ℕ)
    → ((i : ℕ) → lb ≤ i → i < lb + n → contains bits i ≡ v)
    → every v bits lb n ≡ true
unfolding every
every_backward v bits lb zero h = refl
every_backward v bits lb (suc n) h = ground (
  arith,
  h lb (omega arith) (omega arith),
  every_backward v bits (suc lb) n (λ i p q. h i (omega arith) (omega arith)),
)

read_round :
    (bits : Bits) (lb j n : ℕ) (a b : Bool)
    → IsWf bits
    → lb + j < stack_size
    → uniformity_loop bits lb j (suc n) a b
      ≡ uniformity_loop bits lb
          (suc j)
          n
          (a && not (contains bits (lb + j)))
          (b && contains bits (lb + j))
unfolding uniformity_loop
read_round bits lb j n a b h p =
    cc (ap (test bits) (position_small lb j (omega arith)), test_lem bits (lb + j) (omega arith))

true_right : (a : Bool) → a ≡ (a && true)
true_right a = ground arith

flag_false : (a c r : Bool) → ((a && not c) && r) ≡ (a && (not (xor c false) && r))
flag_false a c r = ground arith

flag_true : (a c r : Bool) → ((a && c) && r) ≡ (a && (not (xor c true) && r))
flag_true a c r = ground arith

next : (lb j : ℕ) → lb + suc j ≡ suc (lb + j)
next lb j = omega arith

-- The flags are kept as long as every byte that is read agrees.
uniformity_loop_lem :
    (bits : Bits) (lb j n : ℕ) (a b : Bool)
    → IsWf bits
    → lb + j + n ≤ stack_size
    → uniformity_loop bits lb j n a b
      ≡ ok (a && every false bits (lb + j) n, b && every true bits (lb + j) n)
unfolding every uniformity_loop
uniformity_loop_lem bits lb j zero a b h p = λ i. ok (true_right a i, true_right b i)
uniformity_loop_lem bits lb j (suc n) a b h p =
    read_round bits lb j n a b h (omega arith)
    ∙ uniformity_loop_lem bits lb (suc j) n _ _ h (omega arith)
    ∙ (λ i. ok (
      flag_false a (contains bits (lb + j)) (every false bits (lb + suc j) n) i,
      flag_true b (contains bits (lb + j)) (every true bits (lb + suc j) n) i,
    ))
    ∙ ap
        (λ k. ok (
          a && (not (xor (contains bits (lb + j)) false) && every false bits k n),
          b && (not (xor (contains bits (lb + j)) true) && every true bits k n),
        ))
        (next lb j)

-- On a range in the stack `uniformity` is defined, and tells whether every byte of the range is
-- outside the set, and whether every byte is in it.
pub uniformity_lem :
    (bits : Bits) (lb : ℕ) (width : ℤ)
    → IsWf bits
    → lb + pos_part width ≤ stack_size
    → (only_num only_non_num : Bool) × (uniformity bits lb width ≡ ok (only_num, only_non_num))
      × ((only_num ≡ true) ↔ ((i : ℕ) → lb ≤ i → i < lb + pos_part width → contains bits i ≡ false))
      × ((only_non_num ≡ true)
          ↔ ((i : ℕ) → lb ≤ i → i < lb + pos_part width → contains bits i ≡ true))
unfolding uniformity
uniformity_lem bits lb width h p =
    let z : lb + 0 ≡ lb = omega arith in
    (
      every false bits lb (pos_part width),
      every true bits lb (pos_part width),
      rw z at (uniformity_loop_lem bits lb 0 (pos_part width) true true h (omega arith)),
      (every_forward false bits lb _, every_backward false bits lb _),
      (every_forward true bits lb _, every_backward true bits lb _),
    )
