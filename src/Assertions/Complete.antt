-- ===== src/Assertions/Complete.antt =====
-- What the assertions of `AssertExtractor` of src/assertions.cpp cover: the memory that an
-- instruction or a helper function reads or writes.
use ebpf_verifier.Base.{
  Bool, true, false, ◌≡◌, refl, ap, subst, ◌⊎◌, inl, inr, Option, none, some, List, [], ◌∷◌, ◌++◌,
  All, ◌==◌, if◌then◌else◌,
}
use ebpf_verifier.Base.Int.{pos}
use ebpf_verifier.Asm.{
  ArgPair, ArgPairKind, ArgSingle, ArgSingleKind, Assert, AssertionConstraint, Call, Instruction,
  LockAdd, Mem, Reg, TypeGroup, unproved, Value,
}
use ebpf_verifier.Outcome.{ok, err, Result, ◌>>=◌}
use ebpf_verifier.Ebpf.{r10_stack_pointer}
use ebpf_verifier.Assertions.{
  extract, call_asserts, pair_asserts, mem_asserts, lock_add_asserts, singles_asserts,
  single_asserts, map_argument, next_map_fd, is_map_key, is_or_null,
}
use ebpf_verifier.Assertions.Erase.{IsExplicable, extract-total}

-- `a` stands in the list.
abbrev pub IsIn : {A : Type 0} → A → List A → Type 0
IsIn a [] = ⊥
IsIn a (b ∷ l) = (a ≡ b) ⊎ IsIn a l

module _ {A : Type 0} where
  IsIn-right : (a : A) (l m : List A) → IsIn a m → IsIn a (l ++ m)
  IsIn-right a [] m h = h
  IsIn-right a (b ∷ l) m h = inr (IsIn-right a l m h)

  IsIn-left : (a : A) (l m : List A) → IsIn a l → IsIn a (l ++ m)
  IsIn-left a [] m h = absurd h
  IsIn-left a (b ∷ l) m (inl e) = inl e
  IsIn-left a (b ∷ l) m (inr h) = inr (IsIn-left a l m h)

-- The checks of the memory that an instruction reads or writes: the bytes of its own operand, for a
-- call the keys and values of maps and the buffers of the pairs of arguments, and for a packet
-- access, whose bytes are checked as it runs, the context in R6.
abbrev or_null : ArgPairKind → Bool
or_null ArgPairKind.ptr_to_mem_or_null = true
or_null _ = false

abbrev buffers : List ArgPair → List Assert
buffers [] = []
buffers (arg ∷ args) =
    unproved
      (AssertionConstraint.valid_access arg.mem (pos 0) (Value.reg arg.size) (or_null arg.kind))
    ∷ buffers args

-- The check of a key or a value of the map in `seen`.
abbrev map_check : ArgSingleKind → Reg → Option Reg → List Assert
map_check ArgSingleKind.ptr_to_map_key r (some fd) =
    unproved (AssertionConstraint.valid_map_key_value r fd true) ∷ []
map_check ArgSingleKind.ptr_to_map_value r (some fd) =
    unproved (AssertionConstraint.valid_map_key_value r fd false) ∷ []
map_check _ r seen = []

-- The last register with a map.
abbrev seen_after : ArgSingleKind → Reg → Option Reg → Option Reg
seen_after ArgSingleKind.map_fd r seen = some r
seen_after _ r seen = seen

abbrev map_checks : Option Reg → List ArgSingle → List Assert
map_checks seen [] = []
map_checks seen (arg ∷ args) =
    map_check arg.kind arg.reg seen ++ map_checks (seen_after arg.kind arg.reg seen) args

unfoldable pub accesses : Instruction → List Assert
accesses (Instruction.mem m) =
    unproved (
      AssertionConstraint.valid_access m.access.basereg m.access.offset
        (Value.imm (record { v = m.access.width })) false)
    ∷ []
accesses (Instruction.lock_add l) =
    unproved (
      AssertionConstraint.valid_access l.access.basereg l.access.offset
        (Value.imm (record { v = l.access.width })) false)
    ∷ []
accesses (Instruction.call c) = map_checks none c.singles ++ buffers c.pairs
accesses (Instruction.packet p) =
    unproved (AssertionConstraint.type_constraint (record { v = 6 }) TypeGroup.ctx) ∷ []
accesses _ = []

-- Every assertion of the first list is in the second.
abbrev pub Covers : List Assert → List Assert → Type 0
Covers l m = All (λ a. IsIn a m) l

Covers-right : (l m k : List Assert) → Covers l m → Covers l (k ++ m)
Covers-right [] m k h = tt
Covers-right (a ∷ l) m k (g, h) = (IsIn-right a k m g, Covers-right l m k h)

or_null_eq : (kind : ArgPairKind) → or_null kind ≡ is_or_null kind
unfolding is_or_null
or_null_eq ArgPairKind.ptr_to_mem = refl
or_null_eq ArgPairKind.ptr_to_mem_or_null = refl
or_null_eq ArgPairKind.ptr_to_uninit_mem = refl

buffers-pair_asserts : (args : List ArgPair) → Covers (buffers args) (pair_asserts args)
unfolding pair_asserts
buffers-pair_asserts [] = tt
buffers-pair_asserts (arg ∷ args) = (
  inr (
      inr (
        inr (
          inl (
            ap
              (λ n.
                unproved (AssertionConstraint.valid_access arg.mem (pos 0) (Value.reg arg.size) n))
              (or_null_eq arg.kind))))),
  Covers-right (buffers args) (pair_asserts args) (_ ∷ _ ∷ _ ∷ _ ∷ []) (buffers-pair_asserts args),
)

-- An outcome with a list, if any, has one that covers `l`.
abbrev pub Gives : List Assert → Result (List Assert) → Type 0
Gives l (ok list) = Covers l list
Gives l (err e) = Unit

Covers-append : (l m k n : List Assert) → Covers l k → Covers m n → Covers (l ++ m) (k ++ n)
Covers-append [] m k n h g = Covers-right m n k g
Covers-append (a ∷ l) m k n (i, h) g = (IsIn-left a k n i, Covers-append l m k n h g)

Gives-both :
    (l m : List Assert) (r s : Result (List Assert))
    → Gives l r
    → Gives m s
    → Gives (l ++ m) (r >>= λ k. s >>= λ n. ok (k ++ n))
Gives-both l m (ok k) (ok n) h g = Covers-append l m k n h g
Gives-both l m (ok k) (err e) h g = tt
Gives-both l m (err e) s h g = tt

single-covered :
    (p : Bool) (kind : ArgSingleKind) (r : Reg) (fd : Option Reg)
    → Gives (map_check kind r fd) (single_asserts p (record { kind = kind; reg = r }) fd)
unfolding single_asserts map_argument is_map_key
single-covered p ArgSingleKind.anything r fd = tt
single-covered p ArgSingleKind.map_fd r fd = tt
single-covered p ArgSingleKind.ptr_to_map_key r none = tt
single-covered p ArgSingleKind.ptr_to_map_key r (some fd) = (inr (inl refl), tt)
single-covered p ArgSingleKind.ptr_to_map_value r none = tt
single-covered p ArgSingleKind.ptr_to_map_value r (some fd) = (inr (inl refl), tt)
single-covered p ArgSingleKind.ptr_to_ctx r fd = tt

seen_after-next_map_fd :
    (kind : ArgSingleKind) (r : Reg) (fd : Option Reg)
    → next_map_fd (record { kind = kind; reg = r }) fd ≡ seen_after kind r fd
unfolding next_map_fd
seen_after-next_map_fd ArgSingleKind.anything r fd = refl
seen_after-next_map_fd ArgSingleKind.map_fd r fd = refl
seen_after-next_map_fd ArgSingleKind.ptr_to_map_key r fd = refl
seen_after-next_map_fd ArgSingleKind.ptr_to_map_value r fd = refl
seen_after-next_map_fd ArgSingleKind.ptr_to_ctx r fd = refl

singles-covered :
    (p : Bool) (fd : Option Reg) (args : List ArgSingle)
    → Gives (map_checks fd args) (singles_asserts p fd args)
unfolding singles_asserts
singles-covered p fd [] = tt
singles-covered p fd (arg ∷ args) =
    Gives-both (map_check arg.kind arg.reg fd) (map_checks (seen_after arg.kind arg.reg fd) args)
      (single_asserts p arg fd) (singles_asserts p (next_map_fd arg fd) args)
      (single-covered p arg.kind arg.reg fd)
      (subst
        (λ (o : Option Reg).
          Gives (map_checks o args) (singles_asserts p (next_map_fd arg fd) args))
        (seen_after-next_map_fd arg.kind arg.reg fd) (singles-covered p (next_map_fd arg fd) args))

call-covered :
    (p : Bool) (c : Call) → Gives (map_checks none c.singles ++ buffers c.pairs) (call_asserts p c)
unfolding call_asserts
call-covered p c =
    Gives-both (map_checks none c.singles) (buffers c.pairs) (singles_asserts p none c.singles)
      (ok (pair_asserts c.pairs)) (singles-covered p none c.singles) (buffers-pair_asserts c.pairs)

IsIn-if : (a b : Assert) (l : List Assert) (t : Bool) → IsIn a (if t then a ∷ [] else b ∷ a ∷ l)
IsIn-if a b l true = inl refl
IsIn-if a b l false = inr (inl refl)

mem-covered : (p : Bool) (m : Mem) → Covers (accesses (Instruction.mem m)) (mem_asserts p m)
unfolding accesses mem_asserts
mem-covered p m = (IsIn-if _ _ _ (m.access.basereg.v == r10_stack_pointer), tt)

lock-covered : (l : LockAdd) → Covers (accesses (Instruction.lock_add l)) (lock_add_asserts l)
unfolding accesses lock_add_asserts
lock-covered l = (inr (inl refl), tt)

extract-covers : (p : Bool) (ins : Instruction) → Gives (accesses ins) (extract p ins)
unfolding extract accesses
extract-covers p (Instruction.mem m) = mem-covered p m
extract-covers p (Instruction.lock_add l) = lock-covered l
extract-covers p (Instruction.call c) = call-covered p c
extract-covers p (Instruction.undefined i) = tt
extract-covers p (Instruction.bin i) = tt
extract-covers p (Instruction.un i) = tt
extract-covers p (Instruction.load_map_fd i) = tt
extract-covers p Instruction.exit = tt
extract-covers p (Instruction.jmp i) = tt
extract-covers p (Instruction.packet i) = (inl refl, tt)
extract-covers p (Instruction.assume i) = tt
extract-covers p (Instruction.assert i) = tt

-- An instruction that is no assertion, and if it is a call has a map argument before each map key
-- or value argument, gets a list of assertions. The list has a check of the operand of a load, a
-- store or an atomic add; for a call, of each key and each value of a map, against the last map
-- argument before it, and of each buffer; and for a packet access, that R6 has the context.
pub extract-total-Covers :
    (p : Bool) (ins : Instruction)
    → IsExplicable ins
    → (list : List Assert) × extract p ins ≡ ok list × Covers (accesses ins) list
extract-total-Covers p ins h =
    let (list, e) = extract-total p ins h in
    (list, e, subst (Gives (accesses ins)) e (extract-covers p ins))
