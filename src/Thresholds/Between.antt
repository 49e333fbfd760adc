-- ===== src/Thresholds/Between.antt =====
-- Where `thresholds_t::add` of src/crab/thresholds.cpp puts a threshold, the order is kept.
use ebpf_verifier.Base.{
  suc, ◌≤◌, List, [], ◌∷◌, ◌≡◌, ◌≢◌, ◌⊎◌, inl, inr, refl, Bool, true, false, not, ◌&&◌, ◌||◌,
  length, arith, Bool-cases,
}
use ebpf_verifier.Base.Int.{ℤ, pos, neg_ℤ, ◌+ℤ◌}
use ebpf_verifier.Outcome.{Result, ok}
use ebpf_verifier.Bound
use ebpf_verifier.Bound.{Bound, bound, finite, plus_infinity, minus_infinity}
use ebpf_verifier.Bound.Order.{IsWf, number, top, bottom}
use ebpf_verifier.Thresholds.{has_bound, insert_between}

abbrev pub Lt : Bound → Bound → Type 0
Lt x y = Bound.lt x y ≡ true

-- Strictly ascending behind `x`, up to plus infinity.
abbrev pub Ascends : Bound → List Bound → Type 0
Ascends x [] = x ≡ plus_infinity
Ascends x (y ∷ r) = IsWf y × Lt x y × Ascends y r

abbrev pub IsSorted : List Bound → Type 0
IsSorted [] = ⊥
IsSorted (x ∷ r) = (x ≡ minus_infinity) × Ascends x r

pub lt_trans : {x y z : Bound} → IsWf x → IsWf y → IsWf z → Lt x y → Lt y z → Lt x z
unfolding Bound.lt Bound.ge
lt_trans (number a) (number b) (number c) p q = ground arith
lt_trans _ _ _ p q = ground arith

pub lt_total :
    {x y : Bound} → IsWf x → IsWf y → Bound.lt x y ≡ false → Bound.eq y x ≡ false → Lt y x
unfolding Bound.lt Bound.ge Bound.eq
lt_total (number a) (number b) p q = ground arith
lt_total _ _ p q = ground arith

-- What an insertion behind `prev` gives: the list goes on from `prev`, or from the new threshold in
-- its place.
abbrev pub Placed : Bound → Bool → Bound → List Bound → Result (List Bound) → Type 0
Placed v at_begin prev r res =
    (head : Bound) × (tail : List Bound) × (res ≡ ok (head ∷ tail))
    × IsWf head
    × Ascends head tail
    × ((head ≡ prev) ⊎ ((at_begin ≡ false) × (head ≡ v)))
    × (length tail ≤ suc (length r))
    × (has_bound v (head ∷ tail) ≡ true)

eq_self : (n : ℤ) → Bound.eq (finite n) (finite n) ≡ true
unfolding Bound.eq
eq_self n = ground arith

pub or_right : (a b : Bool) → b ≡ true → (a || b) ≡ true
or_right a b h = ground arith

pub or_left : (a b : Bool) → a ≡ true → (a || b) ≡ true
or_left a b h = ground arith

-- A neighbour of an integer is defined for every bound.
add_one : {x : Bound} → IsWf x → (d : Bound) × (Bound.add x (finite (pos 1)) ≡ ok d)
unfolding Bound.add
add_one (number a) = (finite (a +ℤ pos 1), refl)
add_one top = (plus_infinity, refl)
add_one bottom = (minus_infinity, refl)

sub_one : {x : Bound} → IsWf x → (d : Bound) × (Bound.sub x (finite (pos 1)) ≡ ok d)
unfolding Bound.sub Bound.add Bound.neg bound
sub_one (number a) = (finite (a +ℤ neg_ℤ (pos 1)), refl)
sub_one top = (plus_infinity, refl)
sub_one bottom = (minus_infinity, refl)

-- Only a number is followed by a number.
number_above :
    (n : ℤ) {x d : Bound}
    → IsWf x
    → Bound.sub x (finite (pos 1)) ≡ ok d
    → Bound.eq d (finite n) ≡ true
    → x ≢ plus_infinity
unfolding Bound.sub Bound.add Bound.neg bound Bound.eq
number_above n (number a) e h = λ q. cc
number_above n top e h = λ q. ground arith
number_above n bottom e h = λ q. cc

Ascends-lt :
    {x y : Bound} (r : List Bound)
    → IsWf x
    → IsWf y
    → Lt x y
    → y ≢ plus_infinity
    → Ascends y r
    → Ascends x r
Ascends-lt [] wx wy p q h = absurd (q h)
Ascends-lt (z ∷ r) wx wy p q h = (h.0, lt_trans wx wy h.0 p h.1, h.2)

module _ (n : ℤ) (at_begin : Bool) (prev : Bound) (wp : IsWf prev) (p : Lt prev (finite n)) where
  abbrev pub Done : List Bound → Result (List Bound) → Type 0
  Done r = Placed (finite n) at_begin prev r

  module _ (ub : Bound) (r : List Bound) (wu : IsWf ub) (q : Lt (finite n) ub)
      (h : Ascends ub r) where
    instead_of_prev : at_begin ≡ false → Done (ub ∷ r) (ok (finite n ∷ ub ∷ r))
    unfolding has_bound
    instead_of_prev b = (
      finite n,
      ub ∷ r,
      refl,
      number n,
      (wu, q, h),
      inr (b, refl),
      omega arith,
      or_left _ _ (eq_self n),
    )

    between : Done (ub ∷ r) (ok (prev ∷ finite n ∷ ub ∷ r))
    unfolding has_bound
    between = (
      prev,
      finite n ∷ ub ∷ r,
      refl,
      wp,
      (number n, p, (wu, q, h)),
      inl refl,
      omega arith,
      or_right _ _ (or_left _ _ (eq_self n)),
    )

    instead_of_ub : ub ≢ plus_infinity → Done (ub ∷ r) (ok (prev ∷ finite n ∷ r))
    unfolding has_bound
    instead_of_ub u = (
      prev,
      finite n ∷ r,
      refl,
      wp,
      (number n, p, Ascends-lt r (number n) wu q u h),
      inl refl,
      omega arith,
      or_right _ _ (or_left _ _ (eq_self n)),
    )

    pub between_lem : Done (ub ∷ r) (insert_between (finite n) at_begin prev ub r)
    unfolding insert_between
    between_lem = elim (Bool-cases (Bound.gt (finite n) (finite (pos 0)))) [
      | inl up ↦
          let (d, e) = add_one wp in
          rw (up, e)
            (elim (Bool-cases (not at_begin && Bound.eq d (finite n))) [
              | inl follows ↦ rw follows (instead_of_prev (ground arith))
              | inr apart ↦ rw apart between
            ])
      | inr rest ↦ elim (Bool-cases (Bound.lt (finite n) (finite (pos 0)))) [
        | inl down ↦
            let (d, e) = sub_one wu in
            rw (rest, down, e)
              (elim (Bool-cases (Bound.eq d (finite n))) [
                | inl follows ↦ rw follows (instead_of_ub (number_above n wu e follows))
                | inr apart ↦ rw apart between
              ])
        | inr zero ↦ rw (rest, zero) between
      ]
    ]
