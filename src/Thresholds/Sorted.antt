-- ===== src/Thresholds/Sorted.antt =====
-- The thresholds of src/crab/thresholds.cpp ascend strictly from minus to plus infinity.
use ebpf_verifier.Base.{
  ℕ, suc, ◌≤◌, ◌<◌, List, [], ◌∷◌, ◌≡◌, ◌⊎◌, inl, inr, refl, sym, subst, ◌∙◌, Bool, true, false,
  ◌||◌, ltb, length, arith, Bool-cases, false≢true,
}
use ebpf_verifier.Base.Int.{ℤ, pos}
use ebpf_verifier.Outcome.{Result, ok}
use ebpf_verifier.Bound
use ebpf_verifier.Bound.{Bound, bound, finite, plus_infinity, minus_infinity}
use ebpf_verifier.Bound.Order.{IsWf, number, top, bottom}
use ebpf_verifier.Thresholds.{Thresholds, new_thresholds, has_bound, place, place_first, add}
use ebpf_verifier.Thresholds.Between.{
  Lt, Ascends, IsSorted, lt_total, or_right, Placed, between_lem,
}

above_top : {x : Bound} → IsWf x → Lt plus_infinity x → ⊥
unfolding Bound.lt Bound.ge
above_top (number a) h = cc
above_top top h = cc
above_top bottom h = cc

or_both : (a b : Bool) → (a || b) ≡ false → (a ≡ false) × (b ≡ false)
or_both a b h = ground arith

place_lem :
    (n : ℤ) (at_begin : Bool) (prev : Bound) (r : List Bound)
    → IsWf prev
    → Lt prev (finite n)
    → Ascends prev r
    → has_bound (finite n) r ≡ false
    → Placed (finite n) at_begin prev r (place (finite n) at_begin prev r)
unfolding place has_bound
place_lem n b prev [] wp p h absent =
    absurd (above_top (number n) (subst (λ x. Lt x (finite n)) h p))
place_lem n b prev (x ∷ r) wp p h absent = elim (Bool-cases (Bound.lt (finite n) x)) [
  | inl here ↦ rw here (between_lem n b prev wp p x r h.0 here h.2)
  | inr later ↦
      let (ne, absent') = or_both _ _ absent in
      let (head, tail, e, wh, asc, alt, len, has) =
        place_lem n false x r h.0 (lt_total (number n) h.0 later ne) h.2 absent' in
      rw (later, e)
        (
          prev,
          head ∷ tail,
          refl,
          wp,
          (wh, behind head alt, asc),
          inl refl,
          omega arith,
          or_right _ _ has,
        )
]
  where
    behind : (head : Bound) → (head ≡ x) ⊎ ((false ≡ false) × (head ≡ finite n)) → Lt prev head
    behind head (inl q) = rw q h.1
    behind head (inr q) = rw q.1 p

top_found : (x : Bound) (r : List Bound) → Ascends x r → has_bound plus_infinity (x ∷ r) ≡ true
unfolding has_bound Bound.eq
top_found x [] h = rw h refl
top_found x (y ∷ r) h = or_right _ _ (top_found y r h.2)

bottom_found : (r : List Bound) → has_bound minus_infinity (minus_infinity ∷ r) ≡ true
unfolding has_bound Bound.eq
bottom_found r = refl

lt_bottom : (n : ℤ) → Lt minus_infinity (finite n)
unfolding Bound.lt Bound.ge
lt_bottom n = refl

not_below_bottom : (n : ℤ) → Bound.lt (finite n) minus_infinity ≡ false
unfolding Bound.lt Bound.ge
not_below_bottom n = refl

-- What `add` makes of a sorted vector that does not have the threshold.
abbrev Extended : Bound → List Bound → Result (List Bound) → Type 0
Extended v ts res =
    (s : List Bound) × (res ≡ ok s)
    × IsSorted s
    × (length s ≤ suc (length ts))
    × (has_bound v s ≡ true)

first_number :
    (n : ℤ) (r : List Bound)
    → Ascends minus_infinity r
    → has_bound (finite n) r ≡ false
    → Extended (finite n) (minus_infinity ∷ r) (place_first (finite n) (minus_infinity ∷ r))
unfolding place_first
first_number n r h absent =
    let (head, tail, e, wh, asc, alt, len, has) =
      place_lem n true minus_infinity r bottom (lt_bottom n) h absent in
    rw (not_below_bottom n) (head ∷ tail, e, (stays head alt, asc), omega arith, has)
  where
    stays :
        (head : Bound)
        → (head ≡ minus_infinity) ⊎ ((true ≡ false) × (head ≡ finite n))
        → head ≡ minus_infinity
    stays head (inl q) = q
    stays head (inr q) = absurd (false≢true (sym q.0))

place_first_lem :
    {v : Bound} (ts : List Bound)
    → IsWf v
    → IsSorted ts
    → has_bound v ts ≡ false
    → Extended v ts (place_first v ts)
unfolding place_first has_bound
place_first_lem [] w s absent = absurd s
place_first_lem (x ∷ r) (number n) (q, h) absent =
    subst (λ y. Extended (finite n) (y ∷ r) (place_first (finite n) (y ∷ r))) (sym q)
      (first_number n r (subst (λ y. Ascends y r) q h) (or_both _ _ absent).1)
place_first_lem (x ∷ r) top (q, h) absent = absurd (false≢true (sym absent ∙ top_found x r h))
place_first_lem (x ∷ r) bottom (q, h) absent = absurd (
    false≢true
      (sym absent ∙ subst (λ y. has_bound minus_infinity (y ∷ r) ≡ true) (sym q) (bottom_found r)))

-- For a bound that is a number or an infinity and thresholds in strictly ascending order from -oo
-- to +oo, `add` throws nothing and keeps that order and these ends; it leaves at most as many
-- thresholds as there is room for, where there were no more before; and where there was room for
-- one more, the bound is a threshold afterwards.
pub add-IsSorted :
    {v : Bound} (t : Thresholds)
    → IsWf v
    → IsSorted t.thresholds
    → (t' : Thresholds) × (add v t ≡ ok t')
      × IsSorted t'.thresholds
      × (length t.thresholds ≤ t.size → length t'.thresholds ≤ t'.size)
      × (length t.thresholds < t.size → has_bound v t'.thresholds ≡ true)
unfolding add
add-IsSorted {v} t w s = elim (Bool-cases (ltb (length t.thresholds) t.size)) [
  | inr full ↦ (t, rw full refl, s, (λ h. h), λ h. absurd (ground arith))
  | inl room ↦ elim (Bool-cases (has_bound v t.thresholds)) [
    | inl old ↦ (t, rw (room, old) refl, s, (λ h. h), λ h. old)
    | inr new ↦
        let (u, e, sorted, len, has) = place_first_lem t.thresholds w s new in
        (
          record { thresholds = u; size = t.size },
          rw (room, new, e) refl,
          sorted,
          (λ h. ground arith),
          λ h. has,
        )
  ]
]

pub new_thresholds-IsSorted : (size : ℕ) → IsSorted (new_thresholds size).thresholds
unfolding new_thresholds Bound.lt Bound.ge
new_thresholds-IsSorted size = (refl, (number (pos 0), refl, (top, refl, refl)))
