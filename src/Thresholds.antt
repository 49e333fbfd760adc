-- ===== src/Thresholds.antt =====
-- The thresholds of the widening: the class `thresholds_t` of src/crab/thresholds.hpp and
-- src/crab/thresholds.cpp. The vector is a list; an iterator is the place in the list where the
-- search stands, and a read in front of the first or behind the last element is a fault.
pub mod Between
pub mod Sorted
use ebpf_verifier.Base.{
  ℕ, suc, List, [], ◌∷◌, Bool, true, false, not, ◌&&◌, ◌||◌, ltb, if◌then◌else◌, length,
}
use ebpf_verifier.Base.Int.{pos}
use ebpf_verifier.Outcome.{Result, ok, err, Fault, ◌>>=◌}
use ebpf_verifier.Bound
use ebpf_verifier.Bound.{Bound, finite, plus_infinity, minus_infinity}

pub record Thresholds : Type 0 where
  pub thresholds : List Bound
  pub size : ℕ

unfoldable pub new_thresholds : ℕ → Thresholds
new_thresholds size = record {
  thresholds = minus_infinity ∷ finite (pos 0) ∷ plus_infinity ∷ [];
  size = size;
}

-- `std::find`.
unfoldable pub has_bound : Bound → List Bound → Bool
has_bound v [] = false
has_bound v (x ∷ r) = Bound.eq x v || has_bound v r

-- The new threshold at its place, between the last element that is not above it and the first one
-- that is, or in place of one of them that it follows directly.
unfoldable pub insert_between : Bound → Bool → Bound → Bound → List Bound → Result (List Bound)
insert_between v at_begin prev ub r =
    if Bound.gt v (finite (pos 0))
    then (do
      next ← Bound.add prev (finite (pos 1))
      ok (if not at_begin && Bound.eq next v then v ∷ ub ∷ r else prev ∷ v ∷ ub ∷ r))
    else if Bound.lt v (finite (pos 0))
    then (do
      next ← Bound.sub ub (finite (pos 1))
      ok (if Bound.eq next v then prev ∷ v ∷ r else prev ∷ v ∷ ub ∷ r))
    else ok (prev ∷ v ∷ ub ∷ r)

unfoldable pub insert_last : Bound → Bool → Bound → Result (List Bound)
insert_last v at_begin prev =
    if Bound.gt v (finite (pos 0))
    then (do
      next ← Bound.add prev (finite (pos 1))
      ok (if not at_begin && Bound.eq next v then v ∷ [] else prev ∷ v ∷ []))
    else if Bound.lt v (finite (pos 0))
    then err Fault.out_of_range
    else ok (prev ∷ v ∷ [])

-- `std::upper_bound` from the element behind `prev` on, and what is done there.
unfoldable pub place : Bound → Bool → Bound → List Bound → Result (List Bound)
unfolding insert_between insert_last
place v at_begin prev [] = insert_last v at_begin prev
place v at_begin prev (x ∷ r) =
    let rest = place v false x r >>= λ s. ok (prev ∷ s) in
    if Bound.lt v x then insert_between v at_begin prev x r else rest

unfoldable pub before_first : Bound → Bound → List Bound → Result (List Bound)
before_first v x r =
    if Bound.lt v (finite (pos 0))
    then (do next ← Bound.sub x (finite (pos 1)); ok (if Bound.eq next v then v ∷ r else v ∷ x ∷ r))
    else ok (v ∷ x ∷ r)

-- Where the first element is above `v` there is no element in front of the iterator.
unfoldable pub place_first : Bound → List Bound → Result (List Bound)
unfolding place before_first
place_first v [] = err Fault.out_of_range
place_first v (x ∷ r) =
    if Bound.lt v x
    then (if Bound.gt v (finite (pos 0)) then err Fault.out_of_range else before_first v x r)
    else place v true x r

unfoldable pub add : Bound → Thresholds → Result Thresholds
unfolding has_bound place_first
add v t =
    if ltb (length t.thresholds) t.size
    then (if has_bound v t.thresholds
        then ok t
        else place_first v t.thresholds >>= λ s. ok (record { thresholds = s; size = t.size }))
    else ok t
