-- ===== src/Cells/Scan/Pairs.antt =====
-- The cells of src/crab/array_domain.hpp at one offset: the range, alone or with another cell.
use ebpf_verifier.Base.{
  ℕ, List, [], ◌∷◌, ◌++◌, ◌≡◌, refl, ap, ◌∙◌, true, false, not, ◌&&◌, ◌||◌, ltb, ◌==◌, All, none,
  some, arith, inl, inr, Bool-cases,
}
use ebpf_verifier.Cells.{Cell, cell, overlap, cell_lt, find_cell, put_cell, erase_cell}
use ebpf_verifier.Cells.Overlap.{Fits, overlap_lem}
use ebpf_verifier.Cells.Scan.Sets.{same, member, FitsCell}
use ebpf_verifier.Cells.Scan.Keys.{wrap}

pub wrap-append : (low high : List Cell) → wrap (low ++ high) ≡ wrap low ++ wrap high
wrap-append [] high = refl
wrap-append (c ∷ low) high = ap (λ m. (c.offset, c ∷ []) ∷ m) (wrap-append low high)

pub member-append_list :
    (low high : List Cell) (c : Cell) → member (low ++ high) c ≡ (member low c || member high c)
unfolding member
member-append_list [] high c = refl
member-append_list (x ∷ low) high c = rw (member-append_list low high c) (ground arith)

pub overlap_self : (o size : ℕ) → Fits o size → overlap (cell o size) o size ≡ true
overlap_self o size h = overlap_lem (cell o size) o size h h ∙ ground arith

-- The cells found are those of the list that overlap, without the range; the map is as before.
pub only_self : (o size : ℕ) → member (cell o size ∷ []) (cell o size) ≡ true
unfolding member
only_self o size = ground arith

pub self_dropped :
    (o size : ℕ) (c : Cell)
    → (member (cell o size ∷ []) c && not (same c (cell o size)))
      ≡ (member [] c && not (same c (cell o size)))
unfolding member
self_dropped o size c = ground arith

pub find_self : (o size : ℕ) → find_cell (cell o size ∷ []) (cell o size) ≡ some (cell o size)
unfolding find_cell cell_lt
find_self o size = ground arith

pub find_other :
    (o n size : ℕ) → (n == size) ≡ false → find_cell (cell o n ∷ []) (cell o size) ≡ none
unfolding find_cell cell_lt
find_other o n size e = ground arith

-- A second cell at the offset: it is found, without it the first is left.
pub put_other :
    (o n size : ℕ)
    → Fits o size
    → Fits o n
    → (n == size) ≡ false
    → (find_cell (put_cell (cell o n ∷ []) (cell o size)) (cell o size) ≡ some (cell o size))
      × (erase_cell (put_cell (cell o n ∷ []) (cell o size)) (cell o size) ≡ cell o n ∷ [])
      × ((c : Cell)
          → member (put_cell (cell o n ∷ []) (cell o size)) c
            ≡ (same (cell o n) c || same (cell o size) c))
      × All FitsCell (put_cell (cell o n ∷ []) (cell o size))
unfolding put_cell find_cell erase_cell cell_lt member
put_other o n size h k e = elim (Bool-cases (ltb size n)) [
  | inl f ↦
      let put : put_cell (cell o n ∷ []) (cell o size) ≡ cell o size ∷ cell o n ∷ [] =
        ground arith in
      rw put (ground arith, ground arith, (λ c. ground arith), (h, (k, tt)))
  | inr f ↦
      let put : put_cell (cell o n ∷ []) (cell o size) ≡ cell o n ∷ cell o size ∷ [] =
        ground arith in
      rw put (ground arith, ground arith, (λ c. ground arith), (k, (h, tt)))
]
