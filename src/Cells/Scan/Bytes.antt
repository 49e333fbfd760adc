-- ===== src/Cells/Scan/Bytes.antt =====
-- What `get_overlap_cells` of src/crab/array_domain.cpp finds, in bytes.
use ebpf_verifier.Base.{
  ℕ, ◌+◌, List, [], ◌∷◌, ◌≡◌, refl, ap, ◌∙◌, Bool, true, not, ◌&&◌, ltb, arith, inl, inr,
  Bool-cases, subst,
}
use ebpf_verifier.Cells.{Cell, cell, overlap}
use ebpf_verifier.Cells.Overlap.{Fits, overlap_lem}
use ebpf_verifier.Cells.Scan.{get_overlap_cells}
use ebpf_verifier.Cells.Scan.Sets.{same, member, FitsCell, same-eq}
use ebpf_verifier.Cells.Scan.Keys.{wrap}
use ebpf_verifier.Cells.Scan.Disjoint.{Apart}
use ebpf_verifier.Cells.Scan.Results.{get_overlap_cells-IsResult}

-- The cell and the range have a byte in common.
abbrev pub share_byte : Cell → ℕ → ℕ → Bool
share_byte c o size = ltb c.offset (o + size) && ltb o (c.offset + c.size)

FitsCell-member :
    (cells : List Cell) (b : ℕ) (c : Cell) → Apart b cells → member cells c ≡ true → FitsCell c
unfolding member
FitsCell-member [] b c h e = absurd (ground arith)
FitsCell-member (x ∷ cells) b c (p, fits, h) e = elim (Bool-cases (same x c)) [
  | inl f ↦ subst FitsCell (same-eq x c f) fits
  | inr f ↦ FitsCell-member cells (x.offset + x.size) c h (ground arith)
]

-- Where the cells of a map have no byte in common, one at each offset and all below 2^31, a cell is
-- in the result of `get_overlap_cells` for a range of at least one byte below 2^31 exactly where it
-- is a cell of the map that has a byte in common with the range and is not the cell of the range
-- itself; the map is left as it was.
pub get_overlap_cells_lem :
    (cells : List Cell) (o size : ℕ)
    → Apart 0 cells
    → Fits o size
    → ((c : Cell)
        → member (get_overlap_cells (wrap cells) o size).0 c
          ≡ (member cells c && (share_byte c o size && not (same c (cell o size)))))
      × ((get_overlap_cells (wrap cells) o size).1 ≡ wrap cells)
get_overlap_cells_lem cells o size apart range =
    let (found, kept) = get_overlap_cells-IsResult cells o size apart range in
    (λ c. found c ∙ in_bytes c, kept)
  where
    in_bytes :
        (c : Cell)
        → (member cells c && (overlap c o size && not (same c (cell o size))))
          ≡ (member cells c && (share_byte c o size && not (same c (cell o size))))
    in_bytes c = elim (Bool-cases (member cells c)) [
      | inl e ↦
          ap (λ b. member cells c && (b && not (same c (cell o size))))
            (overlap_lem c o size (FitsCell-member cells 0 c apart e) range)
      | inr e ↦ rw e refl
    ]
