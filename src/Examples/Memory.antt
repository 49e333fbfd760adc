-- ===== src/Examples/Memory.antt =====
-- Cells on which the theorems on src/crab/array_domain.cpp are applied.
use ebpf_verifier.Base.{◌≡◌, not, ◌&&◌, List, [], ◌∷◌, arith}
use ebpf_verifier.Cells.{Cell, cell}
use ebpf_verifier.Cells.Scan.{get_overlap_cells, load_cell}
use ebpf_verifier.Cells.Scan.Sets.{same, member}
use ebpf_verifier.Cells.Scan.Keys.{wrap}
use ebpf_verifier.Cells.Scan.Disjoint.{Apart}
use ebpf_verifier.Cells.Scan.Bytes.{share_byte, get_overlap_cells_lem}
use ebpf_verifier.Cells.Scan.Load.{Loaded, load_cell_lem}

abbrev three_cells : List Cell
three_cells = cell 0 8 ∷ cell 8 4 ∷ cell 16 8 ∷ []

three_cells-Apart : Apart 0 three_cells
three_cells-Apart = (
  omega arith,
  (omega arith, omega arith),
  (omega arith, (omega arith, omega arith), (omega arith, (omega arith, omega arith), tt)),
)

-- The range has bytes of the first two cells, and starts at neither of them.
get_overlap_cells_lem_example :
    ((c : Cell)
      → member (get_overlap_cells (wrap three_cells) 4 8).0 c
        ≡ (member three_cells c && (share_byte c 4 8 && not (same c (cell 4 8)))))
    × ((get_overlap_cells (wrap three_cells) 4 8).1 ≡ wrap three_cells)
get_overlap_cells_lem_example =
    get_overlap_cells_lem three_cells 4 8 three_cells-Apart (omega arith, omega arith)

-- The four bytes between the second cell and the third.
load_cell_lem_example : Loaded 12 4 three_cells (load_cell (wrap three_cells) 12 4)
load_cell_lem_example = load_cell_lem three_cells 12 4 three_cells-Apart (omega arith, omega arith)
