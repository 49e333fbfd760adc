-- ===== src/Cells/Scan.antt =====
-- `offset_map_t::get_overlap_cells` of src/crab/array_domain.cpp: the cells of a map that overlap a
-- range, other than the cell of the range itself.
pub mod Bytes
pub mod Complete
pub mod Results
pub mod Disjoint
pub mod Keys
pub mod Load
pub mod Loops
pub mod Pairs
pub mod Sets
use ebpf_verifier.Base.{
  ℕ, List, [], ◌∷◌, ◌++◌, Bool, true, false, not, ◌&&◌, ◌||◌, leb, ltb, if◌then◌else◌, Option, none,
  some,
}
use ebpf_verifier.Cells.{
  Cell, cell, cell_eq, overlap, CellSet, Bindings, get_cell, insert_cell, remove_cell, mk_cell,
}

-- `std::find` in the vector of the cells that are found.
unfoldable pub has_cell : List Cell → Cell → Bool
has_cell [] x = false
has_cell (y ∷ out) x = cell_eq y x || has_cell out x

-- `push_back` of a cell that is not there yet.
unfoldable pub push_new : List Cell → Cell → List Cell
unfolding has_cell
push_new out x = if not (has_cell out x) then out ++ x ∷ [] else out

-- The bindings in front of `std::lower_bound`, the last one first, before `sets`; the bindings from
-- there on; the bindings from `std::upper_bound` on.
unfoldable pub before : Bindings → ℕ → List CellSet → List CellSet
before [] o sets = sets
before ((k, cells) ∷ map) o sets =
    let more = before map o (cells ∷ sets) in if ltb k o then more else sets

unfoldable pub lower_bound : Bindings → ℕ → Bindings
lower_bound [] o = []
lower_bound ((k, cells) ∷ map) o =
    let rest = lower_bound map o in if ltb k o then rest else (k, cells) ∷ map

unfoldable pub upper_bound : Bindings → ℕ → Bindings
upper_bound [] o = []
upper_bound ((k, cells) ∷ map) o =
    let rest = upper_bound map o in if leb k o then rest else (k, cells) ∷ map

module _ (o size : ℕ) (self : Cell) where
  -- The cells of one offset, going backwards: the cells found, and whether one overlaps.
  unfoldable pub visit_backward : CellSet → List Cell → Bool → List Cell × Bool
  visit_backward [] out more = (out, more)
  visit_backward (x ∷ cells) out more =
      visit_backward cells
        (if overlap x o size && not (cell_eq x self) then push_new out x else out)
        (overlap x o size || more)

  unfoldable pub scan_backward : List CellSet → List Cell → List Cell
  unfolding visit_backward
  scan_backward [] out = out
  scan_backward (cells ∷ sets) out =
      let (out', more) = visit_backward cells out false in
      elim more [ true ↦ scan_backward sets out' | false ↦ out' ]

  -- Going forwards: also the bindings that are passed.
  unfoldable pub visit_forward : CellSet → List Cell → Bool → List Cell × Bool
  visit_forward [] out more = (out, more)
  visit_forward (x ∷ cells) out more =
      visit_forward cells (if overlap x o size then push_new out x else out)
        (overlap x o size || more)

  unfoldable pub scan_forward : Bindings → List Cell → List Cell × Bindings
  unfolding visit_forward
  scan_forward [] out = (out, [])
  scan_forward ((k, cells) ∷ map) out =
      let (out', more) = visit_forward cells out false in
      elim more [
        | true ↦ (let rest = scan_forward map out' in (rest.0, (k, cells) ∷ rest.1))
        | false ↦ (out', [])
      ]

  -- The third loop skips the cell of the range.
  unfoldable pub visit_rest : CellSet → List Cell → Bool → List Cell × Bool
  visit_rest [] out more = (out, more)
  visit_rest (x ∷ cells) out more =
      visit_rest cells (if not (cell_eq x self) && overlap x o size then push_new out x else out)
        (not (cell_eq x self) && overlap x o size || more)

  unfoldable pub scan_rest : Bindings → List Cell → List Cell
  unfolding visit_rest
  scan_rest [] out = out
  scan_rest ((k, cells) ∷ map) out =
      let (out', more) = visit_rest cells out false in
      elim more [ true ↦ scan_rest map out' | false ↦ out' ]

  -- The three loops. The third goes from behind the lower bound to where the second stopped: over the
  -- bindings that the second has passed, as the lower bound is the binding of `o` itself.
  unfoldable pub collect : Bindings → List Cell
  unfolding scan_backward scan_forward scan_rest before lower_bound upper_bound
  collect map =
      let out : List Cell = elim (lower_bound map o) [
        | [] ↦ []
        | (k, cells) ∷ _ ↦ scan_backward (cells ∷ before map o []) []
      ] in
      let (out', passed) = scan_forward (upper_bound map o) out in scan_rest passed out'

-- The cell of the range is in the map while the loops run.
unfoldable pub get_overlap_cells : Bindings → ℕ → ℕ → List Cell × Bindings
unfolding collect get_cell insert_cell remove_cell
get_overlap_cells map o size = elim (get_cell map o size) [
  | some c ↦ (collect o size c map, map)
  | none ↦
      (let added = insert_cell map (cell o size) in
        (collect o size (cell o size) added, remove_cell added (cell o size)))
]

-- What `array_domain_t::load` does to the cells where the offset is constant: the cell that it reads
-- from, if no other one overlaps.
unfoldable pub load_cell : Bindings → ℕ → ℕ → Option Cell × Bindings
unfolding get_overlap_cells mk_cell
load_cell map o size =
    let (cells, kept) = get_overlap_cells map o size in
    elim cells [
      | [] ↦ (some (mk_cell kept o size).0, (mk_cell kept o size).1)
      | x ∷ rest ↦ (none, kept)
    ]
