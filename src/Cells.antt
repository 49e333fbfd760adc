-- ===== src/Cells.antt =====
-- The cells of the stack: the classes `cell_t` and `offset_map_t` of src/crab/array_domain.hpp and
-- src/crab/array_domain.cpp. The Patricia tree of an offset map is the list of its bindings, in
-- ascending order of the offsets, and a `std::set` of cells is a list in ascending order.
pub mod Overlap
pub mod Scan
use ebpf_verifier.Base.{
  ℕ, ◌+◌, ◌-◌, ◌%◌, ◌^◌, List, [], ◌∷◌, ◌++◌, Bool, true, false, not, ◌&&◌, ◌||◌, ltb, ◌==◌,
  if◌then◌else◌, Option, none, some,
}
use ebpf_verifier.Base.Int.{ℤ, pos, ◌+ℤ◌}
use ebpf_verifier.Base.Word.{u32_of, i32_of}
use ebpf_verifier.Bound.{finite}
use ebpf_verifier.Interval
use ebpf_verifier.Interval.{Interval, interval}

-- Two cells of one offset map differ in offset or size; the scalar variable is made from these.
pub record Cell : Type 0 where
  pub offset : ℕ
  pub size : ℕ

abbrev pub cell : ℕ → ℕ → Cell
cell o size = record { offset = o; size = size }

-- The sums of `int` wrap here, where the language leaves them undefined.
unfoldable pub to_interval : ℕ → ℕ → Interval
to_interval o size =
    interval (finite (i32_of o))
      (finite (i32_of (u32_of (i32_of o +ℤ i32_of ((size + (2 ^ 32 - 1)) % 2 ^ 32)))))

unfoldable pub cell_eq : Cell → Cell → Bool
unfolding to_interval
cell_eq c d = Interval.eq (to_interval c.offset c.size) (to_interval d.offset d.size)

unfoldable pub cell_lt : Cell → Cell → Bool
cell_lt c d = if c.offset == d.offset then ltb c.size d.size else ltb c.offset d.offset

unfoldable pub overlap : Cell → ℕ → ℕ → Bool
unfolding to_interval
overlap c o size =
    not (Interval.is_bottom (Interval.meet (to_interval c.offset c.size) (to_interval o size)))

-- A set of cells: `find`, `insert` and `erase`, which compare by `<`.
abbrev pub CellSet : Type 0
CellSet = List Cell

unfoldable pub find_cell : CellSet → Cell → Option Cell
find_cell [] c = none
find_cell (d ∷ cells) c =
    let rest = find_cell cells c in if not (cell_lt c d) && not (cell_lt d c) then some d else rest

unfoldable pub put_cell : CellSet → Cell → CellSet
put_cell [] c = c ∷ []
put_cell (d ∷ cells) c =
    let rest = put_cell cells c in
    if cell_lt c d then c ∷ d ∷ cells else if cell_lt d c then d ∷ rest else d ∷ cells

unfoldable pub erase_cell : CellSet → Cell → CellSet
erase_cell [] c = []
erase_cell (d ∷ cells) c =
    let rest = erase_cell cells c in
    if not (cell_lt c d) && not (cell_lt d c) then cells else d ∷ rest

abbrev pub Bindings : Type 0
Bindings = List (ℕ × CellSet)

-- `lookup`, `remove` and `insert` of the tree; an insertion replaces the value of its key.
unfoldable pub lookup : Bindings → ℕ → Option CellSet
lookup [] k = none
lookup ((j, cells) ∷ map) k = if j == k then some cells else lookup map k

unfoldable pub remove : Bindings → ℕ → Bindings
remove [] k = []
remove ((j, cells) ∷ map) k = if j == k then map else (j, cells) ∷ remove map k

unfoldable pub insert : Bindings → ℕ → CellSet → Bindings
insert [] k cells = (k, cells) ∷ []
insert ((j, old) ∷ map) k cells =
    if ltb k j
    then (k, cells) ∷ (j, old) ∷ map
    else if j == k
    then (k, cells) ∷ map
    else (j, old) ∷ insert map k cells

unfoldable pub remove_cell : Bindings → Cell → Bindings
unfolding remove insert find_cell erase_cell
remove_cell map c = elim (lookup map c.offset) [
  | none ↦ map
  | some cells ↦ elim (find_cell cells c) [
    | none ↦ map
    | some _ ↦ elim (erase_cell cells c) [
      | [] ↦ remove map c.offset
      | d ∷ rest ↦ insert (remove map c.offset) c.offset (d ∷ rest)
    ]
  ]
]

unfoldable pub insert_cell : Bindings → Cell → Bindings
unfolding remove insert find_cell put_cell
insert_cell map c = elim (lookup map c.offset) [
  | none ↦ insert map c.offset (c ∷ [])
  | some cells ↦ elim (find_cell cells c) [
    | none ↦ insert (remove map c.offset) c.offset (put_cell cells c)
    | some _ ↦ map
  ]
]

unfoldable pub get_cell : Bindings → ℕ → ℕ → Option Cell
unfolding find_cell
get_cell map o size = elim (lookup map o) [
  | none ↦ none
  | some cells ↦ find_cell cells (cell o size)
]

unfoldable pub mk_cell : Bindings → ℕ → ℕ → Cell × Bindings
unfolding get_cell insert_cell
mk_cell map o size = elim (get_cell map o size) [
  | some c ↦ (c, map)
  | none ↦ (cell o size, insert_cell map (cell o size))
]
