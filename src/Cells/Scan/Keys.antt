-- ===== src/Cells/Scan/Keys.antt =====
-- Look-ups and changes of an offset map of src/crab/array_domain.hpp around one offset.
use ebpf_verifier.Base.{ℕ, ◌<◌, List, [], ◌∷◌, ◌++◌, ◌≡◌, refl, ap, ◌∙◌, none, some, All, arith}
use ebpf_verifier.Cells.{
  Cell, cell, cell_lt, find_cell, put_cell, erase_cell, CellSet, Bindings, lookup, remove, insert,
  remove_cell, insert_cell, get_cell,
}
use ebpf_verifier.Cells.Scan.{before, lower_bound, upper_bound}

-- A map with one cell for each offset.
abbrev pub wrap : List Cell → Bindings
wrap [] = []
wrap (c ∷ cells) = (c.offset, c ∷ []) ∷ wrap cells

abbrev pub Below : ℕ → List Cell → Type 0
Below o cells = All (λ c. c.offset < o) cells

abbrev pub Above : ℕ → List Cell → Type 0
Above o cells = All (λ c. o < c.offset) cells

-- The sets of the cells, the last one first, in front of others.
abbrev pub reversed : List Cell → List CellSet → List CellSet
reversed [] sets = sets
reversed (c ∷ cells) sets = reversed cells ((c ∷ []) ∷ sets)

module _ (o : ℕ) where
  lookup-below :
      (low : List Cell) (map : Bindings) → Below o low → lookup (wrap low ++ map) o ≡ lookup map o
  unfolding lookup
  lookup-below [] map h = refl
  lookup-below (c ∷ low) map h = rw (lookup-below low map h.1) (ground arith)

  remove-below :
      (low : List Cell) (map : Bindings)
      → Below o low
      → remove (wrap low ++ map) o ≡ wrap low ++ remove map o
  unfolding remove
  remove-below [] map h = refl
  remove-below (c ∷ low) map h = rw (remove-below low map h.1) (ground arith)

  insert-below :
      (low : List Cell) (map : Bindings) (s : CellSet)
      → Below o low
      → insert (wrap low ++ map) o s ≡ wrap low ++ insert map o s
  unfolding insert
  insert-below [] map s h = refl
  insert-below (c ∷ low) map s h = rw (insert-below low map s h.1) (ground arith)

  pub lower_bound-below :
      (low : List Cell) (map : Bindings)
      → Below o low
      → lower_bound (wrap low ++ map) o ≡ lower_bound map o
  unfolding lower_bound
  lower_bound-below [] map h = refl
  lower_bound-below (c ∷ low) map h = rw (lower_bound-below low map h.1) (ground arith)

  pub upper_bound-below :
      (low : List Cell) (map : Bindings)
      → Below o low
      → upper_bound (wrap low ++ map) o ≡ upper_bound map o
  unfolding upper_bound
  upper_bound-below [] map h = refl
  upper_bound-below (c ∷ low) map h = rw (upper_bound-below low map h.1) (ground arith)

  pub before-below :
      (low : List Cell) (map : Bindings) (sets : List CellSet)
      → Below o low
      → before (wrap low ++ map) o sets ≡ before map o (reversed low sets)
  unfolding before
  before-below [] map sets h = refl
  before-below (c ∷ low) map sets h = rw (before-below low map _ h.1) (ground arith)

  pub lower_bound-here :
      (s : CellSet) (map : Bindings) → lower_bound ((o, s) ∷ map) o ≡ (o, s) ∷ map
  unfolding lower_bound
  lower_bound-here s map = ground arith

  pub before-here :
      (s : CellSet) (map : Bindings) (sets : List CellSet) → before ((o, s) ∷ map) o sets ≡ sets
  unfolding before
  before-here s map sets = ground arith

  upper_bound-Above : (high : List Cell) → Above o high → upper_bound (wrap high) o ≡ wrap high
  unfolding upper_bound
  upper_bound-Above [] h = refl
  upper_bound-Above (c ∷ high) h = ground arith

  pub upper_bound-here :
      (s : CellSet) (high : List Cell)
      → Above o high
      → upper_bound ((o, s) ∷ wrap high) o ≡ wrap high
  unfolding upper_bound
  upper_bound-here s high h = rw (upper_bound-Above high h) (ground arith)

  lookup-Above : (high : List Cell) → Above o high → lookup (wrap high) o ≡ none
  unfolding lookup
  lookup-Above [] h = refl
  lookup-Above (c ∷ high) h = rw (lookup-Above high h.1) (ground arith)

  lookup-here : (s : CellSet) (map : Bindings) → lookup ((o, s) ∷ map) o ≡ some s
  unfolding lookup
  lookup-here s map = ground arith

  remove-here : (s : CellSet) (map : Bindings) → remove ((o, s) ∷ map) o ≡ map
  unfolding remove
  remove-here s map = ground arith

  insert-Above :
      (high : List Cell) (s : CellSet) → Above o high → insert (wrap high) o s ≡ (o, s) ∷ wrap high
  unfolding insert
  insert-Above [] s h = refl
  insert-Above (c ∷ high) s h = ground arith

  module _ (size : ℕ) (low high : List Cell) (below : Below o low) (above : Above o high) where
    -- The map with `s` at the offset.
    abbrev pub at_offset : CellSet → Bindings
    at_offset s = wrap low ++ (o, s) ∷ wrap high

    lookup-at_offset : (s : CellSet) → lookup (at_offset s) o ≡ some s
    lookup-at_offset s = lookup-below low _ below ∙ lookup-here s (wrap high)

    lookup-absent : lookup (wrap low ++ wrap high) o ≡ none
    lookup-absent = lookup-below low _ below ∙ lookup-Above high above

    replace : (s t : CellSet) → insert (remove (at_offset s) o) o t ≡ at_offset t
    replace s t =
        rw
          (
            remove-below low ((o, s) ∷ wrap high) below,
            remove-here s (wrap high),
            insert-below low (wrap high) t below,
          )
          (ap (λ m. wrap low ++ m) (insert-Above high t above))

    pub get_cell-absent : get_cell (wrap low ++ wrap high) o size ≡ none
    unfolding get_cell
    get_cell-absent = rw (lookup-absent, get_cell) refl

    pub get_cell-at_offset :
        (s : CellSet) → get_cell (at_offset s) o size ≡ find_cell s (cell o size)
    unfolding get_cell
    get_cell-at_offset s = rw (lookup-at_offset s, get_cell) refl

    pub insert_cell-absent :
        insert_cell (wrap low ++ wrap high) (cell o size) ≡ at_offset (cell o size ∷ [])
    unfolding insert_cell
    insert_cell-absent =
        rw (lookup-absent, insert_cell)
          (insert-below low (wrap high) _ below
            ∙ ap (λ m. wrap low ++ m) (insert-Above high _ above))

    pub insert_cell-at_offset :
        (s : CellSet)
        → find_cell s (cell o size) ≡ none
        → insert_cell (at_offset s) (cell o size) ≡ at_offset (put_cell s (cell o size))
    unfolding insert_cell
    insert_cell-at_offset s e = rw (lookup-at_offset s, e, insert_cell) (replace s _)

    pub remove_cell-only :
        remove_cell (at_offset (cell o size ∷ [])) (cell o size) ≡ wrap low ++ wrap high
    unfolding remove_cell find_cell erase_cell cell_lt
    remove_cell-only =
        rw (lookup-at_offset (cell o size ∷ []), remove_cell)
          (ground (
            arith,
            remove-below low ((o, cell o size ∷ []) ∷ wrap high) below,
            remove-here (cell o size ∷ []) (wrap high),
          ))

    pub remove_cell-at_offset :
        (s : CellSet) (x d : Cell) (rest : CellSet)
        → find_cell s (cell o size) ≡ some x
        → erase_cell s (cell o size) ≡ d ∷ rest
        → remove_cell (at_offset s) (cell o size) ≡ at_offset (d ∷ rest)
    unfolding remove_cell
    remove_cell-at_offset s x d rest e f =
        rw (lookup-at_offset s, e, f, remove_cell) (replace s (d ∷ rest))
