-- ===== src/Cells/Scan/Results.antt =====
-- The result of `get_overlap_cells` of src/crab/array_domain.cpp on cells that have no byte in common.
use ebpf_verifier.Base.{
  ℕ, List, [], ◌∷◌, ◌++◌, ◌≡◌, refl, sym, ◌∙◌, subst, Bool, true, false, not, ◌&&◌, ◌||◌, ◌==◌, All,
  none, some, arith, inl, inr, Bool-cases,
}
use ebpf_verifier.Cells.{
  Cell, cell, overlap, put_cell, CellSet, Bindings, get_cell, insert_cell, remove_cell,
}
use ebpf_verifier.Cells.Overlap.{Fits}
use ebpf_verifier.Cells.Scan.{collect, get_overlap_cells}
use ebpf_verifier.Cells.Scan.Sets.{same, member, FitsCell, any_overlap}
use ebpf_verifier.Cells.Scan.Keys.{
  wrap, Below, Above, at_offset, get_cell-absent, get_cell-at_offset, insert_cell-absent,
  insert_cell-at_offset, remove_cell-only, remove_cell-at_offset,
}
use ebpf_verifier.Cells.Scan.Disjoint.{Apart, divide}
use ebpf_verifier.Cells.Scan.Complete.{collect_lem}
use ebpf_verifier.Cells.Scan.Pairs.{
  wrap-append, member-append_list, overlap_self, only_self, self_dropped, find_self, find_other,
  put_other,
}

abbrev pub result_of : Bindings → ℕ → ℕ → List Cell × Bindings
result_of map o size =
    let added = insert_cell map (cell o size) in
    (collect o size (cell o size) added, remove_cell added (cell o size))

get_overlap_cells-new :
    (map : Bindings) (o size : ℕ)
    → get_cell map o size ≡ none
    → get_overlap_cells map o size ≡ result_of map o size
unfolding get_overlap_cells
get_overlap_cells-new map o size e = rw (e, get_overlap_cells) refl

get_overlap_cells-old :
    (map : Bindings) (o size : ℕ) (c : Cell)
    → get_cell map o size ≡ some c
    → get_overlap_cells map o size ≡ (collect o size c map, map)
unfolding get_overlap_cells
get_overlap_cells-old map o size c e = rw (e, get_overlap_cells) refl

abbrev pub IsResult : ℕ → ℕ → List Cell → List Cell × Bindings → Type 0
IsResult o size cells (found, map) =
    ((c : Cell)
      → member found c ≡ (member cells c && (overlap c o size && not (same c (cell o size)))))
    × (map ≡ wrap cells)

module _ (o size : ℕ) (range : Fits o size) (low high : List Cell) where
  module _ (below : Below o low) (above : Above o high) (p : Apart 0 low) (q : Apart 0 high) where
    here_overlaps : (s : CellSet) → member s (cell o size) ≡ true → any_overlap s o size ≡ true
    unfolding member any_overlap
    here_overlaps [] e = absurd (ground arith)
    here_overlaps (x ∷ s) e = elim (Bool-cases (same x (cell o size))) [
      | inl f ↦ let g : x ≡ cell o size = ground arith in rw (g, overlap_self o size range) refl
      | inr f ↦ rw (here_overlaps s (ground arith)) (or_true (overlap x o size))
    ]
      where
        or_true : (a : Bool) → (a || true) ≡ true
        or_true a = ground arith

    -- The set at the offset has the range and, apart from it, the cells that were there.
    IsResult-at :
        (here s : List Cell)
        → All FitsCell s
        → member s (cell o size) ≡ true
        → ((c : Cell)
            → (member s c && not (same c (cell o size)))
              ≡ (member here c && not (same c (cell o size))))
        → IsResult o size (low ++ (here ++ high)) (
          collect o size (cell o size) (at_offset o size low high below above s),
          wrap (low ++ (here ++ high)),
        )
    IsResult-at here s fit has old = (
      λ c.
          collect_lem o size range low high below above p q s fit (here_overlaps s has) c
          ∙ rw (member-append_list low (here ++ high) c, member-append_list here high c)
              (same_others (member low c) (member s c) (member here c) (member high c)
                (overlap c o size) _ (old c)),
      refl,
    )
      where
        same_others :
            (l s t h p q : Bool)
            → (s && q) ≡ (t && q)
            → ((l || (s || h)) && (p && q)) ≡ ((l || (t || h)) && (p && q))
        same_others l s t h p q e = ground arith

    IsResult-absent : IsResult o size (low ++ high) (get_overlap_cells (wrap (low ++ high)) o size)
    IsResult-absent =
        subst (IsResult o size (low ++ high)) (sym run)
          (IsResult-at [] (cell o size ∷ []) (range, tt) (only_self o size) (self_dropped o size))
      where
        run : get_overlap_cells (wrap (low ++ high)) o size ≡ (
          collect o size (cell o size) (at_offset o size low high below above (cell o size ∷ [])),
          wrap (low ++ high),
        )
        run =
            rw
              (
                wrap-append low high,
                get_overlap_cells-new (wrap low ++ wrap high) o size
                    (get_cell-absent o size low high below above),
                insert_cell-absent o size low high below above,
                remove_cell-only o size low high below above,
              )
              refl

    IsResult-present :
        IsResult o size
          (low ++ cell o size ∷ high)
          (get_overlap_cells (wrap (low ++ cell o size ∷ high)) o size)
    IsResult-present = subst (IsResult o size (low ++ cell o size ∷ high)) (sym run) (
        IsResult-at (cell o size ∷ []) (cell o size ∷ []) (range, tt) (only_self o size)
          (λ c. refl))
      where
        run : get_overlap_cells (wrap (low ++ cell o size ∷ high)) o size ≡ (
          collect o size (cell o size) (at_offset o size low high below above (cell o size ∷ [])),
          wrap (low ++ cell o size ∷ high),
        )
        run =
            rw
              (
                wrap-append low (cell o size ∷ high),
                get_overlap_cells-old (at_offset o size low high below above (cell o size ∷ [])) o
                    size (cell o size)
                    (get_cell-at_offset o size low high below above (cell o size ∷ [])
                      ∙ find_self o size),
              )
              refl

    IsResult-other :
        (n : ℕ)
        → Fits o n
        → (n == size) ≡ false
        → IsResult o size
            (low ++ cell o n ∷ high)
            (get_overlap_cells (wrap (low ++ cell o n ∷ high)) o size)
    unfolding member
    IsResult-other n fits e =
        let (find, erase, mem, fit) = put_other o n size range fits e in
        let s = put_cell (cell o n ∷ []) (cell o size) in
        let absent = find_other o n size e in
        let run : get_overlap_cells (wrap (low ++ cell o n ∷ high)) o size ≡ (
          collect o size (cell o size) (at_offset o size low high below above s),
          wrap (low ++ cell o n ∷ high),
        ) =
          rw
            (
              wrap-append low (cell o n ∷ high),
              get_overlap_cells-new (at_offset o size low high below above (cell o n ∷ [])) o size
                  (get_cell-at_offset o size low high below above (cell o n ∷ []) ∙ absent),
              insert_cell-at_offset o size low high below above (cell o n ∷ []) absent,
              remove_cell-at_offset o size low high below above s (cell o size) (cell o n) [] find
                  erase,
            )
            refl in
        subst (IsResult o size (low ++ cell o n ∷ high)) (sym run) (
          IsResult-at (cell o n ∷ []) s fit (mem (cell o size) ∙ ground arith)
            (λ c. rw (mem c) (ground arith)))

-- Where the cells of a map have no byte in common, one at each offset and all below 2^31, a cell is
-- in the result of `get_overlap_cells` for a range of at least one byte below 2^31 exactly where it
-- is a cell of the map that overlaps the range and is not the cell of the range itself; the map is
-- left as it was.
pub get_overlap_cells-IsResult :
    (cells : List Cell) (o size : ℕ)
    → Apart 0 cells
    → Fits o size
    → IsResult o size cells (get_overlap_cells (wrap cells) o size)
get_overlap_cells-IsResult cells o size apart range =
    let d = divide o 0 cells apart in
    elim d.whole [
      | inl e ↦
          subst (λ l. IsResult o size l (get_overlap_cells (wrap l) o size)) (sym e)
            (IsResult-absent o size range d.low d.high d.below d.above d.low_apart d.high_apart)
      | inr (n, fits, e) ↦
          subst (λ l. IsResult o size l (get_overlap_cells (wrap l) o size)) (sym e)
            (elim (Bool-cases (n == size)) [
              | inl f ↦
                  let g : size ≡ n = ground arith in
                  subst
                    (λ m.
                      IsResult o size (d.low ++ cell o m ∷ d.high)
                        (get_overlap_cells (wrap (d.low ++ cell o m ∷ d.high)) o size))
                    g
                    (IsResult-present o size range d.low d.high d.below d.above d.low_apart
                      d.high_apart)
              | inr f ↦
                  IsResult-other o size range d.low d.high d.below d.above d.low_apart d.high_apart
                    n fits f
            ])
    ]
