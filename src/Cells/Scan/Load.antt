-- ===== src/Cells/Scan/Load.antt =====
-- The cells behind `array_domain_t::load` of src/crab/array_domain.cpp have no byte in common either.
use ebpf_verifier.Base.{
  ℕ, ◌+◌, ◌≤◌, List, [], ◌∷◌, ◌++◌, ◌≡◌, refl, ap, sym, ◌∙◌, subst, Bool, true, false, not, ◌&&◌,
  ◌||◌, ltb, ◌==◌, Option, none, some, arith, inl, inr, ◌⊎◌, Bool-cases,
}
use ebpf_verifier.Cells.{Cell, cell, overlap, Bindings, get_cell, insert_cell, mk_cell}
use ebpf_verifier.Cells.Overlap.{Fits, overlap_lem}
use ebpf_verifier.Cells.Scan.{get_overlap_cells, load_cell}
use ebpf_verifier.Cells.Scan.Sets.{same, member}
use ebpf_verifier.Cells.Scan.Keys.{
  wrap, Below, Above, at_offset, get_cell-absent, get_cell-at_offset, insert_cell-absent,
}
use ebpf_verifier.Cells.Scan.Disjoint.{Apart, divide}
use ebpf_verifier.Cells.Scan.Pairs.{wrap-append, member-append_list, find_self}
use ebpf_verifier.Cells.Scan.Results.{IsResult, get_overlap_cells-IsResult}

-- The map behind has the cells of before, and the cell of the range if it is read.
abbrev pub Loaded : ℕ → ℕ → List Cell → Option Cell × Bindings → Type 0
Loaded o size cells (read, map) =
    (after : List Cell) × (map ≡ wrap after)
    × Apart 0 after
    × ((read ≡ none) × (after ≡ cells)
        ⊎ (read ≡ some (cell o size))
          × ((c : Cell) → member after c ≡ (member cells c || same (cell o size) c)))

mk_cell-new :
    (map : Bindings) (o size : ℕ)
    → get_cell map o size ≡ none
    → mk_cell map o size ≡ (cell o size, insert_cell map (cell o size))
unfolding mk_cell
mk_cell-new map o size e = rw (e, mk_cell) refl

mk_cell-old :
    (map : Bindings) (o size : ℕ) (c : Cell)
    → get_cell map o size ≡ some c
    → mk_cell map o size ≡ (c, map)
unfolding mk_cell
mk_cell-old map o size c e = rw (e, mk_cell) refl

same_self : (x : Cell) → same x x ≡ true
same_self x = ground arith

module _ (o size : ℕ) (range : Fits o size) where
  -- Nothing but the cell of the range overlaps.
  abbrev Alone : List Cell → Type 0
  Alone cells =
      (c : Cell) → (member cells c && (overlap c o size && not (same c (cell o size)))) ≡ false

  Alone-first :
      (x : Cell) (cells : List Cell)
      → Alone (x ∷ cells)
      → (overlap x o size && not (same x (cell o size))) ≡ false
  unfolding member
  Alone-first x cells h = let e = same_self x in let k = h x in ground arith

  Alone-rest : (x : Cell) (cells : List Cell) → Alone (x ∷ cells) → Alone cells
  unfolding member
  Alone-rest x cells h c = let k = h c in ground arith

  -- The cell of the range put behind the cells in front of it.
  Apart-high : (high : List Cell) → Above o high → Apart 0 high → Alone high → Apart (o + size) high
  Apart-high [] a k h = tt
  Apart-high (x ∷ high) a (p, fits, k) h = (beyond, fits, k)
    where
      beyond : o + size ≤ x.offset
      beyond =
          let e = overlap_lem x o size fits range in
          let f = Alone-first x high h in
          let g : (overlap x o size) ≡ false = ground (arith, a.0) in
          let q : (ltb x.offset (o + size) && ltb o (x.offset + x.size)) ≡ false = sym e ∙ g in
          ground (arith, a.0)

  joined :
      (b : ℕ) (low high : List Cell)
      → b ≤ o
      → Below o low
      → Apart b low
      → Alone low
      → Apart (o + size) high
      → Apart b (low ++ cell o size ∷ high)
  joined b [] high e below k alone above = (e, range, above)
  joined b (x ∷ low) high e below (p, fits, k) alone above =
      (p, fits, joined (x.offset + x.size) low high ended below.1 k (Alone-rest x low alone) above)
    where
      ended : x.offset + x.size ≤ o
      ended =
          let h = overlap_lem x o size fits range in
          let f = Alone-first x low alone in
          let g : (overlap x o size) ≡ false = ground (arith, below.0) in
          let q : (ltb x.offset (o + size) && ltb o (x.offset + x.size)) ≡ false = sym h ∙ g in
          ground (arith, below.0)

  Alone-low : (low high : List Cell) → Alone (low ++ high) → Alone low
  Alone-low low high h c =
      let k =
        sym (
          ap (λ b. b && (overlap c o size && not (same c (cell o size))))
            (member-append_list low high c))
        ∙ h c in
      left (member low c) (member high c) _ k
    where
      left : (a b p : Bool) → ((a || b) && p) ≡ false → (a && p) ≡ false
      left a b p e = ground arith

  Alone-high : (low high : List Cell) → Alone (low ++ high) → Alone high
  Alone-high low high h c =
      let k =
        sym (
          ap (λ b. b && (overlap c o size && not (same c (cell o size))))
            (member-append_list low high c))
        ∙ h c in
      right (member low c) (member high c) _ k
    where
      right : (a b p : Bool) → ((a || b) && p) ≡ false → (b && p) ≡ false
      right a b p e = ground arith

  abbrev made : Bindings → Option Cell × Bindings
  made map = (some (mk_cell map o size).0, (mk_cell map o size).1)

  module _ (low high : List Cell) (below : Below o low) (above : Above o high) (p : Apart 0 low)
      (q : Apart 0 high) where
    made_absent : Alone (low ++ high) → Loaded o size (low ++ high) (made (wrap (low ++ high)))
    unfolding member
    made_absent alone =
        rw
          (
            wrap-append low high,
            mk_cell-new (wrap low ++ wrap high) o size
                (get_cell-absent o size low high below above),
            insert_cell-absent o size low high below above,
          )
          (
            low ++ cell o size ∷ high,
            sym (wrap-append low (cell o size ∷ high)),
            joined 0 low high (omega arith) below p (Alone-low low high alone)
                (Apart-high high above q (Alone-high low high alone)),
            inr (
              refl,
              λ c.
                  rw (member-append_list low (cell o size ∷ high) c, member-append_list low high c)
                    (ground arith),
            ),
          )

    made_present :
        Apart 0 (low ++ cell o size ∷ high)
        → Loaded o size (low ++ cell o size ∷ high) (made (wrap (low ++ cell o size ∷ high)))
    unfolding member
    made_present apart =
        rw
          (
            wrap-append low (cell o size ∷ high),
            mk_cell-old (at_offset o size low high below above (cell o size ∷ [])) o size
                (cell o size)
                (get_cell-at_offset o size low high below above (cell o size ∷ [])
                  ∙ find_self o size),
          )
          (
            low ++ cell o size ∷ high,
            sym (wrap-append low (cell o size ∷ high)),
            apart,
            inr (refl, λ c. rw (member-append_list low (cell o size ∷ high) c) (ground arith)),
          )

    not_other : (n : ℕ) → Fits o n → (n == size) ≡ false → Alone (low ++ cell o n ∷ high) → ⊥
    unfolding member
    not_other n fits e alone =
        let h = Alone-first (cell o n) high (Alone-high low (cell o n ∷ high) alone) in
        let k = overlap_lem (cell o n) o size fits range in ground arith

  made_lem :
      (cells : List Cell) → Apart 0 cells → Alone cells → Loaded o size cells (made (wrap cells))
  made_lem cells apart alone =
      let d = divide o 0 cells apart in
      elim d.whole [
        | inl e ↦
            subst (λ l. Loaded o size l (made (wrap l))) (sym e)
              (made_absent d.low d.high d.below d.above d.low_apart d.high_apart
                (subst Alone e alone))
        | inr (n, fits, e) ↦ elim (Bool-cases (n == size)) [
          | inl f ↦
              let g : n ≡ size = ground arith in
              let e' : cells ≡ d.low ++ cell o size ∷ d.high =
                e ∙ ap (λ m. d.low ++ cell o m ∷ d.high) g in
              subst (λ l. Loaded o size l (made (wrap l))) (sym e')
                (made_present d.low d.high d.below d.above d.low_apart d.high_apart
                  (subst (Apart 0) e' apart))
          | inr f ↦ absurd (
              not_other d.low d.high d.below d.above d.low_apart d.high_apart n fits f
                (subst Alone e alone))
        ]
      ]

-- Where the cells of a map have no byte in common, one at each offset and all below 2^31, for a
-- range of at least one byte below 2^31, a load from a constant offset leaves a map in which again
-- no cells have a byte in common. Either it reads from no cell and the map is left as it was, or it
-- reads from the cell of the range, which is the only one that is new, if it was not there before.
pub load_cell_lem :
    (cells : List Cell) (o size : ℕ)
    → Apart 0 cells
    → Fits o size
    → Loaded o size cells (load_cell (wrap cells) o size)
unfolding load_cell member
load_cell_lem cells o size apart range =
    after_scan (get_overlap_cells (wrap cells) o size)
      (get_overlap_cells-IsResult cells o size apart range)
  where
    read : List Cell × Bindings → Option Cell × Bindings
    read (found, kept) = elim found [
      | [] ↦ (some (mk_cell kept o size).0, (mk_cell kept o size).1)
      | x ∷ rest ↦ (none, kept)
    ]

    after_scan : (r : List Cell × Bindings) → IsResult o size cells r → Loaded o size cells (read r)
    after_scan ([], kept) (h, e) = rw e (made_lem o size range cells apart (λ c. sym (h c)))
    after_scan (x ∷ rest, kept) (h, e) = (cells, e, apart, inl (refl, refl))
