-- ===== src/Cells/Scan/Loops.antt =====
-- The three loops of `get_overlap_cells` in src/crab/array_domain.cpp over the sets of a map.
use ebpf_verifier.Base.{
  ℕ, List, [], ◌∷◌, ◌≡◌, refl, ap, ◌∙◌, Bool, true, false, not, ◌&&◌, ◌||◌, if◌then◌else◌, All,
  arith, inl, inr, Bool-cases,
}
use ebpf_verifier.Cells.{Cell, cell_eq, overlap, CellSet, Bindings}
use ebpf_verifier.Cells.Scan.{
  has_cell, push_new, visit_backward, scan_backward, visit_forward, scan_forward, visit_rest,
  scan_rest,
}
use ebpf_verifier.Cells.Scan.Sets.{
  same, member, FitsCell, has_cell-member, any_overlap, in_sets, AllFit, StopsWell,
  found_nothing_in, Found, then_lem, others, visit_backward_lem, visit_forward_lem,
}

abbrev pub sets_of : Bindings → List CellSet
sets_of [] = []
sets_of ((k, cells) ∷ map) = cells ∷ sets_of map

same_refl : (x : Cell) → same x x ≡ true
same_refl x = ground arith

push_nothing :
    (out : List Cell) (x : Cell) (b : Bool)
    → (b ≡ true → has_cell out x ≡ true)
    → (if b then push_new out x else out) ≡ out
unfolding push_new
push_nothing out x true h = rw (h refl) refl
push_nothing out x false h = refl

module _ (o size : ℕ) where
  -- The loop ends at a set in which nothing overlaps: there is nothing in the others.
  stop_here :
      (keep : Cell → Bool) (cells : CellSet) (sets : List CellSet) (out result : List Cell)
      → All (λ s. any_overlap s o size ≡ false) sets
      → Found o size keep out (member cells) result
      → Found o size keep out (in_sets (cells ∷ sets)) result
  unfolding in_sets
  stop_here keep cells sets out result clear found = (
    found.0,
    λ c.
        let e = found_nothing_in o size sets c clear in
        found.1 c
        ∙ drop (member out c) (member cells c) (in_sets sets c) (overlap c o size) (keep c) e,
  )
    where
      drop :
          (a b s p q : Bool) → (s && p) ≡ false → (a || b && (p && q)) ≡ (a || (b || s) && (p && q))
      drop a b s p q e = ground arith

  module _ (self : Cell) (fits : FitsCell self) where
    pub scan_backward_lem :
        (sets : List CellSet) (out : List Cell)
        → AllFit sets
        → StopsWell o size sets
        → All FitsCell out
        → Found o size
            (others o size self fits)
            out
            (in_sets sets)
            (scan_backward o size self sets out)
    unfolding scan_backward in_sets
    scan_backward_lem [] out k w h = (h, λ c. ground arith)
    scan_backward_lem (cells ∷ sets) out k w h =
        let (found, more) = visit_backward_lem o size self fits cells out false k.0 h in
        elim (Bool-cases (any_overlap cells o size)) [
          | inl e ↦
              let go = more ∙ ap (λ b. b || false) e in
              let rest =
                scan_backward_lem sets (visit_backward o size self cells out false).0 k.1 w.1
                  found.0 in
              rw (go, scan_backward)
                (then_lem o size (others o size self fits) out _ _ (member cells) (in_sets sets)
                  (in_sets (cells ∷ sets)) found rest (λ c. refl))
          | inr e ↦
              let stop = more ∙ ap (λ b. b || false) e in
              rw (stop, scan_backward)
                (stop_here (others o size self fits) cells sets out _ (w.0 e) found)
        ]

    pub scan_forward_lem :
        (map : Bindings) (out : List Cell)
        → AllFit (sets_of map)
        → StopsWell o size (sets_of map)
        → All FitsCell out
        → Found o size (λ c. true) out (in_sets (sets_of map)) (scan_forward o size self map out).0
          × AllFit (sets_of (scan_forward o size self map out).1)
          × ((c : Cell)
              → in_sets (sets_of (scan_forward o size self map out).1) c ≡ true
              → in_sets (sets_of map) c ≡ true)
    unfolding scan_forward in_sets
    scan_forward_lem [] out k w h = ((h, λ c. ground arith), tt, λ c e. e)
    scan_forward_lem ((j, cells) ∷ map) out k w h =
        let (found, more) = visit_forward_lem o size self fits cells out false k.0 h in
        elim (Bool-cases (any_overlap cells o size)) [
          | inl e ↦
              let go = more ∙ ap (λ b. b || false) e in
              let (rest, fit, back) =
                scan_forward_lem map (visit_forward o size self cells out false).0 k.1 w.1
                  found.0 in
              rw (go, scan_forward)
                (
                  then_lem o size (λ c. true) out _ _ (member cells) (in_sets (sets_of map))
                      (in_sets (cells ∷ sets_of map)) found rest (λ c. refl),
                  (k.0, fit),
                  λ c. or_mono (member cells c) _ _ (back c),
                )
          | inr e ↦
              let stop = more ∙ ap (λ b. b || false) e in
              rw (stop, scan_forward)
                (
                  stop_here (λ c. true) cells (sets_of map) out _ (w.0 e) found,
                  tt,
                  λ c e. absurd (ground arith),
                )
        ]
      where
        or_mono : (a b c : Bool) → (b ≡ true → c ≡ true) → (a || b) ≡ true → (a || c) ≡ true
        or_mono true b c h e = refl
        or_mono false b c h e = h e

    -- Nothing is added where every cell that overlaps is there already.
    visit_rest_lem :
        (cells : CellSet) (out : List Cell) (more : Bool)
        → All FitsCell cells
        → All FitsCell out
        → ((c : Cell) → member cells c ≡ true → overlap c o size ≡ true → member out c ≡ true)
        → (visit_rest o size self cells out more).0 ≡ out
    unfolding visit_rest member
    visit_rest_lem [] out more k h there = refl
    visit_rest_lem (x ∷ cells) out more k h there =
        let b = not (cell_eq x self) && overlap x o size in
        ap (λ l. (visit_rest o size self cells l (b || more)).0)
          (push_nothing out x b
            (λ e. has_cell-member out x h k.0 ∙ there x (self_in x) (right _ _ e)))
        ∙ visit_rest_lem cells out (b || more) k.1 h rest
      where
        self_in : (y : Cell) → (same y y || member cells y) ≡ true
        self_in y = rw (same_refl y) refl

        right : (a b : Bool) → (a && b) ≡ true → b ≡ true
        right a b e = ground arith

        rest : (c : Cell) → member cells c ≡ true → overlap c o size ≡ true → member out c ≡ true
        rest c m p = there c (rw m (or_true (same x c))) p
          where
            or_true : (a : Bool) → (a || true) ≡ true
            or_true a = ground arith

    pub scan_rest_lem :
        (map : Bindings) (out : List Cell)
        → AllFit (sets_of map)
        → All FitsCell out
        → ((c : Cell)
            → in_sets (sets_of map) c ≡ true
            → overlap c o size ≡ true
            → member out c ≡ true)
        → scan_rest o size self map out ≡ out
    unfolding scan_rest in_sets
    scan_rest_lem [] out k h there = refl
    scan_rest_lem ((j, cells) ∷ map) out k h there =
        let first = visit_rest_lem cells out false k.0 h (λ c m p. there c (rw m refl) p) in
        elim (Bool-cases (visit_rest o size self cells out false).1) [
          | inl e ↦
              rw (e, scan_rest)
                (rw first (
                  scan_rest_lem map out k.1 h
                    (λ c m p. there c (rw m (or_true (member cells c))) p)))
          | inr e ↦ rw (e, scan_rest) first
        ]
      where
        or_true : (a : Bool) → (a || true) ≡ true
        or_true a = ground arith
