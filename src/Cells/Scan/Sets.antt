-- ===== src/Cells/Scan/Sets.antt =====
-- What one step of the loops of `get_overlap_cells` in src/crab/array_domain.cpp finds.
use ebpf_verifier.Base.{
  ℕ, List, [], ◌∷◌, ◌++◌, ◌≡◌, refl, ap, sym, ◌∙◌, Bool, true, false, not, ◌&&◌, ◌||◌, ◌==◌,
  if◌then◌else◌, All, arith, inl, inr, Bool-cases,
}
use ebpf_verifier.Cells.{Cell, cell_eq, overlap, CellSet}
use ebpf_verifier.Cells.Overlap.{Fits, cell_eq_lem}
use ebpf_verifier.Cells.Scan.{has_cell, push_new, visit_backward, visit_forward}

abbrev pub same : Cell → Cell → Bool
same c d = c.offset == d.offset && c.size == d.size

-- Whether a cell is in a list.
unfoldable pub member : List Cell → Cell → Bool
member [] c = false
member (x ∷ cells) c = same x c || member cells c

abbrev pub FitsCell : Cell → Type 0
FitsCell c = Fits c.offset c.size

pub has_cell-member :
    (out : List Cell) (x : Cell) → All FitsCell out → FitsCell x → has_cell out x ≡ member out x
unfolding has_cell member
has_cell-member [] x h k = refl
has_cell-member (y ∷ out) x h k = rw (cell_eq_lem y x h.0 k, has_cell-member out x h.1 k) refl

member-append :
    (out : List Cell) (x c : Cell) → member (out ++ x ∷ []) c ≡ (member out c || same x c)
unfolding member
member-append [] x c = ground arith
member-append (y ∷ out) x c = ground (arith, member-append out x c)

All-append_one :
    (out : List Cell) (x : Cell) → All FitsCell out → FitsCell x → All FitsCell (out ++ x ∷ [])
All-append_one [] x h k = (k, tt)
All-append_one (y ∷ out) x h k = (h.0, All-append_one out x h.1 k)

pub same-eq : (c d : Cell) → same c d ≡ true → c ≡ d
same-eq c d h = ground arith

member-same :
    (out : List Cell) (x c : Cell) → member out x ≡ true → (member out c || same x c) ≡ member out c
member-same out x c h = elim (Bool-cases (same x c)) [
  | inl e ↦ rw (← same-eq x c e, h) refl
  | inr e ↦ rw e (ground arith)
]

push_new_lem :
    (out : List Cell) (x : Cell)
    → All FitsCell out
    → FitsCell x
    → All FitsCell (push_new out x)
      × ((c : Cell) → member (push_new out x) c ≡ (member out c || same x c))
unfolding push_new
push_new_lem out x h k = elim (Bool-cases (member out x)) [
  | inl e ↦ rw (has_cell-member out x h k, e) (h, λ c. sym (member-same out x c e))
  | inr e ↦ rw (has_cell-member out x h k, e) (All-append_one out x h k, λ c. member-append out x c)
]

-- Whether a cell of the set overlaps, and whether a cell is in one of the sets.
unfoldable pub any_overlap : CellSet → ℕ → ℕ → Bool
any_overlap [] o size = false
any_overlap (x ∷ cells) o size = overlap x o size || any_overlap cells o size

unfoldable pub in_sets : List CellSet → Cell → Bool
in_sets [] c = false
in_sets (cells ∷ sets) c = member cells c || in_sets sets c

abbrev pub AllFit : List CellSet → Type 0
AllFit sets = All (λ cells. All FitsCell cells) sets

-- From the first set on in which no cell overlaps, none does.
abbrev pub StopsWell : ℕ → ℕ → List CellSet → Type 0
StopsWell o size [] = Unit {0}
StopsWell o size (cells ∷ sets) =
    (any_overlap cells o size ≡ false → All (λ s. any_overlap s o size ≡ false) sets)
    × StopsWell o size sets

module _ (o size : ℕ) where
  found_nothing :
      (cells : CellSet) (c : Cell)
      → any_overlap cells o size ≡ false
      → (member cells c && overlap c o size) ≡ false
  unfolding member any_overlap
  found_nothing [] c h = refl
  found_nothing (x ∷ cells) c h = elim (Bool-cases (same x c)) [
    | inl e ↦ rw (← same-eq x c e) (ground arith)
    | inr e ↦ let k = found_nothing cells c (ground arith) in ground arith
  ]

  pub found_nothing_in :
      (sets : List CellSet) (c : Cell)
      → All (λ s. any_overlap s o size ≡ false) sets
      → (in_sets sets c && overlap c o size) ≡ false
  unfolding in_sets
  found_nothing_in [] c h = refl
  found_nothing_in (cells ∷ sets) c h =
      let p = found_nothing cells c h.0 in let q = found_nothing_in sets c h.1 in ground arith

  -- A step adds the cell where it overlaps, and is not the one that is left out.
  abbrev pub Found : (Cell → Bool) → List Cell → (Cell → Bool) → List Cell → Type 0
  Found keep out in_cells result =
      All FitsCell result
      × ((c : Cell)
          → member result c ≡ (member out c || in_cells c && (overlap c o size && keep c)))

  step_lem :
      (keep : Cell → Bool) (out : List Cell) (x : Cell) (b : Bool)
      → All FitsCell out
      → FitsCell x
      → b ≡ (overlap x o size && keep x)
      → Found keep out (same x) (if b then push_new out x else out)
  step_lem keep out x b h k eq = rw eq (elim (Bool-cases (overlap x o size && keep x)) [
    | inl e ↦
        let (fit, mem) = push_new_lem out x h k in
        rw e (
          fit,
          λ c. elim (Bool-cases (same x c)) [
            | inl p ↦ rw (mem c, ← same-eq x c p, e) (ground arith)
            | inr p ↦ rw (mem c, p) refl
          ],
        )
    | inr e ↦ rw e (
      h,
      λ c. elim (Bool-cases (same x c)) [
        | inl p ↦ rw (← same-eq x c p, e) (ground arith)
        | inr p ↦ rw p (ground arith)
      ],
    )
  ])

  pub then_lem :
      (keep : Cell → Bool) (out mid : List Cell) (result : List Cell) (p q r : Cell → Bool)
      → Found keep out p mid
      → Found keep mid q result
      → ((c : Cell) → (p c || q c) ≡ r c)
      → Found keep out r result
  then_lem keep out mid result p q r h k e = (k.0, λ c. rw (k.1 c, h.1 c, ← e c) (ground arith))

  abbrev pub in_pair : CellSet → Cell → Cell → Bool
  in_pair cells x c = same x c || member cells c

  module _ (self : Cell) (fits : FitsCell self) where
    -- All cells but the one of the range.
    abbrev pub others : Cell → Bool
    others c = not (same c self)

    or_turn : (a b c : Bool) → (a || (b || c)) ≡ ((b || a) || c)
    or_turn a b c = ground arith

    pub visit_backward_lem :
        (cells : CellSet) (out : List Cell) (more : Bool)
        → All FitsCell cells
        → All FitsCell out
        → Found others out (member cells) (visit_backward o size self cells out more).0
          × ((visit_backward o size self cells out more).1 ≡ (any_overlap cells o size || more))
    unfolding visit_backward any_overlap member
    visit_backward_lem [] out more k h = ((h, λ c. ground arith), refl)
    visit_backward_lem (x ∷ cells) out more k h =
        let b = overlap x o size && not (cell_eq x self) in
        let first =
          step_lem others out x b h k.0
            (ap (λ e. overlap x o size && not e) (cell_eq_lem x self k.0 fits)) in
        let mid = if b then push_new out x else out in
        let rest = visit_backward_lem cells mid (overlap x o size || more) k.1 first.0 in
        (
          then_lem others out mid _ (same x) (member cells) (in_pair cells x) first rest.0
              (λ c. refl),
          rest.1 ∙ or_turn (any_overlap cells o size) (overlap x o size) more,
        )

    pub visit_forward_lem :
        (cells : CellSet) (out : List Cell) (more : Bool)
        → All FitsCell cells
        → All FitsCell out
        → Found (λ c. true) out (member cells) (visit_forward o size self cells out more).0
          × ((visit_forward o size self cells out more).1 ≡ (any_overlap cells o size || more))
    unfolding visit_forward any_overlap member
    visit_forward_lem [] out more k h = ((h, λ c. ground arith), refl)
    visit_forward_lem (x ∷ cells) out more k h =
        let first =
          step_lem (λ c. true) out x (overlap x o size) h k.0 (and_true (overlap x o size)) in
        let mid = if overlap x o size then push_new out x else out in
        let rest = visit_forward_lem cells mid (overlap x o size || more) k.1 first.0 in
        (
          then_lem (λ c. true) out mid _ (same x) (member cells) (in_pair cells x) first rest.0
              (λ c. refl),
          rest.1 ∙ or_turn (any_overlap cells o size) (overlap x o size) more,
        )
      where
        and_true : (a : Bool) → a ≡ (a && true)
        and_true a = ground arith
