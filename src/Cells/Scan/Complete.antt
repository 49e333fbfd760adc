-- ===== src/Cells/Scan/Complete.antt =====
-- `get_overlap_cells` of src/crab/array_domain.cpp over cells that have no byte in common.
use ebpf_verifier.Base.{
  ℕ, List, [], ◌∷◌, ◌≡◌, refl, ap, ◌∙◌, Bool, true, false, not, ◌&&◌, ◌||◌, All, arith, inl, inr,
  Bool-cases,
}
use ebpf_verifier.Cells.{Cell, cell, overlap, CellSet}
use ebpf_verifier.Cells.Overlap.{Fits}
use ebpf_verifier.Cells.Scan.{scan_backward, scan_forward, scan_rest, collect}
use ebpf_verifier.Cells.Scan.Sets.{same, member, FitsCell, any_overlap, in_sets}
use ebpf_verifier.Cells.Scan.Loops.{scan_backward_lem, scan_forward_lem, scan_rest_lem}
use ebpf_verifier.Cells.Scan.Keys.{
  wrap, Below, Above, reversed, at_offset, lower_bound-below, upper_bound-below, before-below,
  lower_bound-here, upper_bound-here, before-here,
}
use ebpf_verifier.Cells.Scan.Disjoint.{
  Apart, in_sets-wrap, in_sets-reversed, AllFit-wrap, AllFit-reversed, StopsWell-wrap,
  StopsWell-reversed,
}

module _ (o size : ℕ) (range : Fits o size) (low high : List Cell) where
  module _ (below : Below o low) (above : Above o high) (p : Apart 0 low) (q : Apart 0 high) where
    collect-at_offset :
        (s : CellSet)
        → collect o size (cell o size) (at_offset o size low high below above s) ≡ (
            let found = scan_backward o size (cell o size) (s ∷ reversed low []) [] in
            let r = scan_forward o size (cell o size) (wrap high) found in
            scan_rest o size (cell o size) r.1 r.0)
    unfolding collect
    collect-at_offset s =
        rw
          (
            lower_bound-below o low ((o, s) ∷ wrap high) below,
            lower_bound-here o s (wrap high),
            before-below o low ((o, s) ∷ wrap high) [] below,
            before-here o s (wrap high) (reversed low []),
            upper_bound-below o low ((o, s) ∷ wrap high) below,
            upper_bound-here o s high above,
            collect,
          )
          refl

    not-same-Above :
        (cells : List Cell) (c : Cell)
        → Above o cells
        → member cells c ≡ true
        → not (same c (cell o size)) ≡ true
    unfolding member
    not-same-Above [] c h e = absurd (ground arith)
    not-same-Above (x ∷ cells) c h e = elim (Bool-cases (same x c)) [
      | inl f ↦ ground (arith, h.0)
      | inr f ↦ not-same-Above cells c h.1 (ground arith)
    ]

    -- The cells that are found, where the set at the offset has the range itself.
    pub collect_lem :
        (s : CellSet)
        → All FitsCell s
        → any_overlap s o size ≡ true
        → (c : Cell)
        → member (collect o size (cell o size) (at_offset o size low high below above s)) c ≡ (
            (member low c || (member s c || member high c))
            && (overlap c o size && not (same c (cell o size))))
    unfolding in_sets member
    collect_lem s fit here c =
        let back =
          scan_backward_lem o size (cell o size) range (s ∷ reversed low []) []
            (fit, AllFit-reversed 0 low [] p tt)
            (
              (λ e. absurd (ground arith)),
              StopsWell-reversed o size range 0 low [] below p tt (λ e. tt),
            )
            tt in
        let (forth, more, passed) =
          scan_forward_lem o size (cell o size) range (wrap high)
            (scan_backward o size (cell o size) (s ∷ reversed low []) []) (AllFit-wrap 0 high q)
            (StopsWell-wrap o size range 0 high above q) back.0 in
        let found = scan_backward o size (cell o size) (s ∷ reversed low []) [] in
        let third =
          scan_rest_lem o size (cell o size) range
            (scan_forward o size (cell o size) (wrap high) found).1
            (scan_forward o size (cell o size) (wrap high) found).0 more forth.0
            (λ d m e. forth.1 d ∙ rw (passed d m, e) (or_true (member found d))) in
        ap (λ l. member l c) (collect-at_offset s ∙ third)
        ∙ forth.1 c
        ∙ rw (back.1 c, in_sets-reversed low [] c, in_sets-wrap high c)
            (combine (member low c) (member s c) (member high c) (overlap c o size) _
              (not-same-Above high c above))
      where
        or_true : (a : Bool) → (a || true) ≡ true
        or_true a = ground arith

        combine :
            (l s h p q : Bool)
            → (h ≡ true → q ≡ true)
            → ((s || (l || false)) && (p && q) || h && (p && true)) ≡ ((l || (s || h)) && (p && q))
        combine l s true p q e = rw (e refl) (ground arith)
        combine l s false p q e = ground arith
