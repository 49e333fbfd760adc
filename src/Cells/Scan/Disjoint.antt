-- ===== src/Cells/Scan/Disjoint.antt =====
-- Cells of src/crab/array_domain.hpp that have no byte in common, one at an offset: the loops of
-- `get_overlap_cells` do not stop too early there.
use ebpf_verifier.Base.{
  ℕ, ◌+◌, ◌<◌, ◌≤◌, List, [], ◌∷◌, ◌++◌, ◌≡◌, refl, ap, sym, ◌∙◌, subst, false, ◌&&◌, ◌||◌, ltb,
  ◌==◌, All, arith, inl, inr, ◌⊎◌, Bool-cases,
}
use ebpf_verifier.Cells.{Cell, cell, CellSet}
use ebpf_verifier.Cells.Overlap.{Fits, overlap_lem}
use ebpf_verifier.Cells.Scan.Sets.{member, FitsCell, any_overlap, in_sets, AllFit, StopsWell}
use ebpf_verifier.Cells.Scan.Keys.{wrap, Below, Above, reversed}
use ebpf_verifier.Cells.Scan.Loops.{sets_of}

-- In ascending order from `b` on, without a byte in common.
abbrev pub Apart : ℕ → List Cell → Type 0
Apart b [] = Unit {0}
Apart b (c ∷ cells) = (b ≤ c.offset) × FitsCell c × Apart (c.offset + c.size) cells

pub Apart-lower : (b a : ℕ) (cells : List Cell) → a ≤ b → Apart b cells → Apart a cells
Apart-lower b a [] h k = tt
Apart-lower b a (c ∷ cells) h (p, fits, k) = (omega arith, fits, k)

pub in_sets-wrap :
    (cells : List Cell) (c : Cell) → in_sets (sets_of (wrap cells)) c ≡ member cells c
unfolding in_sets member
in_sets-wrap [] c = refl
in_sets-wrap (x ∷ cells) c = rw (in_sets-wrap cells c) (ground arith)

pub in_sets-reversed :
    (cells : List Cell) (sets : List CellSet) (c : Cell)
    → in_sets (reversed cells sets) c ≡ (member cells c || in_sets sets c)
unfolding in_sets member
in_sets-reversed [] sets c = refl
in_sets-reversed (x ∷ cells) sets c = rw (in_sets-reversed cells _ c) (ground arith)

pub AllFit-wrap : (b : ℕ) (cells : List Cell) → Apart b cells → AllFit (sets_of (wrap cells))
AllFit-wrap b [] h = tt
AllFit-wrap b (c ∷ cells) (p, fits, h) = ((fits, tt), AllFit-wrap (c.offset + c.size) cells h)

pub AllFit-reversed :
    (b : ℕ) (cells : List Cell) (sets : List CellSet)
    → Apart b cells
    → AllFit sets
    → AllFit (reversed cells sets)
AllFit-reversed b [] sets h k = k
AllFit-reversed b (c ∷ cells) sets (p, fits, h) k =
    AllFit-reversed (c.offset + c.size) cells _ h ((fits, tt), k)

module _ (o size : ℕ) (range : Fits o size) where
  abbrev pub NoOverlap : List CellSet → Type 0
  NoOverlap sets = All (λ s. any_overlap s o size ≡ false) sets

  any_overlap-one :
      (c : Cell)
      → FitsCell c
      → any_overlap (c ∷ []) o size ≡ (ltb c.offset (o + size) && ltb o (c.offset + c.size))
  unfolding any_overlap
  any_overlap-one c fits = rw (overlap_lem c o size fits range) (ground arith)

  clear_above :
      (b : ℕ) (cells : List Cell) → o + size ≤ b → Apart b cells → NoOverlap (sets_of (wrap cells))
  clear_above b [] h k = tt
  clear_above b (c ∷ cells) h (p, fits, k) =
      (any_overlap-one c fits ∙ ground arith, clear_above (c.offset + c.size) cells (omega arith) k)

  pub StopsWell-wrap :
      (b : ℕ) (cells : List Cell)
      → Above o cells
      → Apart b cells
      → StopsWell o size (sets_of (wrap cells))
  StopsWell-wrap b [] h k = tt
  StopsWell-wrap b (c ∷ cells) h (p, fits, k) = (
    (λ e.
        let f = sym (any_overlap-one c fits) ∙ e in
        clear_above (c.offset + c.size) cells (after h.0 fits f) k),
    StopsWell-wrap (c.offset + c.size) cells h.1 k,
  )
    where
      after :
          o < c.offset
          → FitsCell c
          → (ltb c.offset (o + size) && ltb o (c.offset + c.size)) ≡ false
          → o + size ≤ c.offset + c.size
      after q w e = ground arith

  pub StopsWell-reversed :
      (b : ℕ) (cells : List Cell) (sets : List CellSet)
      → Below o cells
      → Apart b cells
      → StopsWell o size sets
      → (b ≤ o → NoOverlap sets)
      → StopsWell o size (reversed cells sets)
  StopsWell-reversed b [] sets h k w early = w
  StopsWell-reversed b (c ∷ cells) sets h (p, fits, k) w early =
      StopsWell-reversed (c.offset + c.size) cells ((c ∷ []) ∷ sets) h.1 k
        ((λ e. early (omega (arith, h.0, p))), w)
        (λ e. (any_overlap-one c fits ∙ ended e, early (omega (arith, h.0, p))))
    where
      ended : c.offset + c.size ≤ o → (ltb c.offset (o + size) && ltb o (c.offset + c.size)) ≡ false
      ended e = ground arith

-- The cells in front of an offset, the cell there if there is one, and the cells behind it.
pub record Divided (o b : ℕ) (cells : List Cell) : Type 0 where
  pub low : List Cell
  pub high : List Cell
  pub below : Below o low
  pub above : Above o high
  pub low_apart : Apart b low
  pub high_apart : Apart 0 high
  pub whole : (cells ≡ low ++ high) ⊎ ((n : ℕ) × Fits o n × (cells ≡ low ++ cell o n ∷ high))

Above-Apart : (o b : ℕ) (cells : List Cell) → o < b → Apart b cells → Above o cells
Above-Apart o b [] h k = tt
Above-Apart o b (c ∷ cells) h (p, fits, k) =
    (omega arith, Above-Apart o (c.offset + c.size) cells (omega arith) k)

pub divide : (o b : ℕ) (cells : List Cell) → Apart b cells → Divided o b cells
divide o b [] k = record {
  low = [];
  high = [];
  below = tt;
  above = tt;
  low_apart = tt;
  high_apart = tt;
  whole = inl refl;
}
divide o b (c ∷ cells) (p, fits, k) =
    let rest = divide o (c.offset + c.size) cells k in
    elim (Bool-cases (ltb c.offset o)) [
      | inl e ↦ record {
        low = c ∷ rest.low;
        high = rest.high;
        below = (ground arith, rest.below);
        above = rest.above;
        low_apart = (p, fits, rest.low_apart);
        high_apart = rest.high_apart;
        whole = longer rest.low rest.high rest.whole;
      }
      | inr e ↦ elim (Bool-cases (c.offset == o)) [
        | inl f ↦
            let q : c.offset ≡ o = ground arith in
            record {
              low = [];
              high = cells;
              below = tt;
              above = Above-Apart o (c.offset + c.size) cells (omega (arith, q, fits.0)) k;
              low_apart = tt;
              high_apart = Apart-lower (c.offset + c.size) 0 cells (omega arith) k;
              whole =
                  inr
                    (c.size, subst (λ a. Fits a c.size) q fits, ap (λ a. cell a c.size ∷ cells) q);
            }
        | inr f ↦ record {
          low = [];
          high = c ∷ cells;
          below = tt;
          above = Above-Apart o c.offset (c ∷ cells) (ground arith) (omega arith, fits, k);
          low_apart = tt;
          high_apart = (omega arith, fits, k);
          whole = inl refl;
        }
      ]
    ]
  where
    longer :
        (low high : List Cell)
        → (cells ≡ low ++ high) ⊎ ((n : ℕ) × Fits o n × (cells ≡ low ++ cell o n ∷ high))
        → (c ∷ cells ≡ c ∷ low ++ high)
          ⊎ ((n : ℕ) × Fits o n × (c ∷ cells ≡ c ∷ low ++ cell o n ∷ high))
    longer low high (inl e) = inl (ap (λ l. c ∷ l) e)
    longer low high (inr (n, fit, e)) = inr (n, fit, ap (λ l. c ∷ l) e)
