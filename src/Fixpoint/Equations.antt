-- ===== src/Fixpoint/Equations.antt =====
-- The equations between the tables of src/crab/fwd_analyzer.cpp before and behind the blocks, and the
-- visits that make them hold.
use ebpf_verifier.Base.{
  true, false, ◌≡◌, ap, sym, ◌∙◌, subst, inl, inr, Bool-cases, Bool, ◌||◌, some, List, [], ◌∷◌,
  arith,
}
use ebpf_verifier.Asm.{Label, label_eq}
use ebpf_verifier.Cfg.{Cfg, Block, find, has_label}
use ebpf_verifier.Wto.Ordered.{IsEdge}
use ebpf_verifier.Fixpoint.{Domain, Table, Iterator, visit_block}
use ebpf_verifier.Fixpoint.Steps.{InGraph, Present, JoinOf}

module _ {D S : Type 0} (dom : Domain D S) (g : Cfg) where
  pub JoinOf-agree :
      (post post' : Table D) (labels : List Label) (res r : D)
      → ((p : Label) → has_label p labels ≡ true → post' p ≡ post p)
      → JoinOf dom post labels res r
      → JoinOf dom post' labels res r
  unfolding has_label
  JoinOf-agree post post' [] res r h k = k
  JoinOf-agree post post' (p ∷ labels) res r h (d, e, k) = (
    d,
    h p (ground arith) ∙ e,
    JoinOf-agree post post' labels (dom.join res d) r (λ q l. h q (either q l)) k,
  )
    where
      either : (q : Label) → has_label q labels ≡ true → (label_eq p q || has_label q labels) ≡ true
      either q l = ground arith

  -- The value before a block is the join of the values behind its predecessors; at the head of a
  -- cycle, where the iteration stops, it is below this join.
  abbrev pub Stable : Bool → D → D → Type 0
  Stable false d r = r ≡ d
  Stable true d r = dom.le d r ≡ true

  -- The value behind the block is the effect of the block, from some content of the global array
  -- map, on the value before it.
  abbrev pub Equation : Bool → Table D → Table D → Label → Type 0
  Equation head pre post n =
      (b : Block) × (find n g.blocks ≡ some b)
      × (d : D) × (pre n ≡ some d)
      × ((s : S) × (post n ≡ some (visit_block dom g b.insts d s).0))
      × ((r : D) × JoinOf dom post b.prev dom.bottom r × Stable head d r)

  Equation-later :
      (head : Bool) (pre post pre' post' : Table D) (n : Label)
      → pre' n ≡ pre n
      → post' n ≡ post n
      → ((p : Label) → IsEdge g p n → post' p ≡ post p)
      → Equation head pre post n
      → Equation head pre' post' n
  Equation-later head pre post pre' post' n q w h
        (b, e, d, at_pre, (s, at_post), (r, join, stable)) =
      (
        b,
        e,
        d,
        q ∙ at_pre,
        (s, w ∙ at_post),
        (r, JoinOf-agree post post' b.prev dom.bottom r (λ p l. h p (b, e, l)) join, stable),
      )

  -- Outside a set the tables are as before.
  abbrev pub Agrees : (Label → Bool) → Iterator D S → Iterator D S → Type 0
  Agrees M it it' = (k : Label) → M k ≡ false → (it'.post k ≡ it.post k) × (it'.pre k ≡ it.pre k)

  module _ (closed : (p n : Label) → IsEdge g p n → InGraph g p) where
    -- The labels of `M`, among them the heads `H`, have been visited.
    abbrev pub Visited : (Label → Bool) → (Label → Bool) → Iterator D S → Iterator D S → Type 0
    Visited M H it it' =
        (it'.skip ≡ false)
        × Agrees M it it'
        × Present dom g closed it'
        × ((n : Label) → M n ≡ true → Equation (H n) it'.pre it'.post n)

    -- One visit after another: no edge leads back from the second set to the first.
    module _ (M H N K : Label → Bool) (it it1 it2 : Iterator D S) (first : Visited M H it it1)
        (second : Visited N K it1 it2) (apart : (n : Label) → M n ≡ true → N n ≡ false)
        (forward : (p n : Label) → M n ≡ true → N p ≡ true → IsEdge g p n → ⊥)
        (heads : (n : Label) → M n ≡ false → H n ≡ false)
        (heads' : (n : Label) → N n ≡ false → K n ≡ false) where
      outside : (k : Label) → (M k || N k) ≡ false → (M k ≡ false) × (N k ≡ false)
      outside k h = ground arith

      or_false : (a : Bool) → (a || false) ≡ a
      or_false a = ground arith

      pub Visited-both : Visited (λ k. M k || N k) (λ k. H k || K k) it it2
      Visited-both = (
        second.0,
        (λ k h. (
          (second.1 k (outside k h).1).0 ∙ (first.1 k (outside k h).0).0,
          (second.1 k (outside k h).1).1 ∙ (first.1 k (outside k h).0).1,
        )),
        second.2,
        λ n h. elim (Bool-cases (M n)) [
          | inl m ↦
              let (w, q) = second.1 n (apart n m) in
              subst (λ t. Equation t it2.pre it2.post n)
                (sym (ap (λ t. H n || t) (heads' n (apart n m)) ∙ or_false (H n)))
                (Equation-later (H n) it1.pre it1.post it2.pre it2.post n q w
                  (λ p edge. elim (Bool-cases (N p)) [
                    | inl e ↦ absurd (forward p n m e edge)
                    | inr e ↦ (second.1 p e).0
                  ])
                  (first.3 n m))
          | inr m ↦
              subst (λ t. Equation t it2.pre it2.post n) (ap (λ t. t || K n) (sym (heads n m)))
                (second.3 n (rw m at h))
        ],
      )
