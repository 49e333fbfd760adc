-- ===== src/Fixpoint/Visits.antt =====
-- The visit of a vertex in src/crab/fwd_analyzer.cpp.
use ebpf_verifier.Base.{true, false, ◌≡◌, refl, ap, sym, ◌∙◌, subst, Bool, inl, inr, Bool-cases}
use ebpf_verifier.Asm.{Label, label_eq}
use ebpf_verifier.Cfg.{Cfg, has_label}
use ebpf_verifier.Cfg.Symmetric.{label_eq-eq}
use ebpf_verifier.Wto.Ordered.{IsEdge}
use ebpf_verifier.Fixpoint.{Domain, Table, Iterator, set_pre, set_skip, visit_vertex}
use ebpf_verifier.Fixpoint.Steps.{
  Settles, Settles-bind, Settles-map, InGraph, set_self, set_other, Filled-set, Present,
  Transformed, transform_to_post-Settles, Joined, join_all_prevs-Settles,
}
use ebpf_verifier.Fixpoint.Equations.{JoinOf-agree, Equation, Visited}

module _ {D S : Type 0} (dom : Domain D S) (g : Cfg)
    (closed : (p n : Label) → IsEdge g p n → InGraph g p) where
  abbrev pub awake : Table D → Table D → S → Iterator D S
  awake pre post store = record { pre = pre; post = post; skip = false; store = store }

  abbrev pub no_heads : Label → Bool
  no_heads k = false

  pub Present-set_pre :
      (n : Label) (d : D) (it : Iterator D S)
      → Present dom g closed it
      → Present dom g closed (set_pre dom g n d it)
  unfolding set_pre
  Present-set_pre n d it h = (Filled-set dom g closed it.pre n d h.0, h.1)

  -- A vertex without an edge to itself, other than the entry.
  module _ (C : Type 0) (n : Label) (i : InGraph g n) (alone : IsEdge g n n → ⊥)
      (inner : label_eq n g.entry ≡ false) where
    vertex-Visited :
        (it it' : Iterator D S) (d : D)
        → Joined dom g closed C n it.post d
        → it.skip ≡ false
        → Transformed dom g closed C n d (set_pre dom g n d it) it'
        → Visited dom g closed (label_eq n) no_heads it it'
    unfolding set_pre
    vertex-Visited it it' d (b, e, join) on (pres, skip, others, posts, present) = (
      skip ∙ on,
      (λ k h. (others k h, ap (λ (t : Table D). t k) pres ∙ set_other it.pre n k d h)),
      present,
      λ k h. subst (λ l. Equation dom g false it'.pre it'.post l) (label_eq-eq n k h) here,
    )
      where
        other : (p : Label) → has_label p b.prev ≡ true → label_eq n p ≡ false
        other p l = elim (Bool-cases (label_eq n p)) [
          | inl same ↦
              absurd (alone (subst (λ x. IsEdge g x n) (sym (label_eq-eq n p same)) (b, e, l)))
          | inr apart ↦ apart
        ]

        here : Equation dom g false it'.pre it'.post n
        here = (
          b,
          e,
          d,
          ap (λ (t : Table D). t n) pres ∙ set_self it.pre n d,
          (it.store, posts b e),
          (
            d,
            JoinOf-agree dom g it.post it'.post b.prev dom.bottom d (λ p l. others p (other p l))
                join,
            refl,
          ),
        )

    vertex_awake :
        (pre post : Table D) (store : S)
        → Present dom g closed (awake pre post store)
        → Settles C
            (Visited dom g closed (label_eq n) no_heads (awake pre post store))
            (visit_vertex dom g n (awake pre post store))
    unfolding visit_vertex set_skip
    vertex_awake pre post store h = rw inner (
        Settles-bind C (Joined dom g closed C n post)
          (Visited dom g closed (label_eq n) no_heads (awake pre post store)) _ _
          (join_all_prevs-Settles dom g closed C n (awake pre post store) i h)
          (λ d j.
            Settles-map C C
              (Transformed dom g closed C n d (set_pre dom g n d (awake pre post store)))
              (Visited dom g closed (label_eq n) no_heads (awake pre post store)) _ (λ c. c)
              (λ it' t. vertex-Visited (awake pre post store) it' d j refl t)
              (transform_to_post-Settles dom g closed C n d
                (set_pre dom g n d (awake pre post store)) i
                (Present-set_pre n d (awake pre post store) h))))

    pub visit_vertex-Settles :
        (it : Iterator D S)
        → it.skip ≡ false
        → Present dom g closed it
        → Settles C (Visited dom g closed (label_eq n) no_heads it) (visit_vertex dom g n it)
    visit_vertex-Settles it on h =
        subst
          (λ (j : Iterator D S).
            Settles C (Visited dom g closed (label_eq n) no_heads j) (visit_vertex dom g n j))
          (λ t. record { pre = it.pre; post = it.post; skip = sym on t; store = it.store })
          (vertex_awake it.pre it.post it.store h)
