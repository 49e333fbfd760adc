-- ===== src/Fixpoint/Loops.antt =====
-- The increasing and the decreasing iteration over a cycle in src/crab/fwd_analyzer.cpp.
use ebpf_verifier.Base.{
  ℕ, zero, suc, true, false, ◌≡◌, ap, sym, ◌∙◌, subst, Bool, ◌||◌, some, arith, inl, inr,
  Bool-cases,
}
use ebpf_verifier.Asm.{Label, label_eq}
use ebpf_verifier.Outcome.{Result}
use ebpf_verifier.Cfg.{Cfg, Block, find}
use ebpf_verifier.Cfg.Symmetric.{label_eq-eq}
use ebpf_verifier.Wto.Ordered.{IsEdge}
use ebpf_verifier.Fixpoint.{
  Domain, Table, Iterator, visit_block, set_pre, pass, increase, decrease, extrapolate, refine,
  next_iteration,
}
use ebpf_verifier.Fixpoint.Steps.{
  Settles, Settles-bind, InGraph, set_self, set_other, Present, Transformed,
  transform_to_post-Settles, Joined, join_all_prevs-Settles,
}
use ebpf_verifier.Fixpoint.Equations.{Equation, Agrees, Visited}
use ebpf_verifier.Fixpoint.Visits.{Present-set_pre}

module _ {D S : Type 0} (dom : Domain D S) (g : Cfg)
    (closed : (p n : Label) → IsEdge g p n → InGraph g p) (C : Type 0) (endless : C)
    (M H : Label → Bool) (head : Label) (i : InGraph g head) (free : M head ≡ false)
    (body : Iterator D S → Result (Iterator D S))
    (visits : (it : Iterator D S)
      → it.skip ≡ false
      → Present dom g closed it
      → Settles C (Visited dom g closed M H it) (body it))
    (origin : Iterator D S) where
  abbrev pub inside : Label → Bool
  inside k = label_eq head k || M k

  abbrev pub heads : Label → Bool
  heads k = label_eq head k || H k

  outside : (k : Label) → inside k ≡ false → (label_eq head k ≡ false) × (M k ≡ false)
  outside k h = ground arith

  abbrev Effect : D → Table D → Type 0
  Effect d post =
      (b : Block)
      → find head g.blocks ≡ some b
      → (s : S) × (post head ≡ some (visit_block dom g b.insts d s).0)

  -- Behind a pass from `pre`.
  abbrev AfterPass : D → Iterator D S → D × Iterator D S → Type 0
  AfterPass pre it r =
      (r.1.skip ≡ false)
      × Agrees dom g inside origin r.1
      × Present dom g closed r.1
      × (r.1.pre head ≡ it.pre head)
      × Effect pre r.1.post
      × Joined dom g closed C head r.1.post r.0
      × ((n : Label) → M n ≡ true → Equation dom g (H n) r.1.pre r.1.post n)

  pass_lem :
      (pre : D) (it : Iterator D S)
      → it.skip ≡ false
      → Agrees dom g inside origin it
      → Present dom g closed it
      → Settles C (AfterPass pre it) (pass dom g body head pre it)
  unfolding pass
  pass_lem pre it on agrees h =
      Settles-bind C (Transformed dom g closed C head pre it) (AfterPass pre it) _ _
        (transform_to_post-Settles dom g closed C head pre it i h)
        (λ it1 (pres, skip, others, posts, present).
          Settles-bind C (Visited dom g closed M H it1) (AfterPass pre it) _ _
            (visits it1 (skip ∙ on) present)
            (λ it2 (on2, same, present2, equations).
              Settles-bind C (Joined dom g closed C head it2.post) (AfterPass pre it) _ _
                (join_all_prevs-Settles dom g closed C head it2 i present2)
                (λ d joined. (
                  on2,
                  (λ k out. (
                    (same k (outside k out).1).0 ∙ others k (outside k out).0 ∙ (agrees k out).0,
                    (same k (outside k out).1).1
                        ∙ ap (λ (t : Table D). t k) pres
                        ∙ (agrees k out).1,
                  )),
                  present2,
                  (same head free).1 ∙ ap (λ (t : Table D). t head) pres,
                  (λ b e. (it.store, (same head free).0 ∙ posts b e)),
                  joined,
                  equations,
                ))))

  -- While the iterations run.
  abbrev pub Running : D × Iterator D S → Type 0
  Running (pre, it) =
      (it.skip ≡ false)
      × Agrees dom g inside origin it
      × Present dom g closed it
      × (it.pre head ≡ some pre)

  Agrees-set_pre :
      (d : D) (it : Iterator D S)
      → Agrees dom g inside origin it
      → Agrees dom g inside origin (set_pre dom g head d it)
  unfolding set_pre
  Agrees-set_pre d it h k out =
      ((h k out).0, set_other it.pre head k d (outside k out).0 ∙ (h k out).1)

  -- With the new value at the head the loop runs on.
  Running-set_pre :
      (d : D) (it : Iterator D S)
      → it.skip ≡ false
      → Agrees dom g inside origin it
      → Present dom g closed it
      → Running (d, set_pre dom g head d it)
  unfolding set_pre
  Running-set_pre d it on agrees h = (
    on,
    Agrees-set_pre d it agrees,
    Present-set_pre dom g closed head d it h,
    set_self it.pre head d,
  )

  pub increase-Settles :
      (fuel iteration : ℕ) (pre : D) (it : Iterator D S)
      → it.skip ≡ false
      → Agrees dom g inside origin it
      → Present dom g closed it
      → Settles C Running (increase dom g body head fuel iteration pre it)
  unfolding increase
  increase-Settles zero iteration pre it on agrees h = endless
  increase-Settles (suc fuel) iteration pre it on agrees h =
      let (on1, agrees1, h1, at_head) = Running-set_pre pre it on agrees h in
      Settles-bind C (AfterPass pre (set_pre dom g head pre it)) Running _ _
        (pass_lem pre (set_pre dom g head pre it) on1 agrees1 h1)
        (λ r a. elim (Bool-cases (dom.le r.0 pre)) [
          | inl below ↦ rw below (Running-set_pre r.0 r.1 a.0 a.1 a.2)
          | inr more ↦ rw more (
              increase-Settles fuel (next_iteration iteration) (extrapolate dom g iteration pre r.0)
                r.1 a.0 a.1 a.2)
        ])

  finished :
      (pre : D) (it : Iterator D S) (r : D × Iterator D S)
      → it.pre head ≡ some pre
      → dom.le pre r.0 ≡ true
      → AfterPass pre it r
      → Visited dom g closed inside heads origin r.1
  finished pre it r at_head below (on, agrees, h, same, effect, (b, e, join), equations) = (
    on,
    agrees,
    h,
    λ n m. elim (Bool-cases (label_eq head n)) [
      | inl p ↦
          subst (λ t. Equation dom g (t || H n) r.1.pre r.1.post n) (sym p)
            (subst (λ l. Equation dom g true r.1.pre r.1.post l) (label_eq-eq head n p)
              (b, e, pre, same ∙ at_head, effect b e, (r.0, join, below)))
      | inr p ↦
          subst (λ t. Equation dom g (t || H n) r.1.pre r.1.post n) (sym p)
            (equations n (rw p at m))
    ],
  )

  pub decrease-Settles :
      (fuel iteration : ℕ) (pre : D) (it : Iterator D S)
      → Running (pre, it)
      → Settles C
          (Visited dom g closed inside heads origin)
          (decrease dom g body head fuel iteration pre it)
  unfolding decrease
  decrease-Settles zero iteration pre it running = endless
  decrease-Settles (suc fuel) iteration pre it (on, agrees, h, at_head) =
      Settles-bind C (AfterPass pre it) (Visited dom g closed inside heads origin) _ _
        (pass_lem pre it on agrees h)
        (λ r a. elim (Bool-cases (dom.le pre r.0)) [
          | inl below ↦ rw below (finished pre it r at_head below a)
          | inr more ↦ rw more (
              decrease-Settles fuel (next_iteration iteration) (refine dom g iteration pre r.0)
                (set_pre dom g head (refine dom g iteration pre r.0) r.1)
                (Running-set_pre (refine dom g iteration pre r.0) r.1 a.0 a.1 a.2))
        ])
