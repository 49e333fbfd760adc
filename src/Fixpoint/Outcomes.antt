-- ===== src/Fixpoint/Outcomes.antt =====
-- How the analysis of src/crab/fwd_analyzer.cpp ends.
use ebpf_verifier.Base.{ℕ, true, false, ◌≡◌, some}
use ebpf_verifier.Asm.{Label, label_eq}
use ebpf_verifier.Cfg.{Cfg, Block, find}
use ebpf_verifier.Wto.{NestingTable, build_nesting, vertex, Components, cons, is_member_all}
use ebpf_verifier.Wto.Ordered.{IsEdge, AreOrdered}
use ebpf_verifier.Fixpoint.{Domain, Table, set, Iterator, visit_block, bottoms}
use ebpf_verifier.Fixpoint.Steps.{InGraph, Present}
use ebpf_verifier.Fixpoint.Equations.{Equation, Agrees}
use ebpf_verifier.Fixpoint.Solved.{is_head_all}

module _ {D S : Type 0} (dom : Domain D S) (g : Cfg)
    (closed : (p n : Label) → IsEdge g p n → InGraph g p) (entry : InGraph g g.entry) where
  -- Behind the visit of the entry, which comes first.
  abbrev Entered : D → Iterator D S → Iterator D S → Type 0
  Entered d it it' =
      (it'.skip ≡ false)
      × Present dom g closed it'
      × Agrees dom g (label_eq g.entry) it it'
      × (it'.pre g.entry ≡ some d)
      × ((b : Block)
          → find g.entry g.blocks ≡ some b
          → it'.post g.entry ≡ some (visit_block dom g b.insts d it.store).0)

  abbrev asleep : Table D → Table D → S → Iterator D S
  asleep pre post store = record { pre = pre; post = post; skip = true; store = store }

  module _ (fuel : ℕ) (rest : Components) (store : S) (absent : is_member_all g.entry rest ≡ false)
      (ordered : AreOrdered g rest)
      (blocks : (n : Label) → is_member_all n rest ≡ true → InGraph g n)
      (preds : (p n : Label)
        → IsEdge g p n
        → is_member_all n rest ≡ true
        → is_member_all p (cons (vertex g.entry) rest) ≡ true) where
    -- The entry has its own value and what its block makes of it, the labels of the components meet
    -- the equations, and the blocks that are in no component have bottom.
    abbrev pub IsSolution : Table D → Table D → Type 0
    IsSolution pre post =
        (pre g.entry ≡ some dom.setup_entry)
        × ((b : Block)
            → find g.entry g.blocks ≡ some b
            → post g.entry ≡ some (visit_block dom g b.insts dom.setup_entry store).0)
        × ((n : Label)
            → is_member_all n rest ≡ true
            → Equation dom g (is_head_all n rest) pre post n)
        × ((n : Label)
            → InGraph g n
            → is_member_all n (cons (vertex g.entry) rest) ≡ false
            → (pre n ≡ some dom.bottom) × (post n ≡ some dom.bottom))

    abbrev table : NestingTable
    table = build_nesting (cons (vertex g.entry) rest)

    new_pre : Table D
    new_pre = set (bottoms dom g) g.entry dom.setup_entry

    abbrev Ended : (Table D × Table D) × S → Type 0
    Ended r = IsSolution r.0.0 r.0.1

    abbrev Solves : Iterator D S → Type 0
    Solves it = IsSolution it.pre it.post
