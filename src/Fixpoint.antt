-- ===== src/Fixpoint.antt =====
-- The forward analysis: src/crab/fwd_analyzer.cpp. The abstract domain and the effect of an
-- instruction on its values are arguments; a table from labels to values is a function, which is
-- `none` where the map has no entry. An instruction also reads and changes the global array map of
-- src/crab/array_domain.cpp, which all blocks share: it is the `store` of the iterator.
pub mod Steps
pub mod Equations
pub mod Visits
pub mod Loops
pub mod Solved
pub mod Outcomes
use ebpf_verifier.Base.{
  ℕ, zero, suc, ◌+◌, ◌%◌, ◌^◌, Bool, true, false, not, ◌&&◌, leb, ◌==◌, if◌then◌else◌, Option, none,
  some, List, [], ◌∷◌,
}
use ebpf_verifier.Asm.{Label, label_eq, Instruction}
use ebpf_verifier.Outcome.{Result, ok, err, Fault, ◌>>=◌}
use ebpf_verifier.Cfg.{Cfg, Block, get_node, find}
use ebpf_verifier.Wto.{
  Nesting, NestingTable, nesting, nesting_gt, build_nesting, Component, vertex, cycle, Components,
  nil, cons, is_member,
}

pub record Domain (D S : Type 0) : Type 0 where
  pub bottom : D
  pub setup_entry : D
  pub le : D → D → Bool
  pub join : D → D → D
  pub meet : D → D → D
  pub widen : D → D → D
  pub narrow : D → D → D
  pub visit : Instruction → D → S → D × S

abbrev pub Table : Type 0 → Type 0
Table D = Label → Option D

module _ {D : Type 0} where
  -- `_pre.at(node)`, and `_pre[label] = v`.
  unfoldable pub at_label : Table D → Label → Result D
  at_label table l = elim (table l) [ some d ↦ ok d | none ↦ err Fault.out_of_range ]

  unfoldable pub set : Table D → Label → D → Table D
  set table l d k = if label_eq l k then some d else table k

pub record Iterator (D S : Type 0) : Type 0 where
  pub pre : Table D
  pub post : Table D
  pub skip : Bool
  pub store : S

abbrev pub widening_delay : ℕ
widening_delay = 1

abbrev pub next_iteration : ℕ → ℕ
next_iteration iteration = (iteration + 1) % 2 ^ 32

abbrev pub apply {ℓ} : {A : Type ℓ} → (A → A) → Result A → Result A
apply f (ok a) = ok (f a)
apply f (err e) = err e

module _ {D S : Type 0} (dom : Domain D S) (g : Cfg) where
  unfoldable pub set_pre : Label → D → Iterator D S → Iterator D S
  unfolding set
  set_pre l v it = record { pre = set it.pre l v; post = it.post; skip = it.skip; store = it.store }

  unfoldable pub set_skip : Bool → Iterator D S → Iterator D S
  set_skip b it = record { pre = it.pre; post = it.post; skip = b; store = it.store }

  -- The instructions of a block, one after the other.
  unfoldable pub visit_block : List Instruction → D → S → D × S
  visit_block [] d s = (d, s)
  visit_block (i ∷ insts) d s = let (d', s') = dom.visit i d s in visit_block insts d' s'

  unfoldable pub transform_to_post : Label → D → Iterator D S → Result (Iterator D S)
  transform_to_post l pre it = do
    b ← get_node g l
    let (after, store) = visit_block b.insts pre it.store
    ok (record { pre = it.pre; post = set it.post l after; skip = it.skip; store = store })

  unfoldable pub extrapolate : ℕ → D → D → D
  extrapolate iteration before after =
      if leb iteration widening_delay then dom.join before after else dom.widen before after

  unfoldable pub refine : ℕ → D → D → D
  refine iteration before after =
      if iteration == 1 then dom.meet before after else dom.narrow before after

  -- The loop `for (prev : ...) res |= get_post(prev)`.
  unfoldable pub join_posts : Table D → List Label → D → Result D
  join_posts post [] res = ok res
  join_posts post (p ∷ prevs) res = do d ← at_label post p; join_posts post prevs (dom.join res d)

  unfoldable pub join_all_prevs : Label → Iterator D S → Result D
  join_all_prevs node it = do b ← get_node g node; join_posts it.post b.prev dom.bottom

  -- The constructor: every label of the graph starts with bottom, and the entry with its own value.
  unfoldable pub bottoms : Table D
  bottoms l = elim (find l g.blocks) [ some _ ↦ some dom.bottom | none ↦ none ]

  unfoldable pub new_iterator : S → Iterator D S
  unfolding bottoms set
  new_iterator store = record {
    pre = set bottoms g.entry dom.setup_entry;
    post = bottoms;
    skip = true;
    store = store;
  }

  unfoldable pub visit_vertex : Label → Iterator D S → Result (Iterator D S)
  visit_vertex node it =
      let skip = it.skip && not (label_eq node g.entry) in
      let it' = set_skip skip it in
      if skip then ok it' else do
        pre ← (if label_eq node g.entry then at_label it'.pre node else join_all_prevs node it')
        transform_to_post node pre (set_pre node pre it')

  -- The value before a cycle: what comes from the predecessors that are not inside it.
  unfoldable pub join_outer : NestingTable → Table D → Nesting → List Label → D → Result D
  unfolding at_label
  join_outer table post head_nesting [] res = ok res
  join_outer table post head_nesting (p ∷ prevs) res = do
    k ← nesting table p
    res' ← (if nesting_gt k head_nesting then ok res else apply (dom.join res) (at_label post p))
    join_outer table post head_nesting prevs res'

  unfoldable pub join_before : NestingTable → Label → Iterator D S → Result D
  join_before table head it = do
    k ← nesting table head
    b ← get_node g head
    join_outer table it.post k b.prev dom.bottom

  -- One pass over a cycle from the value `pre` at its head, with `body` for the components inside;
  -- the join at the head behind it.
  unfoldable pub pass :
      (Iterator D S → Result (Iterator D S)) → Label → D → Iterator D S → Result (D × Iterator D S)
  pass body head pre it = do
    it1 ← transform_to_post head pre it
    it2 ← body it1
    new_pre ← join_all_prevs head it2
    ok (new_pre, it2)

  -- The increasing iteration: its value for the head, at the post-fixpoint.
  unfoldable pub increase :
      (Iterator D S → Result (Iterator D S))
      → Label
      → ℕ
      → ℕ
      → D
      → Iterator D S
      → Result (D × Iterator D S)
  increase body head zero iteration pre it = err Fault.out_of_fuel
  increase body head (suc fuel) iteration pre it = do
    (new_pre, it') ← pass body head pre (set_pre head pre it)
    elim (dom.le new_pre pre) [
      | true ↦ ok (new_pre, set_pre head new_pre it')
      | false ↦
          increase body head fuel (next_iteration iteration) (extrapolate iteration pre new_pre) it'
    ]

  -- The decreasing iteration.
  unfoldable pub decrease :
      (Iterator D S → Result (Iterator D S))
      → Label
      → ℕ
      → ℕ
      → D
      → Iterator D S
      → Result (Iterator D S)
  decrease body head zero iteration pre it = err Fault.out_of_fuel
  decrease body head (suc fuel) iteration pre it = do
    (new_pre, it') ← pass body head pre it
    elim (dom.le pre new_pre) [
      | true ↦ ok it'
      | false ↦
          (let refined = refine iteration pre new_pre in
            decrease body head fuel (next_iteration iteration) refined (set_pre head refined it'))
    ]

  -- A cycle, whose components inside are visited by `body`.
  unfoldable pub visit_cycle :
      ℕ
      → NestingTable
      → (Iterator D S → Result (Iterator D S))
      → Label
      → Bool
      → Iterator D S
      → Result (Iterator D S)
  visit_cycle fuel table body head has_entry it =
      let entry_in_this_cycle = it.skip && has_entry in
      let skip = it.skip && not entry_in_this_cycle in
      let it' = set_skip skip it in
      if skip then ok it' else do
        pre ← (if entry_in_this_cycle then at_label it'.pre g.entry else join_before table head it')
        (pre', it'') ← increase body head fuel 1 pre it'
        decrease body head fuel 1 pre' it''

  unfoldable mutual
    pub visit : ℕ → NestingTable → Component → Iterator D S → Result (Iterator D S)
    visit fuel table (vertex n) it = visit_vertex n it
    visit fuel table (cycle head cs) it =
        visit_cycle fuel table (visit_all fuel table cs) head (is_member g.entry (cycle head cs)) it

    pub visit_all : ℕ → NestingTable → Components → Iterator D S → Result (Iterator D S)
    visit_all fuel table nil it = ok it
    visit_all fuel table (cons c cs) it = visit fuel table c it >>= visit_all fuel table cs

  -- The analysis over the components of the graph's weak topological order, from a global array map.
  unfoldable pub run_forward_analyzer : ℕ → Components → S → Result ((Table D × Table D) × S)
  run_forward_analyzer fuel wto store = do
    it ← visit_all fuel (build_nesting wto) wto (new_iterator store)
    ok ((it.pre, it.post), it.store)
