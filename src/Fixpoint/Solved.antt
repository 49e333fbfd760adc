-- ===== src/Fixpoint/Solved.antt =====
-- The tables that the analysis of src/crab/fwd_analyzer.cpp ends with.
use ebpf_verifier.Base.{
  ℕ, true, false, ◌≡◌, refl, sym, subst, Bool, ◌||◌, some, List, [], ◌∷◌, arith, inl, inr, ◌⊎◌,
  false≢true,
}
use ebpf_verifier.Asm.{Label, label_eq}
use ebpf_verifier.Outcome.{Result, ok, err, Fault}
use ebpf_verifier.Cfg.{Cfg, find, has_label}
use ebpf_verifier.Wto.{
  Nesting, NestingTable, nesting, nesting_gt, Component, vertex, cycle, Components, nil, cons,
  is_member, is_member_all,
}
use ebpf_verifier.Wto.Ordered.{IsEdge, IsOrdered, AreOrdered}
use ebpf_verifier.Wto.Nested.{Nested}
use ebpf_verifier.Fixpoint.{
  Domain, Table, Iterator, set_skip, join_outer, join_before, visit_cycle, visit, visit_all, apply,
}
use ebpf_verifier.Fixpoint.Steps.{
  Settles, Settles-bind, Settles-map, Settles-if, InGraph, Filled, Present, at_label-Settles,
  get_node-Settles, or_right,
}
use ebpf_verifier.Fixpoint.Equations.{Visited, Visited-both}
use ebpf_verifier.Fixpoint.Visits.{awake, visit_vertex-Settles}
use ebpf_verifier.Fixpoint.Loops.{Running, increase-Settles, decrease-Settles}

-- Whether a label is the head of a cycle, and whether there is a cycle.
unfoldable mutual
  pub is_head : Label → Component → Bool
  is_head n (vertex m) = false
  is_head n (cycle head cs) = label_eq head n || is_head_all n cs

  pub is_head_all : Label → Components → Bool
  is_head_all n nil = false
  is_head_all n (cons c cs) = is_head n c || is_head_all n cs

abbrev pub HasCycle : Component → Type 0
HasCycle (vertex n) = ⊥
HasCycle (cycle head cs) = Unit {0}

abbrev pub HasCycles : Components → Type 0
HasCycles nil = ⊥
HasCycles (cons c cs) = HasCycle c ⊎ HasCycles cs

mutual
  unfolding is_head is_head_all is_member is_member_all

  is_head-is_member : (n : Label) (c : Component) → is_member n c ≡ false → is_head n c ≡ false
  is_head-is_member n (vertex m) h = refl
  is_head-is_member n (cycle head cs) h =
      let k = is_head_all-is_member n cs (ground arith) in ground arith

  is_head_all-is_member :
      (n : Label) (cs : Components) → is_member_all n cs ≡ false → is_head_all n cs ≡ false
  is_head_all-is_member n nil h = refl
  is_head_all-is_member n (cons c cs) h =
      let k = is_head_all-is_member n cs (ground arith) in
      let j = is_head-is_member n c (ground arith) in ground arith

or_left_true : (a b : Bool) → a ≡ true → (a || b) ≡ true
or_left_true a b h = ground arith

or_left_false : (a b : Bool) → (a || b) ≡ false → a ≡ false
or_left_false a b h = ground arith

or_right_false : (a b : Bool) → (a || b) ≡ false → b ≡ false
or_right_false a b h = ground arith

module _ {D S : Type 0} (dom : Domain D S) (g : Cfg)
    (closed : (p n : Label) → IsEdge g p n → InGraph g p) where
  abbrev Anything : D → Type 0
  Anything d = Unit {0}

  module _ (table : NestingTable) (C : Type 0) where
    nesting-Settles :
        (n : Label) → Nested table n → Settles C (λ (k : Nesting). Unit {0}) (nesting table n)
    unfolding nesting
    nesting-Settles n (k, e) = rw (e, nesting) tt

    apply-Settles :
        (f : D → D) (P : D → Type 0) (x : Result D) → Settles C P x → Settles C Anything (apply f x)
    apply-Settles f P (ok d) h = tt
    apply-Settles f P (err Fault.out_of_fuel) h = h
    apply-Settles f P (err (Fault.invalid_instruction s)) h = absurd h
    apply-Settles f P (err (Fault.unsupported_memory_mode s)) h = absurd h
    apply-Settles f P (err (Fault.invalid_argument s)) h = absurd h
    apply-Settles f P (err (Fault.runtime_error s)) h = absurd h
    apply-Settles f P (err Fault.assertion) h = absurd h
    apply-Settles f P (err Fault.out_of_range) h = absurd h

    join_outer-Settles :
        (post : Table D) (k : Nesting) (prevs : List Label) (res : D)
        → Filled dom g closed post
        → ((p : Label) → has_label p prevs ≡ true → InGraph g p × Nested table p)
        → Settles C Anything (join_outer dom g table post k prevs res)
    unfolding join_outer has_label
    join_outer-Settles post k [] res h i = tt
    join_outer-Settles post k (p ∷ prevs) res h i =
        let (here, nested) = i p (ground arith) in
        Settles-bind C (λ (j : Nesting). Unit {0}) Anything _ _ (nesting-Settles p nested)
          (λ j _.
            Settles-bind C Anything Anything _ _
              (Settles-if C Anything (nesting_gt j k) _ _ tt (
                apply-Settles (dom.join res) (λ d. post p ≡ some d) _
                  (at_label-Settles dom g closed C post p h here)))
              (λ d _. join_outer-Settles post k prevs d h (λ q e. i q (or_right _ _ e))))

    join_before-Settles :
        (head : Label) (it : Iterator D S)
        → InGraph g head
        → Nested table head
        → ((p : Label) → IsEdge g p head → Nested table p)
        → Present dom g closed it
        → Settles C Anything (join_before dom g table head it)
    unfolding join_before
    join_before-Settles head it i n e h =
        Settles-bind C (λ (j : Nesting). Unit {0}) Anything _ _ (nesting-Settles head n)
          (λ k _.
            Settles-bind C (λ b. find head g.blocks ≡ some b) Anything _ _
              (get_node-Settles dom g closed C head i)
              (λ b f.
                join_outer-Settles it.post k b.prev dom.bottom h.1
                  (λ p w. (closed p head (b, f, w), e p (b, f, w)))))

  -- What is known of a node in the components.
  abbrev pub Placed : NestingTable → Label → Type 0
  Placed table n = InGraph g n × Nested table n × ((p : Label) → IsEdge g p n → Nested table p)

  module _ (fuel : ℕ) (table : NestingTable) where
    cycle_awake :
        (cs : Components) (head : Label) (has_entry : Bool)
        → is_member_all head cs ≡ false
        → Placed table head
        → (body : Iterator D S → Result (Iterator D S))
        → ((it : Iterator D S)
            → it.skip ≡ false
            → Present dom g closed it
            → Settles
                (Unit {0})
                (Visited dom g closed (λ k. is_member_all k cs) (λ k. is_head_all k cs) it)
                (body it))
        → (pre post : Table D) (store : S)
        → Present dom g closed (awake dom g closed pre post store)
        → Settles
            (Unit {0})
            (Visited dom g closed
              (λ k. label_eq head k || is_member_all k cs)
              (λ k. label_eq head k || is_head_all k cs)
              (awake dom g closed pre post store))
            (visit_cycle dom g fuel table body head has_entry (awake dom g closed pre post store))
    unfolding visit_cycle set_skip
    cycle_awake cs head has_entry free (i, nested, edges) body visits pre post store h =
        let it0 = awake dom g closed pre post store in
        let M = λ (k : Label). is_member_all k cs in
        let H = λ (k : Label). is_head_all k cs in
        Settles-bind (Unit {0}) Anything
          (Visited dom g closed (λ k. label_eq head k || M k) (λ k. label_eq head k || H k) it0) _ _
          (join_before-Settles table (Unit {0}) head it0 i nested edges h)
          (λ d _.
            Settles-bind (Unit {0})
              (Running dom g closed (Unit {0}) tt M H head i free body visits it0)
              (Visited dom g closed (λ k. label_eq head k || M k) (λ k. label_eq head k || H k) it0)
              _ _
              (increase-Settles dom g closed (Unit {0}) tt M H head i free body visits it0 fuel 1 d
                it0 refl (λ k out. (refl, refl)) h)
              (λ r running.
                decrease-Settles dom g closed (Unit {0}) tt M H head i free body visits it0 fuel 1
                  r.0 r.1 running))

    cycle-Settles :
        (cs : Components) (head : Label) (has_entry : Bool)
        → is_member_all head cs ≡ false
        → Placed table head
        → (body : Iterator D S → Result (Iterator D S))
        → ((it : Iterator D S)
            → it.skip ≡ false
            → Present dom g closed it
            → Settles
                (Unit {0})
                (Visited dom g closed (λ k. is_member_all k cs) (λ k. is_head_all k cs) it)
                (body it))
        → (it : Iterator D S) → it.skip ≡ false
        → Present dom g closed it
        → Settles
            (Unit {0})
            (Visited dom g closed
              (λ k. label_eq head k || is_member_all k cs)
              (λ k. label_eq head k || is_head_all k cs)
              it)
            (visit_cycle dom g fuel table body head has_entry it)
    cycle-Settles cs head has_entry free placed body visits it on h =
        subst
          (λ (j : Iterator D S).
            Settles (Unit {0})
              (Visited dom g closed (λ k. label_eq head k || is_member_all k cs)
                (λ k. label_eq head k || is_head_all k cs) j)
              (visit_cycle dom g fuel table body head has_entry j))
          (λ t. record { pre = it.pre; post = it.post; skip = sym on t; store = it.store })
          (cycle_awake cs head has_entry free placed body visits it.pre it.post it.store h)

    -- A component, or a list of them, without the entry.
    mutual
      unfolding visit visit_all is_member is_member_all is_head is_head_all

      pub visit-Settles :
          (c : Component)
          → IsOrdered g c
          → is_member g.entry c ≡ false
          → ((n : Label) → is_member n c ≡ true → Placed table n)
          → (it : Iterator D S) → it.skip ≡ false
          → Present dom g closed it
          → Settles
              (HasCycle c)
              (Visited dom g closed (λ k. is_member k c) (λ k. is_head k c) it)
              (visit dom g fuel table c it)
      visit-Settles (vertex n) o e placed it on h =
          visit_vertex-Settles dom g closed ⊥ n (placed n (ground arith)).0 o e it on h
      visit-Settles (cycle head cs) o e placed it on h =
          cycle-Settles cs head (is_member g.entry (cycle head cs)) o.0 (placed head (ground arith))
            (visit_all dom g fuel table cs)
            (λ j on' h'.
              Settles-map (HasCycles cs) (Unit {0})
                (Visited dom g closed (λ k. is_member_all k cs) (λ k. is_head_all k cs) j)
                (Visited dom g closed (λ k. is_member_all k cs) (λ k. is_head_all k cs) j) _
                (λ c. tt) (λ x v. v)
                (visit_all-Settles cs o.1 (or_right_false _ _ e) (λ n m. placed n (or_right _ _ m))
                  j on' h'))
            it on h

      pub visit_all-Settles :
          (cs : Components)
          → AreOrdered g cs
          → is_member_all g.entry cs ≡ false
          → ((n : Label) → is_member_all n cs ≡ true → Placed table n)
          → (it : Iterator D S) → it.skip ≡ false
          → Present dom g closed it
          → Settles
              (HasCycles cs)
              (Visited dom g closed (λ k. is_member_all k cs) (λ k. is_head_all k cs) it)
              (visit_all dom g fuel table cs it)
      visit_all-Settles nil o e placed it on h =
          (on, (λ k _. (refl, refl)), h, λ n m. absurd (false≢true m))
      visit_all-Settles (cons c cs) o e placed it on h =
          Settles-bind (HasCycle c ⊎ HasCycles cs)
            (Visited dom g closed (λ k. is_member k c) (λ k. is_head k c) it)
            (Visited dom g closed (λ k. is_member k c || is_member_all k cs)
              (λ k. is_head k c || is_head_all k cs) it)
            _ _
            (Settles-map (HasCycle c) (HasCycle c ⊎ HasCycles cs)
              (Visited dom g closed (λ k. is_member k c) (λ k. is_head k c) it)
              (Visited dom g closed (λ k. is_member k c) (λ k. is_head k c) it) _ (λ c. inl c)
              (λ x v. v)
              (visit-Settles c o.0 (or_left_false _ _ e) (λ n m. placed n (or_left_true _ _ m)) it
                on h))
            (λ it1 v.
              Settles-map (HasCycles cs) (HasCycle c ⊎ HasCycles cs)
                (Visited dom g closed (λ k. is_member_all k cs) (λ k. is_head_all k cs) it1)
                (Visited dom g closed (λ k. is_member k c || is_member_all k cs)
                  (λ k. is_head k c || is_head_all k cs) it)
                _ (λ c. inr c)
                (λ it2 w.
                  Visited-both dom g closed (λ k. is_member k c) (λ k. is_head k c)
                    (λ k. is_member_all k cs) (λ k. is_head_all k cs) it it1 it2 v w o.2.0
                    (λ p n. o.2.1 p n) (λ n. is_head-is_member n c)
                    (λ n. is_head_all-is_member n cs))
                (visit_all-Settles cs o.1 (or_right_false _ _ e) (λ n m. placed n (or_right _ _ m))
                  it1 v.0 v.2))
