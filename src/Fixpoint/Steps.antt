-- ===== src/Fixpoint/Steps.antt =====
-- The steps of the analysis of src/crab/fwd_analyzer.cpp where every label of the graph has its
-- entries in the tables.
use ebpf_verifier.Base.{
  true, false, ◌≡◌, refl, ◌∙◌, inl, inr, Bool-cases, Bool, ◌||◌, if◌then◌else◌, some, List, [], ◌∷◌,
  arith,
}
use ebpf_verifier.Asm.{Label, label_eq}
use ebpf_verifier.Outcome.{Result, ok, err, Fault, ◌>>=◌}
use ebpf_verifier.Cfg.{Cfg, Block, find, has_label, get_node}
use ebpf_verifier.Wto.Ordered.{IsEdge}
use ebpf_verifier.Fixpoint.{
  Domain, Table, at_label, set, Iterator, visit_block, transform_to_post, join_posts,
  join_all_prevs,
}

-- The result is there and has the property, or the fuel is used up where `C` holds.
abbrev pub Settles {ℓ} : {A : Type ℓ} → Type 0 → (A → Type 0) → Result A → Type 0
Settles C P (ok x) = P x
Settles C P (err Fault.out_of_fuel) = C
Settles C P (err _) = ⊥

pub Settles-bind {ℓ κ} :
    {A : Type ℓ} {B : Type κ} (C : Type 0) (P : A → Type 0) (Q : B → Type 0) (r : Result A)
    (f : A → Result B)
    → Settles C P r
    → ((x : A) → P x → Settles C Q (f x))
    → Settles C Q (r >>= f)
Settles-bind C P Q (ok x) f h k = k x h
Settles-bind C P Q (err Fault.out_of_fuel) f h k = h
Settles-bind C P Q (err (Fault.invalid_instruction s)) f h k = absurd h
Settles-bind C P Q (err (Fault.unsupported_memory_mode s)) f h k = absurd h
Settles-bind C P Q (err (Fault.invalid_argument s)) f h k = absurd h
Settles-bind C P Q (err (Fault.runtime_error s)) f h k = absurd h
Settles-bind C P Q (err Fault.assertion) f h k = absurd h
Settles-bind C P Q (err Fault.out_of_range) f h k = absurd h

pub Settles-map {ℓ} :
    {A : Type ℓ} (C E : Type 0) (P Q : A → Type 0) (r : Result A)
    → (C → E)
    → ((x : A) → P x → Q x)
    → Settles C P r
    → Settles E Q r
Settles-map C E P Q (ok x) c f h = f x h
Settles-map C E P Q (err Fault.out_of_fuel) c f h = c h
Settles-map C E P Q (err (Fault.invalid_instruction s)) c f h = absurd h
Settles-map C E P Q (err (Fault.unsupported_memory_mode s)) c f h = absurd h
Settles-map C E P Q (err (Fault.invalid_argument s)) c f h = absurd h
Settles-map C E P Q (err (Fault.runtime_error s)) c f h = absurd h
Settles-map C E P Q (err Fault.assertion) c f h = absurd h
Settles-map C E P Q (err Fault.out_of_range) c f h = absurd h

-- Both branches of a test.
pub Settles-if :
    {A : Type 0} (C : Type 0) (P : A → Type 0) (b : Bool) (x y : Result A)
    → Settles C P x
    → Settles C P y
    → Settles C P (if b then x else y)
Settles-if C P true x y h k = h
Settles-if C P false x y h k = k

abbrev pub InGraph : Cfg → Label → Type 0
InGraph g l = (b : Block) × (find l g.blocks ≡ some b)

pub set_self : {D : Type 0} (table : Table D) (l : Label) (d : D) → set table l d l ≡ some d
unfolding set
set_self table l d = ground arith

pub set_other :
    {D : Type 0} (table : Table D) (l k : Label) (d : D)
    → label_eq l k ≡ false
    → set table l d k ≡ table k
unfolding set
set_other table l k d h = rw h refl

pub or_right : (a b : Bool) → b ≡ true → (a || b) ≡ true
or_right a b h = ground arith

-- `r` is the join of `res` and the values of the labels, one after the other.
abbrev pub JoinOf : {D S : Type 0} → Domain D S → Table D → List Label → D → D → Type 0
JoinOf dom post [] res r = r ≡ res
JoinOf {D} dom post (p ∷ labels) res r =
    (d : D) × (post p ≡ some d) × JoinOf dom post labels (dom.join res d) r

module _ {D S : Type 0} (dom : Domain D S) (g : Cfg)
    (closed : (p n : Label) → IsEdge g p n → InGraph g p) where
  -- Every label of the graph has its entries.
  abbrev pub Filled : Table D → Type 0
  Filled table = (k : Label) → InGraph g k → (d : D) × (table k ≡ some d)

  abbrev pub Present : Iterator D S → Type 0
  Present it = Filled it.pre × Filled it.post

  pub Filled-set : (table : Table D) (l : Label) (d : D) → Filled table → Filled (set table l d)
  unfolding set
  Filled-set table l d h k i = elim (Bool-cases (label_eq l k)) [
    | inl e ↦ (d, rw e refl)
    | inr e ↦ let (c, p) = h k i in (c, rw e p)
  ]

  module _ (C : Type 0) where
    pub at_label-Settles :
        (table : Table D) (l : Label)
        → Filled table
        → InGraph g l
        → Settles C (λ d. table l ≡ some d) (at_label table l)
    unfolding at_label
    at_label-Settles table l h i = let (d, e) = h l i in rw (e, at_label) refl

    pub get_node-Settles :
        (l : Label) → InGraph g l → Settles C (λ b. find l g.blocks ≡ some b) (get_node g l)
    unfolding get_node
    get_node-Settles l (b, e) = rw (e, get_node) refl

    -- The table behind a visit of a block from `d`: the effect from the store there.
    abbrev pub Transformed : Label → D → Iterator D S → Iterator D S → Type 0
    Transformed l d it it' =
        (it'.pre ≡ it.pre)
        × (it'.skip ≡ it.skip)
        × ((k : Label) → label_eq l k ≡ false → it'.post k ≡ it.post k)
        × ((b : Block)
            → find l g.blocks ≡ some b
            → it'.post l ≡ some (visit_block dom g b.insts d it.store).0)
        × Present it'

    pub transform_to_post-Settles :
        (l : Label) (d : D) (it : Iterator D S)
        → InGraph g l
        → Present it
        → Settles C (Transformed l d it) (transform_to_post dom g l d it)
    unfolding transform_to_post
    transform_to_post-Settles l d it i h =
        Settles-bind C (λ b. find l g.blocks ≡ some b) (Transformed l d it) _ _
          (get_node-Settles l i)
          (λ b e. (
            refl,
            refl,
            (λ k n. set_other it.post l k _ n),
            (λ c f. set_self it.post l _ ∙ cc (e, f)),
            (h.0, Filled-set it.post l _ h.1),
          ))

    -- The join over the labels starts from bottom and takes in what is behind each of them.
    pub join_posts-Settles :
        (post : Table D) (prevs : List Label) (res : D)
        → Filled post
        → ((p : Label) → has_label p prevs ≡ true → InGraph g p)
        → Settles C (JoinOf dom post prevs res) (join_posts dom g post prevs res)
    unfolding join_posts has_label
    join_posts-Settles post [] res h i = refl
    join_posts-Settles post (p ∷ prevs) res h i =
        Settles-bind C (λ d. post p ≡ some d) (JoinOf dom post (p ∷ prevs) res) _ _
          (at_label-Settles post p h (i p (ground arith)))
          (λ d e.
            Settles-map C C (JoinOf dom post prevs (dom.join res d))
              (JoinOf dom post (p ∷ prevs) res) _ (λ c. c) (λ r q. (d, e, q))
              (join_posts-Settles post prevs (dom.join res d) h (λ q k. i q (or_right _ _ k))))

    -- The join over the predecessors of a label.
    abbrev pub Joined : Label → Table D → D → Type 0
    Joined n post d = (b : Block) × (find n g.blocks ≡ some b) × JoinOf dom post b.prev dom.bottom d

    pub join_all_prevs-Settles :
        (n : Label) (it : Iterator D S)
        → InGraph g n
        → Present it
        → Settles C (Joined n it.post) (join_all_prevs dom g n it)
    unfolding join_all_prevs
    join_all_prevs-Settles n it i h =
        Settles-bind C (λ b. find n g.blocks ≡ some b) (Joined n it.post) _ _ (get_node-Settles n i)
          (λ b e.
            Settles-map C C (JoinOf dom it.post b.prev dom.bottom) (Joined n it.post) _ (λ c. c)
              (λ r q. (b, e, q))
              (join_posts-Settles it.post b.prev dom.bottom h.1 (λ p k. closed p n (b, e, k))))
