-- ===== src/Wto.antt =====
-- Weak topological orders: the classes `wto_nesting_t`, `wto_vertex_t` and `wto_cycle_t` of
-- src/crab/wto.hpp, the nestings that `wto_t` builds from its components, and the visitor
-- `member_component_visitor` of src/crab/fwd_analyzer.cpp. The number of visits that a cycle counts
-- is only printed, and not kept.
pub mod Ordered
pub mod Nested
use ebpf_verifier.Base.{
  Bool, true, false, not, ◌&&◌, ◌||◌, if◌then◌else◌, Option, none, some, List, [], ◌∷◌, ◌++◌,
}
use ebpf_verifier.Base.Int.{ℤ, pos, negsuc, leb_ℤ, eqb_ℤ}
use ebpf_verifier.Asm.{Label, label_eq}
use ebpf_verifier.Outcome.{Result, ok, err, Fault}

-- A nesting is the list of the heads of the cycles around a node, the outermost first.
abbrev pub Nesting : Type 0
Nesting = List Label

unfoldable pub compare : Nesting → Nesting → ℤ
compare [] [] = pos 0
compare [] (_ ∷ _) = negsuc 0
compare (_ ∷ _) [] = pos 1
compare (a ∷ r) (b ∷ s) = let rest = compare r s in if label_eq a b then rest else pos 2

unfoldable pub add_head : Nesting → Label → Nesting
add_head nesting n = nesting ++ n ∷ []

-- `operator^`.
unfoldable pub common : Nesting → Nesting → Nesting
common [] _ = []
common (_ ∷ _) [] = []
common (a ∷ r) (b ∷ s) = let rest = common r s in if label_eq a b then a ∷ rest else []

unfoldable pub nesting_le : Nesting → Nesting → Bool
unfolding compare
nesting_le a b = leb_ℤ (compare a b) (pos 0)

unfoldable pub nesting_eq : Nesting → Nesting → Bool
unfolding compare
nesting_eq a b = eqb_ℤ (compare a b) (pos 0)

unfoldable pub nesting_gt : Nesting → Nesting → Bool
unfolding compare
nesting_gt a b = eqb_ℤ (compare a b) (pos 1)

mutual
  pub data Component : Type 0 where
    vertex : Label → Component
    cycle : Label → Components → Component

  pub data Components : Type 0 where
    nil : Components
    cons : Component → Components → Components

-- The table of the nestings. An insertion keeps what is there.
abbrev pub NestingTable : Type 0
NestingTable = Label → Option Nesting

unfoldable pub insert_nesting : Label → Nesting → NestingTable → NestingTable
insert_nesting n nesting table l = elim (table l) [
  | some old ↦ some old
  | none ↦ if label_eq n l then some nesting else none
]

-- The visitor `nesting_builder`, with the current nesting as an argument.
unfoldable mutual
  pub build : Component → Nesting → NestingTable → NestingTable
  build (vertex n) nesting table = insert_nesting n nesting table
  build (cycle head cs) nesting table =
      build_all cs (add_head nesting head) (insert_nesting head nesting table)

  pub build_all : Components → Nesting → NestingTable → NestingTable
  build_all nil nesting table = table
  build_all (cons c cs) nesting table = build_all cs nesting (build c nesting table)

unfoldable pub build_nesting : Components → NestingTable
build_nesting cs = build_all cs [] (λ _. none)

unfoldable pub nesting : NestingTable → Label → Result Nesting
nesting table n = elim (table n) [ some k ↦ ok k | none ↦ err Fault.assertion ]

-- `member_component_visitor`: whether a node occurs in a component.
unfoldable mutual
  pub is_member : Label → Component → Bool
  is_member n (vertex m) = label_eq m n
  is_member n (cycle head cs) = label_eq head n || is_member_all n cs

  pub is_member_all : Label → Components → Bool
  is_member_all n nil = false
  is_member_all n (cons c cs) = is_member n c || is_member_all n cs
