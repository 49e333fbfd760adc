-- ===== src/Wto/Ordered.antt =====
-- When components, as those that src/crab/wto.hpp makes, are in a weak topological order of a graph.
use ebpf_verifier.Base.{true, false, ◌≡◌}
use ebpf_verifier.Base.{some}
use ebpf_verifier.Asm.{Label}
use ebpf_verifier.Cfg.{Cfg, Block, find, has_label}
use ebpf_verifier.Wto.{Component, vertex, cycle, Components, nil, cons, is_member, is_member_all}

-- The block of a label, and the edges into it.
abbrev pub IsEdge : Cfg → Label → Label → Type 0
IsEdge g p n = (b : Block) × (find n g.blocks ≡ some b) × (has_label p b.prev ≡ true)

module _ (g : Cfg) where
  -- The nodes of `c` do not occur in `cs`, and no edge leads from a node of `cs` to one of `c`.
  abbrev pub Before : Component → Components → Type 0
  Before c cs =
      ((n : Label) → is_member n c ≡ true → is_member_all n cs ≡ false)
      × ((p n : Label) → is_member n c ≡ true → is_member_all p cs ≡ true → IsEdge g p n → ⊥)

  -- Edges go forward, but for those to the head of a cycle from inside the cycle.
  abbrev mutual
    pub IsOrdered : Component → Type 0
    IsOrdered (vertex n) = IsEdge g n n → ⊥
    IsOrdered (cycle head cs) = (is_member_all head cs ≡ false) × AreOrdered cs

    pub AreOrdered : Components → Type 0
    AreOrdered nil = Unit {0}
    AreOrdered (cons c cs) = IsOrdered c × AreOrdered cs × Before c cs
