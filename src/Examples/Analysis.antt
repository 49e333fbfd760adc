-- ===== src/Examples/Analysis.antt =====
-- A loop that counts a register up, on which the theorems on src/crab/fwd_analyzer.cpp and
-- src/crab/wto.hpp are applied.
use ebpf_verifier.Base.{ℕ, suc, ◌≡◌, refl, Bool, true, false, [], ◌∷◌, arith, ◌↔◌, false≢true}
use ebpf_verifier.Asm.{Label, label_t, Instruction}
use ebpf_verifier.Cfg.{Cfg, find, has_label}
use ebpf_verifier.Wto.{Components, vertex, cycle, nil, cons, is_member, nesting_gt}
use ebpf_verifier.Wto.Nested.{Extends, nesting_gt_iff}
use ebpf_verifier.Wto.Ordered.{AreOrdered}
use ebpf_verifier.Fixpoint.{Domain}

-- What is known of a counter: nothing reaches it, it is 0, it is any number.
data Known : Type 0 where
  nowhere zero_only anything : Known

abbrev known_le : Known → Known → Bool
known_le Known.nowhere b = true
known_le Known.zero_only Known.nowhere = false
known_le Known.zero_only _ = true
known_le Known.anything Known.anything = true
known_le Known.anything _ = false

abbrev lub : Known → Known → Known
lub Known.nowhere b = b
lub Known.zero_only Known.nowhere = Known.zero_only
lub Known.zero_only b = b
lub Known.anything b = Known.anything

abbrev glb : Known → Known → Known
glb Known.nowhere b = Known.nowhere
glb Known.zero_only Known.nowhere = Known.nowhere
glb Known.zero_only b = Known.zero_only
glb Known.anything b = b

-- The store has the number of instructions that were visited.
abbrev count : Instruction → Known → ℕ → Known × ℕ
count i Known.nowhere n = (Known.nowhere, suc n)
count i d n = (Known.anything, suc n)

abbrev counter : Domain Known ℕ
counter = record {
  bottom = Known.nowhere;
  setup_entry = Known.zero_only;
  le = known_le;
  join = lub;
  meet = glb;
  widen = lub;
  narrow = λ a b. a;
  visit = count;
}

abbrev first : Label
first = label_t 0

abbrev loop : Label
loop = label_t 1

abbrev last : Label
last = label_t 2

abbrev looping : Cfg
looping = record {
  entry = first;
  exit = last;
  blocks =
      record { label = first; insts = []; prev = []; next = loop ∷ [] }
      ∷ record {
        label = loop;
        insts = Instruction.exit ∷ [];
        prev = first ∷ loop ∷ [];
        next = loop ∷ last ∷ [];
      }
      ∷ record { label = last; insts = []; prev = loop ∷ []; next = [] }
      ∷ [];
}

abbrev inner : Components
inner = cons (cycle loop nil) (cons (vertex last) nil)

abbrev order : Components
order = cons (vertex first) inner

ordered : AreOrdered looping inner
unfolding is_member find has_label
ordered = (
  (refl, tt),
  ((λ e. ground arith), tt, ((λ n h. refl), (λ p n h k e. absurd (false≢true k)))),
  ((λ n h. ground arith), (λ p n h k (b, e, l). ground arith)),
)

nesting_gt_iff_example :
    (nesting_gt (loop ∷ first ∷ []) (loop ∷ []) ≡ true) ↔ Extends (loop ∷ first ∷ []) (loop ∷ [])
nesting_gt_iff_example = nesting_gt_iff (loop ∷ first ∷ []) (loop ∷ [])
