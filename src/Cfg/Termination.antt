-- ===== src/Cfg/Termination.antt =====
-- `cfg_t::simplify` of src/crab/cfg.hpp ends: its loops do not use up their fuel.
use ebpf_verifier.Base.{ℕ, ◌≤◌, List, length}
use ebpf_verifier.Asm.{Label}
use ebpf_verifier.Outcome.{Result, ok, err, Fault}
use ebpf_verifier.Cfg.{Cfg}

-- The outcome is a value of which `P` holds, or a fault other than fuel that is used up.
abbrev pub Ends : {A : Type 0} → (A → Type 0) → Result A → Type 0
Ends P (ok x) = P x
Ends P (err Fault.out_of_fuel) = ⊥
Ends P (err _) = Unit

abbrev Anything : {A : Type 0} → A → Type 0
Anything x = Unit

-- The labels that are left are no more than they were.
abbrev Left : ℕ → Cfg × List Label → Type 0
Left n state = length state.1 ≤ n
