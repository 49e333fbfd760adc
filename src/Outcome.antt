-- ===== src/Outcome.antt =====
-- Results with a fault, and results that also carry the notes that the decoder leaves.
-- A C++ exception is a fault; so is an `assert` that fails, the abort of CRAB_ERROR, and a read
-- outside a vector or a map, which the language leaves undefined.
use ebpf_verifier.Base.{Bool, List, [], ◌∷◌, ◌++◌, String, if◌then◌else◌}

pub data Fault : Type 0 where
  invalid_instruction : String → Fault
  unsupported_memory_mode : String → Fault
  invalid_argument : String → Fault
  runtime_error : String → Fault
  assertion : Fault
  out_of_range : Fault
  out_of_fuel : Fault

pub data Result {ℓ} (A : Type ℓ) : Type ℓ where
  ok : A → Result A
  err : Fault → Result A

infixl 5 ◌>>=◌
abbrev pub ◌>>=◌ {ℓ κ} : {A : Type ℓ} {B : Type κ} → Result A → (A → Result B) → Result B
ok a >>= f = f a
err e >>= f = err e

-- A computation that leaves notes; they stay when it throws.
pub record Noted {ℓ} (A : Type ℓ) : Type ℓ where
  pub notes : List String
  pub result : Result A

module _ {ℓ} {A : Type ℓ} where
  abbrev pub pure : A → Noted A
  pure a = record { notes = []; result = ok a }

  abbrev pub throw : Fault → Noted A
  throw e = record { notes = []; result = err e }

  -- `if (b) note(s);` and then the rest.
  abbrev pub note_if : Bool → String → Noted A → Noted A
  note_if b s m = record { notes = (if b then s ∷ m.notes else m.notes); result = m.result }

-- The rest of a computation behind a first part.
abbrev pub run_after {ℓ κ} : {A : Type ℓ} {B : Type κ} → Result A → (A → Noted B) → Noted B
run_after (ok a) f = f a
run_after (err e) f = throw e

abbrev pub and_then {ℓ κ} : {A : Type ℓ} {B : Type κ} → Noted A → (A → Noted B) → Noted B
and_then m f = record {
  notes = m.notes ++ (run_after m.result f).notes;
  result = (run_after m.result f).result;
}
