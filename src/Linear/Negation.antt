-- ===== src/Linear/Negation.antt =====
-- The meaning of a signed constraint, and that `negate` of src/crab/linear_constraints.hpp gives the
-- complement.
use ebpf_verifier.Base.{
  Bool, true, false, not, ◌≡◌, refl, ap, sym, subst, ◌∙◌, [], ◌∷◌, inl, inr, Bool-cases, arith,
}
use ebpf_verifier.Base.Int.{ℤ, pos, ◌+ℤ◌, ◌-ℤ◌, leb_ℤ, ltb_ℤ, eqb_ℤ, -ℤ_parts}
use ebpf_verifier.Base.Ring.{zero-+ℤ}
use ebpf_verifier.Outcome.{ok}
use ebpf_verifier.Linear.{Terms, Expression, is_constant, minus_number, negative}
use ebpf_verifier.Linear.Normal.{IsNormal, operators-IsNormal}
use ebpf_verifier.Linear.Meaning.{Valuation, sum, value, value-operators}
use ebpf_verifier.Linear.Constraints.{
  CstKind, Constraint, get_true, get_false, is_tautology, is_contradiction, negate,
}

abbrev pub compare_zero : CstKind → ℤ → Bool
compare_zero CstKind.equality n = eqb_ℤ n (pos 0)
compare_zero CstKind.disequation n = not (eqb_ℤ n (pos 0))
compare_zero CstKind.inequality n = leb_ℤ n (pos 0)
compare_zero CstKind.strict_inequality n = ltb_ℤ n (pos 0)

-- Whether a valuation meets a signed constraint.
unfoldable pub holds : Valuation → Constraint → Bool
holds σ c = compare_zero c.kind (value σ c.expr)

value-constant : (σ : Valuation) (e : Expression) → is_constant e ≡ true → value σ e ≡ e.cst
unfolding value sum
value-constant σ e h = go e.map h
  where
    go :
        (map : Terms)
        → is_constant (record { map = map; cst = e.cst }) ≡ true
        → value σ (record { map = map; cst = e.cst }) ≡ e.cst
    go [] h = zero-+ℤ e.cst
    go (_ ∷ _) h = cc

abbrev make : CstKind → Expression → Bool → Constraint
make kind e s = record { kind = kind; expr = e; signedness = s }

sound_at :
    (kind : CstKind) (e : Expression) (s : Bool)
    → (is_tautology (make kind e s) ≡ true → compare_zero kind e.cst ≡ true)
      × (is_contradiction (make kind e s) ≡ true → compare_zero kind e.cst ≡ false)
unfolding is_tautology is_contradiction
sound_at CstKind.equality e s = ground arith
sound_at CstKind.disequation e s = ground arith
sound_at CstKind.inequality e s = ground arith
sound_at CstKind.strict_inequality e s = ground arith

constant_of_tautology : (c : Constraint) → is_tautology c ≡ true → is_constant c.expr ≡ true
unfolding is_tautology
constant_of_tautology c h = ground arith

constant_of_contradiction : (c : Constraint) → is_contradiction c ≡ true → is_constant c.expr ≡ true
unfolding is_contradiction
constant_of_contradiction c h = ground arith

-- A tautology holds under every valuation, and a contradiction under none.
pub tautology-contradiction_sound :
    (σ : Valuation) (c : Constraint)
    → (is_tautology c ≡ true → holds σ c ≡ true) × (is_contradiction c ≡ true → holds σ c ≡ false)
unfolding holds
tautology-contradiction_sound σ c = (
  λ h.
      ap (compare_zero c.kind) (value-constant σ c.expr (constant_of_tautology c h))
      ∙ (sound_at c.kind c.expr c.signedness).0 h,
  λ h.
      ap (compare_zero c.kind) (value-constant σ c.expr (constant_of_contradiction c h))
      ∙ (sound_at c.kind c.expr c.signedness).1 h,
)

holds-get_true : (σ : Valuation) → holds σ get_true ≡ true
unfolding holds value get_true sum ◌+ℤ◌
holds-get_true σ = refl

holds-get_false : (σ : Valuation) → holds σ get_false ≡ false
unfolding holds value get_false sum ◌+ℤ◌
holds-get_false σ = refl

-- `negate(e <= 0)` is `1 - e <= 0`, and `negate(e < 0)` is `-e <= 0`.
complement_inequality : (n : ℤ) → leb_ℤ (pos 0 -ℤ (n -ℤ pos 1)) (pos 0) ≡ not (leb_ℤ n (pos 0))
complement_inequality n = ground (arith, -ℤ_parts n (pos 1), -ℤ_parts (pos 0) (n -ℤ pos 1))

complement_strict : (n : ℤ) → leb_ℤ (pos 0 -ℤ n) (pos 0) ≡ not (ltb_ℤ n (pos 0))
complement_strict n = ground (arith, -ℤ_parts (pos 0) n)

complement_disequation : (n : ℤ) → eqb_ℤ n (pos 0) ≡ not (not (eqb_ℤ n (pos 0)))
complement_disequation n = ground arith

module _ (e : Expression) (v : IsNormal e) where
  negative-IsNormal : IsNormal (negative e)
  negative-IsNormal = (operators-IsNormal e e (pos 0) 0 v).7

  value-negative : (σ : Valuation) → value σ (negative e) ≡ pos 0 -ℤ value σ e
  value-negative σ = (value-operators σ e e (pos 0) 0 v).7

  value-minus_number : (σ : Valuation) → value σ (minus_number e (pos 1)) ≡ value σ e -ℤ pos 1
  value-minus_number σ = (value-operators σ e e (pos 1) 0 v).3

abbrev IsComplement : Constraint → Constraint → Type 0
IsComplement c d =
    (d.signedness ≡ true) × IsNormal d.expr × ((σ : Valuation) → holds σ d ≡ not (holds σ c))

negate_cases :
    (kind : CstKind) (e : Expression)
    → IsNormal e
    → is_tautology (make kind e true) ≡ false
    → is_contradiction (make kind e true) ≡ false
    → (d : Constraint) × (negate (make kind e true) ≡ ok d) × IsComplement (make kind e true) d
unfolding negate holds minus_number
negate_cases CstKind.equality e v t f =
    (make CstKind.disequation e true, rw (t, f), (refl, v, λ σ. refl))
negate_cases CstKind.disequation e v t f =
    (make CstKind.equality e true, rw (t, f), (refl, v, λ σ. complement_disequation (value σ e)))
negate_cases CstKind.inequality e v t f = (
  make CstKind.inequality (negative (minus_number e (pos 1))) true,
  rw (t, f),
  (
    refl,
    negative-IsNormal (minus_number e (pos 1)) v,
    λ σ.
        ap (λ n. leb_ℤ n (pos 0))
          (value-negative (minus_number e (pos 1)) v σ
            ∙ ap (λ n. pos 0 -ℤ n) (value-minus_number e v σ))
        ∙ complement_inequality (value σ e),
  ),
)
negate_cases CstKind.strict_inequality e v t f = (
  make CstKind.inequality (negative e) true,
  rw (t, f),
  (
    refl,
    negative-IsNormal e v,
    λ σ. ap (λ n. leb_ℤ n (pos 0)) (value-negative e v σ) ∙ complement_strict (value σ e),
  ),
)

tautology_kind : (c : Constraint) → is_tautology (make c.kind c.expr true) ≡ is_tautology c
unfolding is_tautology
tautology_kind c = refl

contradiction_kind :
    (c : Constraint) → is_contradiction (make c.kind c.expr true) ≡ is_contradiction c
unfolding is_contradiction
contradiction_kind c = refl

abbrev Negated : Constraint → Type 0
Negated c = (d : Constraint) × (negate c ≡ ok d) × IsComplement c d

negated : (c : Constraint) → c.signedness ≡ true → Negated (make c.kind c.expr true) → Negated c
negated c s = subst Negated (λ i. make c.kind c.expr (sym s i))

-- The complement of a signed constraint on a normal expression is defined, is a signed constraint
-- on a normal expression, and holds under exactly the valuations under which the first one does
-- not.
pub holds-negate :
    (c : Constraint)
    → IsNormal c.expr
    → c.signedness ≡ true
    → (d : Constraint) × (negate c ≡ ok d)
      × (d.signedness ≡ true)
      × IsNormal d.expr
      × ((σ : Valuation) → holds σ d ≡ not (holds σ c))
unfolding negate get_false get_true
holds-negate c v s = elim (Bool-cases (is_tautology c)) [
  | inl t ↦ (
    get_false,
    rw t,
    refl,
    tt,
    λ σ. holds-get_false σ ∙ ap not (sym ((tautology-contradiction_sound σ c).0 t)),
  )
  | inr t ↦ elim (Bool-cases (is_contradiction c)) [
    | inl f ↦ (
      get_true,
      rw (t, f),
      refl,
      tt,
      λ σ. holds-get_true σ ∙ ap not (sym ((tautology-contradiction_sound σ c).1 f)),
    )
    | inr f ↦
        let r =
          negated c s
            (negate_cases c.kind c.expr v (tautology_kind c ∙ t) (contradiction_kind c ∙ f)) in
        (r.0, r.1, r.2.0, r.2.1, r.2.2)
  ]
]
