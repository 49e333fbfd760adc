-- ===== src/Interval/Quotient.antt =====
-- The division by a positive number in src/crab/interval.cpp.
use native.Mathlib.Nat.{div-mul-le_self, le-div_iff_mul-le, div-one}
use ebpf_verifier.Base.{
  ℕ, zero, suc, ◌/◌, ◌≤◌, ◌<◌, ◌≡◌, refl, ap, sym, subst, inl, inr, true, false, Bool-cases, some,
  arith,
}
use ebpf_verifier.Base.Int.{ℤ, pos, negsuc, neg_ℤ, tdiv, leb_ℤ}
use ebpf_verifier.Outcome.{Result, ok, ◌>>=◌}
use ebpf_verifier.Bound
use ebpf_verifier.Bound.{Bound, finite, plus_infinity, minus_infinity}
use ebpf_verifier.Interval.{Interval, bottom, of_number, interval, is_bottom, singleton}
use ebpf_verifier.Interval.Valid.{
  IsLower, IsUpper, IsValid, Contains, bottom_empty, Contains-interval_iff, interval-IsValid,
  bottom-IsValid,
}
use ebpf_verifier.Interval.Divide.{divide, divide_step, divide_singleton, divide_general}

quotient_mono : (a b c : ℕ) → 0 < c → a ≤ b → a / c ≤ b / c
quotient_mono a b c p h = (le-div_iff_mul-le p).1 (omega (arith, div-mul-le_self a c))

tdiv_mono :
    (a b : ℤ) (c : ℕ) → 0 < c → leb_ℤ a b ≡ true → leb_ℤ (tdiv a (pos c)) (tdiv b (pos c)) ≡ true
unfolding tdiv
tdiv_mono (pos a) (pos b) c p h = ground (arith, h, quotient_mono a b c p)
tdiv_mono (pos a) (negsuc b) c p h = ground (arith, h)
tdiv_mono (negsuc a) (pos b) c p h = ground (arith, h)
tdiv_mono (negsuc a) (negsuc b) c p h = ground (arith, h, quotient_mono (suc b) (suc a) c p)

-- The quotient of a lower bound is defined, and is at most the quotient of the integers above it.
lower_quotient :
    {l : Bound}
    → IsLower l
    → (c : ℕ) → 0 < c
    → (q : Bound) × (Bound.div l (finite (pos c)) ≡ ok q)
      × IsLower q
      × ((a : ℤ) → Bound.le l (finite a) ≡ true → Bound.le q (finite (tdiv a (pos c))) ≡ true)
unfolding Bound.div Bound.bound Bound.le
lower_quotient (IsLower.number n) c p = (
  finite (tdiv n (pos c)),
  ground (arith, p),
  IsLower.number (tdiv n (pos c)),
  λ a h. tdiv_mono n a c p h,
)
lower_quotient IsLower.infinity c p =
    (minus_infinity, ground (arith, p), IsLower.infinity, λ a h. refl)

upper_quotient :
    {u : Bound}
    → IsUpper u
    → (c : ℕ) → 0 < c
    → (q : Bound) × (Bound.div u (finite (pos c)) ≡ ok q)
      × IsUpper q
      × ((a : ℤ) → Bound.le (finite a) u ≡ true → Bound.le (finite (tdiv a (pos c))) q ≡ true)
unfolding Bound.div Bound.bound Bound.le
upper_quotient (IsUpper.number n) c p = (
  finite (tdiv n (pos c)),
  ground (arith, p),
  IsUpper.number (tdiv n (pos c)),
  λ a h. tdiv_mono a n c p h,
)
upper_quotient IsUpper.infinity c p =
    (plus_infinity, ground (arith, p), IsUpper.infinity, λ a h. refl)

-- A result, valid, that holds the quotient of every integer of the dividend.
abbrev Quotients : Interval → ℕ → Result Interval → Type 0
Quotients i c m =
    (r : Interval) × m ≡ ok r × IsValid r × ((a : ℤ) → Contains i a → Contains r (tdiv a (pos c)))

tdiv_one : (a : ℤ) → tdiv a (pos 1) ≡ a
unfolding tdiv
tdiv_one (pos a) = ap pos (div-one a)
tdiv_one (negsuc a) = ap (λ n. neg_ℤ (pos n)) (div-one (suc a))

bounds_divided :
    (i : Interval) (c : ℕ)
    → IsValid i
    → 0 < c
    → Quotients i c (
        Bound.div i.lb (finite (pos c)) >>= λ l.
        Bound.div i.ub (finite (pos c)) >>= λ u. ok (interval l u))
bounds_divided i c v p =
    let (l, e, hl, kl) = lower_quotient v.lower c p in
    let (u, f, hu, ku) = upper_quotient v.upper c p in
    (
      interval l u,
      rw (e, f) refl,
      interval-IsValid l u hl hu,
      λ a h. (Contains-interval_iff l u (tdiv a (pos c)) hl hu).1 (kl a h.0, ku a h.1),
    )

not_less : ¬ (0 < 0)
not_less = omega arith

singleton_divided :
    (i : Interval) (c : ℕ) (general : Result Interval)
    → IsValid i
    → 0 < c
    → Quotients i c (divide_singleton i (pos c) general)
unfolding divide_singleton
singleton_divided i (suc zero) general v p =
    (i, refl, v, λ a h. subst (Contains i) (sym (tdiv_one a)) h)
singleton_divided i (suc (suc c)) general v p =
    let (r, e, w, h) = bounds_divided i (suc (suc c)) v p in (r, ground (arith, e), w, h)
singleton_divided i zero general v p = absurd (not_less p)

singleton-of_number : (n : ℤ) → singleton (of_number n) ≡ some n
unfolding singleton is_bottom Bound.gt Bound.le Bound.eq Bound.number
singleton-of_number n = ground arith

of_number_inhabited : (n : ℤ) → is_bottom (of_number n) ≡ false
unfolding is_bottom Bound.gt Bound.le
of_number_inhabited n = ground arith

step_divided :
    (rec : Interval → Interval → Result Interval) (i : Interval) (c : ℕ)
    → IsValid i
    → 0 < c
    → Quotients i c (divide_step rec i (of_number (pos c)))
unfolding divide_step
step_divided rec i c v p = elim (Bool-cases (is_bottom i)) [
  | inl e ↦
      (bottom, rw (e, divide_step) refl, bottom-IsValid, λ a h. absurd (bottom_empty i a v e h))
  | inr e ↦
      let (r, d, w, h) = singleton_divided i c (divide_general rec i (of_number (pos c))) v p in
      (r, rw (e, of_number_inhabited (pos c), singleton-of_number (pos c), divide_step) d, w, h)
]

-- The division of a valid interval by a positive number is defined, is valid, and holds the
-- quotient, rounded towards zero, of every integer of the interval.
pub divide-of_number :
    (i : Interval) (c : ℕ)
    → IsValid i
    → 0 < c
    → (r : Interval) × divide i (of_number (pos c)) ≡ ok r
      × IsValid r
      × ((a : ℤ) → Contains i a → Contains r (tdiv a (pos c)))
unfolding divide
divide-of_number i c v p = step_divided _ i c v p
