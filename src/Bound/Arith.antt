-- ===== src/Bound/Arith.antt =====
-- The product of bounds is monotone, so that a product of integers lies between the products of
-- bounds.
use mathlib.Core.Logic.{◌⊎◌}
use ebpf_verifier.Base.{◌≡◌, Bool, true, false, ◌||◌, arith, refl, inl, inr, if◌then◌else◌}
use ebpf_verifier.Base.Int.{ℤ, pos, negsuc, neg_ℤ, ◌*ℤ◌, ◌≤ℤ◌, eqb_ℤ, ltb_ℤ}
use ebpf_verifier.Base.Product.{*ℤ_mono, *ℤ_anti, *ℤ_comm}
use ebpf_verifier.Bound.{Bound, bound, finite, le, mul, min, max, neg}
use ebpf_verifier.Bound.Order.{
  IsWf, number, top, bottom, Le, le_total, min-le, le-max, le-finite_iff,
}

pub neg-IsWf : {x : Bound} → IsWf x → IsWf (neg x)
unfolding neg bound
neg-IsWf (number n) = number (neg_ℤ n)
neg-IsWf top = bottom
neg-IsWf bottom = top

pub mul-number : (a b : ℤ) → mul (finite a) (finite b) ≡ finite (a *ℤ b)
unfolding mul bound ◌*ℤ◌
mul-number a b = ground arith

bound-IsWf : (inf : Bool) (n : ℤ) → IsWf (bound inf n)
unfolding bound
bound-IsWf false n = number n
bound-IsWf true n =
    elim (ltb_ℤ (pos 0) n)
      as (λ b. IsWf (record { is_infinite = true; n = if b then pos 1 else negsuc 0 })) [
        | true ↦ top
        | false ↦ bottom
      ]

pub mul-IsWf : {x y : Bound} → IsWf x → IsWf y → IsWf (mul x y)
unfolding mul
mul-IsWf {x} {y} hx hy =
    elim (eqb_ℤ y.n (pos 0))
      as (λ b. IsWf (
        if b
        then y
        else (if eqb_ℤ x.n (pos 0)
            then x
            else bound (x.is_infinite || y.is_infinite) (x.n *ℤ y.n)))) [
              | true ↦ hy
              | false ↦
                  elim (eqb_ℤ x.n (pos 0))
                    as (λ b.
                      IsWf (if b then x else bound (x.is_infinite || y.is_infinite) (x.n *ℤ y.n))) [
                        | true ↦ hx
                        | false ↦ bound-IsWf _ _
                      ]
            ]

-- Multiplication by a factor that is not negative keeps the order, by one that is not positive
-- turns it round.
mono_numbers :
    (a b c : ℤ)
    → Le (finite (pos 0)) (finite a)
    → b ≤ℤ c
    → Le (mul (finite a) (finite b)) (mul (finite a) (finite c))
mono_numbers a b c h p =
    rw (mul-number a b, mul-number a c)
      ((le-finite_iff _ _).1 (*ℤ_mono a b c ((le-finite_iff _ _).0 h) p))

anti_numbers :
    (a b c : ℤ)
    → Le (finite a) (finite (pos 0))
    → b ≤ℤ c
    → Le (mul (finite a) (finite c)) (mul (finite a) (finite b))
anti_numbers a b c h p =
    rw (mul-number a b, mul-number a c)
      ((le-finite_iff _ _).1 (*ℤ_anti a b c ((le-finite_iff _ _).0 h) p))

mul_mono :
    {x y w : Bound}
    → IsWf x
    → IsWf y
    → IsWf w
    → Le (finite (pos 0)) x
    → Le y w
    → Le (mul x y) (mul x w)
unfolding mul bound le ◌*ℤ◌
mul_mono (number a) (number b) (number c) h p = mono_numbers a b c h (ground arith)
mul_mono (number a) (number b) top h p = ground arith
mul_mono (number a) bottom (number c) h p = ground arith
mul_mono (number a) top top h p = ground arith
mul_mono (number a) bottom bottom h p = ground arith
mul_mono (number a) bottom top h p = ground arith
mul_mono top (number b) (number c) h p = ground arith
mul_mono _ _ _ h p = ground arith

mul_anti :
    {x y w : Bound}
    → IsWf x
    → IsWf y
    → IsWf w
    → Le x (finite (pos 0))
    → Le y w
    → Le (mul x w) (mul x y)
unfolding mul bound le ◌*ℤ◌
mul_anti (number a) (number b) (number c) h p = anti_numbers a b c h (ground arith)
mul_anti (number a) (number b) top h p = ground arith
mul_anti (number a) bottom (number c) h p = ground arith
mul_anti (number a) top top h p = ground arith
mul_anti (number a) bottom bottom h p = ground arith
mul_anti (number a) bottom top h p = ground arith
mul_anti bottom (number b) (number c) h p = ground arith
mul_anti _ _ _ h p = ground arith

pub mul_comm : {x y : Bound} → IsWf x → IsWf y → mul x y ≡ mul y x
unfolding mul bound ◌*ℤ◌
mul_comm (number a) (number b) = rw (mul-number a b, mul-number b a, *ℤ_comm a b)
mul_comm (number a) top = ground arith
mul_comm (number a) bottom = ground arith
mul_comm top (number b) = ground arith
mul_comm bottom (number b) = ground arith
mul_comm _ _ = refl

-- A product with a factor between `y` and `y'` lies between the products with these.
module _ {x y w y' : Bound} (hx : IsWf x) (hy : IsWf y) (hw : IsWf w) (hy' : IsWf y') (p : Le y w)
    (q : Le w y') where
  pub mul_between :
      Le (min (mul x y) (mul x y')) (mul x w) × Le (mul x w) (max (mul x y) (mul x y'))
  mul_between = go (le_total (number (pos 0)) hx)
    where
      ly : IsWf (mul x y)
      ly = mul-IsWf hx hy

      lw : IsWf (mul x w)
      lw = mul-IsWf hx hw

      ly' : IsWf (mul x y')
      ly' = mul-IsWf hx hy'

      go :
          Le (finite (pos 0)) x ⊎ Le x (finite (pos 0))
          → Le (min (mul x y) (mul x y')) (mul x w) × Le (mul x w) (max (mul x y) (mul x y'))
      go (inl h) = (
        min-le (inl (mul_mono hx hy hw h p)) ly ly' lw,
        le-max (inr (mul_mono hx hw hy' h q)) ly ly' lw,
      )
      go (inr h) = (
        min-le (inr (mul_anti hx hw hy' h q)) ly ly' lw,
        le-max (inl (mul_anti hx hy hw h p)) ly ly' lw,
      )
