-- ===== src/Cells/Overlap.antt =====
-- The overlap of cells of src/crab/array_domain.hpp, in bytes.
use ebpf_verifier.Base.{ℕ, ◌+◌, ◌-◌, ◌%◌, ◌^◌, ◌<◌, ◌≤◌, ◌≡◌, not, ◌&&◌, ltb, ◌==◌, arith}
use ebpf_verifier.Base.Int.{pos, ◌+ℤ◌}
use ebpf_verifier.Base.Word.{u32_of, i32_of}
use ebpf_verifier.Bound
use ebpf_verifier.Bound.{finite}
use ebpf_verifier.Interval
use ebpf_verifier.Interval.{Interval, interval}
use ebpf_verifier.Cells.{Cell, to_interval, cell_eq, overlap}

-- The bytes of the range are numbers of an `int`, and there is at least one.
abbrev pub Fits : ℕ → ℕ → Type 0
Fits o size = (0 < size) × (o + size ≤ 2 ^ 31)

abbrev span : ℕ → ℕ → Interval
span o size = record { lb = finite (pos o); ub = finite (pos (o + size - 1)) }

i32_of_small : (n : ℕ) → n < 2 ^ 31 → i32_of n ≡ pos n
unfolding i32_of
i32_of_small n h = ground arith

u32_of_small : (n : ℕ) → n < 2 ^ 31 → u32_of (pos n) ≡ n
unfolding u32_of
u32_of_small n h = omega arith

last_byte : (size : ℕ) → 0 < size → size ≤ 2 ^ 31 → (size + (2 ^ 32 - 1)) % 2 ^ 32 ≡ size - 1
last_byte size p h = omega arith

pos-+ℤ : (a b : ℕ) → pos a +ℤ pos b ≡ pos (a + b)
unfolding ◌+ℤ◌
pos-+ℤ a b = ground arith

interval_ordered :
    (a b : ℕ)
    → a ≤ b
    → interval (finite (pos a)) (finite (pos b))
      ≡ record { lb = finite (pos a); ub = finite (pos b) }
unfolding interval Bound.gt Bound.le
interval_ordered a b h = ground arith

to_interval_lem : (o size : ℕ) → Fits o size → to_interval o size ≡ span o size
unfolding to_interval
to_interval_lem o size h =
    let last : o + (size - 1) ≡ o + size - 1 = omega arith in
    rw
      (
        last_byte size h.0 (omega arith),
        i32_of_small o (omega arith),
        i32_of_small (size - 1) (omega arith),
        pos-+ℤ o (size - 1),
        last,
        u32_of_small (o + size - 1) (omega arith),
        i32_of_small (o + size - 1) (omega arith),
      )
      (interval_ordered o (o + size - 1) (omega arith))

overlap-span :
    (o size p length : ℕ)
    → Fits o size
    → Fits p length
    → not (Interval.is_bottom (Interval.meet (span o size) (span p length)))
      ≡ (ltb o (p + length) && ltb p (o + size))
unfolding Interval.is_bottom Interval.meet Bound.gt Bound.le Bound.max Bound.min interval
overlap-span o size p length h k = ground arith

eq-span :
    (o size p length : ℕ)
    → Fits o size
    → Fits p length
    → Interval.eq (span o size) (span p length) ≡ (o == p && size == length)
unfolding Interval.eq Interval.is_bottom Bound.gt Bound.le Bound.eq
eq-span o size p length h k = ground arith

-- For a cell and a range, both of at least one byte and below 2^31, `overlap` says whether the two
-- have a byte in common.
pub overlap_lem :
    (c : Cell) (o size : ℕ)
    → Fits c.offset c.size
    → Fits o size
    → overlap c o size ≡ (ltb c.offset (o + size) && ltb o (c.offset + c.size))
unfolding overlap
overlap_lem c o size h k =
    rw (to_interval_lem c.offset c.size h, to_interval_lem o size k)
      (overlap-span c.offset c.size o size h k)

pub cell_eq_lem :
    (c d : Cell)
    → Fits c.offset c.size
    → Fits d.offset d.size
    → cell_eq c d ≡ (c.offset == d.offset && c.size == d.size)
unfolding cell_eq
cell_eq_lem c d h k =
    rw (to_interval_lem c.offset c.size h, to_interval_lem d.offset d.size k)
      (eq-span c.offset c.size d.offset d.size h k)
