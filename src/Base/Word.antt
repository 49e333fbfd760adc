-- ===== src/Base/Word.antt =====
-- Machine words. An unsigned word is a native number with its wrap-around written out; a signed
-- word is the integer that it stands for, and a conversion goes through the bit pattern.
use ebpf_verifier.Base.{ℕ, ◌-◌, ◌*◌, ◌%◌, ◌^◌, ◌<◌, ◌≡◌, arith, ltb, if◌then◌else◌}
use ebpf_verifier.Base.Int.{ℤ, pos, negsuc}

-- The conversion to an unsigned word of modulus `m`.
abbrev pub to_unsigned : ℕ → ℤ → ℕ
to_unsigned m (pos n) = n % m
to_unsigned m (negsuc n) = m - 1 - n % m

-- The signed word of modulus `2 * h` with the bit pattern of `n`.
abbrev pub to_signed : ℕ → ℕ → ℤ
to_signed h n = if ltb (n % (2 * h)) h then pos (n % (2 * h)) else negsuc (2 * h - 1 - n % (2 * h))

-- `(uint32_t)z`, `(uint64_t)z`, `(uint16_t)z`, `(int32_t)n` and `(int16_t)z`.
unfoldable pub u32_of : ℤ → ℕ
u32_of z = to_unsigned (2 ^ 32) z

unfoldable pub u64_of : ℤ → ℕ
u64_of z = to_unsigned (2 ^ 64) z

unfoldable pub u16_of : ℤ → ℕ
u16_of z = to_unsigned (2 ^ 16) z

unfoldable pub i32_of : ℕ → ℤ
i32_of n = to_signed (2 ^ 31) n

unfoldable pub i16_of : ℤ → ℤ
i16_of z = to_signed (2 ^ 15) (to_unsigned (2 ^ 16) z)

-- The range of a signed word: -h ≤ z < h.
abbrev pub FitsSigned : ℕ → ℤ → Type 0
FitsSigned h (pos n) = n < h
FitsSigned h (negsuc n) = n < h

abbrev pub IsI32 : ℤ → Type 0
IsI32 z = FitsSigned (2 ^ 31) z

abbrev pub IsI16 : ℤ → Type 0
IsI16 z = FitsSigned (2 ^ 15) z

pub i32_of-u32_of : (z : ℤ) → IsI32 z → i32_of (u32_of z) ≡ z
unfolding i32_of u32_of
i32_of-u32_of (pos n) h = ground arith
i32_of-u32_of (negsuc n) h = ground arith

pub u32_of-i32_of : (n : ℕ) → n < 2 ^ 32 → u32_of (i32_of n) ≡ n
unfolding i32_of u32_of
u32_of-i32_of n h = ground arith

pub i16_of_fits : (z : ℤ) → IsI16 z → i16_of z ≡ z
unfolding i16_of
i16_of_fits (pos n) h = ground arith
i16_of_fits (negsuc n) h = ground arith

pub u32_of-lt : (z : ℤ) → u32_of z < 2 ^ 32
unfolding u32_of
u32_of-lt (pos n) = omega arith
u32_of-lt (negsuc n) = omega arith

pub i32_of_fits : (n : ℕ) → IsI32 (i32_of n)
unfolding i32_of
i32_of_fits n = ground arith
