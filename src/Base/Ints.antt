-- ===== src/Base/Ints.antt =====
-- Signed integers over the native numbers, and Go's 64-bit `int`.
use Prim.Native.Nat.{ℕ, suc, ◌+◌, ◌-◌, ◌*◌, ◌%◌, ◌^◌}
use mathlib.Core.Bool.{Bool}
use getresolvd.Base.Tests.{ltb, if◌then◌else◌}

-- `negsuc n` is -(n + 1).
pub data ℤ : Type 0 where
  pos : ℕ → ℤ
  negsuc : ℕ → ℤ

abbrev pub pos_part : ℤ → ℕ
pos_part (pos n) = n
pos_part (negsuc n) = 0

abbrev pub neg_part : ℤ → ℕ
neg_part (pos n) = 0
neg_part (negsuc n) = suc n

-- `a < b`.
abbrev pub ltb_ℤ : ℤ → ℤ → Bool
ltb_ℤ a b = ltb (pos_part a + neg_part b) (pos_part b + neg_part a)

-- `uint(a)`.
abbrev pub to_uint : ℤ → ℕ
to_uint (pos n) = n % 2 ^ 64
to_uint (negsuc n) = (2 ^ 64 - 1 - n % 2 ^ 64) % 2 ^ 64

-- The `int64` with the bit pattern `n`.
abbrev pub of_bits : ℕ → ℤ
of_bits n = let m = n % 2 ^ 64 in if ltb m (2 ^ 63) then pos m else negsuc (2 ^ 64 - 1 - m)

-- `a * k` in `int64`, which wraps around.
abbrev pub mul_int64 : ℤ → ℕ → ℤ
mul_int64 a k = of_bits (to_uint a * k)
