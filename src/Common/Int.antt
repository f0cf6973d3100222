-- ===== src/Common/Int.antt =====
-- Signed integers: a Go `int64`, `int` or `time.Duration` that the code compares with zero.
use cache_predict.Common.{ℕ, suc, ◌+◌, ◌-◌, ◌%◌, ◌^◌, Bool, ltb}

-- `negsuc n` is -(n + 1).
pub data ℤ : Type 0 where
  pos : ℕ → ℤ
  negsuc : ℕ → ℤ

-- t.Add(d), where the sum is not before 1970
abbrev pub later_by : ℕ → ℤ → ℕ
later_by t (pos n) = t + n
later_by t (negsuc n) = t - suc n

-- The 64 bits of a Go int, in two's complement.
abbrev pub int_bits : ℤ → ℕ
int_bits (pos n) = n % 2 ^ 64
int_bits (negsuc n) = 2 ^ 64 - suc (n % 2 ^ 64)

-- a < b, for the bits of two Go ints
abbrev pub int_lt : ℕ → ℕ → Bool
int_lt a b = ltb ((a + 2 ^ 63) % 2 ^ 64) ((b + 2 ^ 63) % 2 ^ 64)
