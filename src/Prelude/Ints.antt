-- ===== src/Prelude/Ints.antt =====
-- The C integers of the file system: `int` and `ssize_t` as integers, `size_t` modulo 2^64.
use Prim.Native.Nat.{ℕ, ◌+◌, ◌-◌, ◌*◌, ◌%◌, ◌<◌}
use mathlib.Core.Path.{◌≡◌}
use mathlib.Core.Bool.{Bool, true, false}
use native.Mathlib.Omega.{arith}
use t_cnico_file_system_pt.Prelude.Tests.{ltb, if◌then◌else◌}

-- `negsuc n` is -(n + 1).
pub data ℤ : Type 0 where
  pos : ℕ → ℤ
  negsuc : ℕ → ℤ

abbrev pub minus_one : ℤ
minus_one = negsuc 0

abbrev pub is_minus_one : ℤ → Bool
is_minus_one (pos n) = false
is_minus_one (negsuc n) = ltb n 1

abbrev pub is_nonneg : ℤ → Bool
is_nonneg (pos n) = true
is_nonneg (negsuc n) = false

abbrev pub int_half : ℕ
int_half = 2147483648

abbrev pub size_mod : ℕ
size_mod = 18446744073709551616

abbrev pub ssize_half : ℕ
ssize_half = 9223372036854775808

-- `(int)n`, for an `n` of 32 bits, and its inverse, the bit pattern of an `int`.
abbrev pub of_bits32 : ℕ → ℤ
of_bits32 n = if ltb n int_half then pos n else negsuc (int_half + int_half - 1 - n)

abbrev pub bits32 : ℤ → ℕ
bits32 (pos n) = n % (int_half + int_half)
bits32 (negsuc n) = int_half + int_half - 1 - n % (int_half + int_half)

-- `(int)n` of a `size_t`.
abbrev pub to_int : ℕ → ℤ
to_int n = of_bits32 (n % (int_half + int_half))

-- `(ssize_t)n` of a `size_t`.
abbrev pub to_ssize : ℕ → ℤ
to_ssize n = if ltb n ssize_half then pos n else negsuc (size_mod - 1 - n)

-- `size_t` arithmetic wraps.
abbrev pub add_size : ℕ → ℕ → ℕ
add_size a b = (a + b) % size_mod

abbrev pub sub_size : ℕ → ℕ → ℕ
sub_size a b = (size_mod + a - b) % size_mod

abbrev pub mul_size : ℕ → ℕ → ℕ
mul_size a b = a * b % size_mod

pub to_int-small : (n : ℕ) → n < int_half → to_int n ≡ pos n
to_int-small n h = ground arith
