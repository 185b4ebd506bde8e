-- ===== src/Common/Words.antt =====
-- Unsigned 64-bit arithmetic: every operation of `u_int64_t` wraps at 2 ^ 64.
use Prim.Native.Nat.{ℕ, ◌+◌, ◌-◌, ◌%◌, ◌^◌}

abbrev pub u64 : ℕ → ℕ
u64 n = n % 2 ^ 64

abbrev pub add64 : ℕ → ℕ → ℕ
add64 a b = (a + b) % 2 ^ 64

abbrev pub sub64 : ℕ → ℕ → ℕ
sub64 a b = (a + 2 ^ 64 - b) % 2 ^ 64

-- `std::numeric_limits<u_int64_t>::max()`
abbrev pub max64 : ℕ
max64 = 2 ^ 64 - 1
