-- ===== src/Common/Words.antt =====
-- Machine words as native numbers: a value of a w-bit type is its bit pattern, below 2 ^ w.
use my_git_hub.Common.Tests.{ltb, if◌then◌else◌}
use Prim.Native.Nat.{ℕ, ◌+◌, ◌-◌, ◌*◌, ◌/◌, ◌%◌, ◌^◌}

abbrev pub u32_mod : ℕ
u32_mod = 2 ^ 32

abbrev pub u64_mod : ℕ
u64_mod = 2 ^ 64

abbrev pub add32 : ℕ → ℕ → ℕ
add32 a b = (a + b) % u32_mod

abbrev pub mul32 : ℕ → ℕ → ℕ
mul32 a b = (a * b) % u32_mod

-- `int64_t` and `uint64_t` sums and differences are the same on bit patterns.
abbrev pub add64 : ℕ → ℕ → ℕ
add64 a b = (a + b) % u64_mod

abbrev pub sub64 : ℕ → ℕ → ℕ
sub64 a b = (a + (u64_mod - b % u64_mod)) % u64_mod

-- The quotient of a number that is not negative by an `int64_t` pattern, towards zero.
abbrev pub div64 : ℕ → ℕ → ℕ
div64 a t = if ltb t (2 ^ 63) then a / t else sub64 0 (a / (u64_mod - t))
