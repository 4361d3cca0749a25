-- ===== src/Base/Words.antt =====
-- Machine words as native numbers: the widths of the C types, shifts, and subtraction that wraps.
use Prim.Native.Nat.{ℕ, ◌+◌, ◌-◌, ◌*◌, ◌/◌, ◌%◌, ◌^◌}
use soft_hier_release_test.Base.Tests.{◌==◌, if◌then◌else◌}

abbrev pub u16 : ℕ → ℕ
u16 n = n % 2 ^ 16

abbrev pub u32 : ℕ → ℕ
u32 n = n % 2 ^ 32

abbrev pub u64 : ℕ → ℕ
u64 n = n % 2 ^ 64

-- `a - b` in a 64-bit unsigned type.
abbrev pub sub64 : ℕ → ℕ → ℕ
sub64 a b = (a + 2 ^ 64 - b % 2 ^ 64) % 2 ^ 64

infixl 75 ◌<<<◌ ◌>>>◌
abbrev pub ◌<<<◌ : ℕ → ℕ → ℕ
x <<< k = x * 2 ^ k

abbrev pub ◌>>>◌ : ℕ → ℕ → ℕ
x >>> k = x / 2 ^ k

-- `if (n % 4) n = ((n >> 2) + 1) << 2` on an unsigned int.
abbrev pub align4 : ℕ → ℕ
align4 n = if n % 4 == 0 then n else u32 (((n >>> 2) + 1) <<< 2)
