-- ===== src/Prelude/Machine.antt =====
-- `uint32_t` arithmetic, which wraps at 2 ^ 32. An `int32_t` that is passed through such a variable
-- is its bit pattern.
use Prim.Native.Nat.{ℕ, ◌+◌, ◌-◌, ◌*◌, ◌%◌, ◌^◌}

abbrev pub u32_mod : ℕ
u32_mod = 2 ^ 32

abbrev pub add32 : ℕ → ℕ → ℕ
add32 a b = (a + b) % 2 ^ 32

abbrev pub sub32 : ℕ → ℕ → ℕ
sub32 a b = (a + 2 ^ 32 - b) % 2 ^ 32

abbrev pub mul32 : ℕ → ℕ → ℕ
mul32 a b = a * b % 2 ^ 32

-- The bit pattern of -1.
abbrev pub ones32 : ℕ
ones32 = 2 ^ 32 - 1
