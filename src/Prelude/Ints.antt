-- ===== src/Prelude/Ints.antt =====
-- The int of C as its 32-bit pattern.
use plum_os.Prelude.Tests.{ltb, leb, if◌then◌else◌}
use Prim.Native.Nat.{ℕ, ◌+◌, ◌-◌, ◌%◌, ◌^◌}
use mathlib.Core.Bool.{Bool, false}

-- Widened to 64 bits, with its sign
abbrev pub widened_int : ℕ → ℕ
widened_int n = if ltb n (2 ^ 31) then n else n + (2 ^ 64 - 2 ^ 32)

-- `n > 0`
abbrev pub is_positive : ℕ → Bool
is_positive n = if ltb n (2 ^ 31) then ltb 0 n else false

-- `a >= b`
abbrev pub int_at_least : ℕ → ℕ → Bool
int_at_least a b = leb ((b + 2 ^ 31) % 2 ^ 32) ((a + 2 ^ 31) % 2 ^ 32)

-- The rounds of `for (i = 0; i < n; i++)`
abbrev pub int_rounds : ℕ → ℕ
int_rounds n = if ltb n (2 ^ 31) then n else 0
