-- ===== src/Prelude/Words.antt =====
-- `uint32_t` arithmetic: a value is a number below `2 ^ 32`, and the operations wrap.
use Prim.Native.Nat.{ℕ, ◌+◌, ◌-◌, ◌%◌, ◌^◌, ◌≤◌}
use mathlib.Core.Path.{◌≡◌}
use native.Mathlib.Omega.{arith}

abbrev pub u32_mod : ℕ
u32_mod = 2 ^ 32

abbrev pub uint_max : ℕ
uint_max = 2 ^ 32 - 1

unfoldable pub add32 : ℕ → ℕ → ℕ
add32 a b = (a + b) % u32_mod

unfoldable pub sub32 : ℕ → ℕ → ℕ
sub32 a b = (a + u32_mod - b) % u32_mod

pub add32_exact : (a b : ℕ) → a + b ≤ uint_max → add32 a b ≡ a + b
unfolding add32
add32_exact a b h = omega arith

pub sub32_exact : (a b : ℕ) → b ≤ a → a ≤ uint_max → sub32 a b ≡ a - b
unfolding sub32
sub32_exact a b h k = omega arith
