-- ===== src/Common/Words.antt =====
-- `size_t` arithmetic: 64 bits, wrapping round.
use Prim.Native.Nat.{ℕ, ◌+◌, ◌-◌, ◌%◌, ◌^◌, ◌≤◌, ◌<◌}
use mathlib.Core.Path.{◌≡◌}
use native.Mathlib.Omega.{arith}

abbrev pub size_mod : ℕ
size_mod = 2 ^ 64

abbrev pub add_size : ℕ → ℕ → ℕ
add_size a b = (a + b) % 2 ^ 64

abbrev pub sub_size : ℕ → ℕ → ℕ
sub_size a b = (2 ^ 64 + a - b) % 2 ^ 64

pub add_size_exact : (a b : ℕ) → a + b < 2 ^ 64 → add_size a b ≡ a + b
add_size_exact a b h = omega arith

pub sub_size_exact : (a b : ℕ) → b ≤ a → a < 2 ^ 64 → sub_size a b ≡ a - b
sub_size_exact a b h k = omega arith
