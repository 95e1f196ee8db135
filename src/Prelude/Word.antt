-- ===== src/Prelude/Word.antt =====
-- `u64` arithmetic in a release build: a result wraps around.
use Prim.Native.Nat.{ℕ, ◌+◌, ◌-◌, ◌%◌, ◌^◌, ◌≤◌, ◌<◌}
use mathlib.Core.Path.{◌≡◌}
use native.Mathlib.Omega.{arith}

unfoldable pub u64 : ℕ → ℕ
u64 x = x % 2 ^ 64

-- `a - b`, for `a` and `b` below 2 ^ 64
unfoldable pub sub_u64 : ℕ → ℕ → ℕ
unfolding u64
sub_u64 a b = u64 (a + 2 ^ 64 - b)

pub u64_id : (x : ℕ) → x < 2 ^ 64 → u64 x ≡ x
unfolding u64
u64_id x h = omega arith

pub sub_u64_lem : (a b : ℕ) → b ≤ a → a < 2 ^ 64 → sub_u64 a b ≡ a - b
unfolding sub_u64
sub_u64_lem a b le lt = omega arith
