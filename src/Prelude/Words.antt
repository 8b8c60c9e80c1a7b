-- ===== src/Prelude/Words.antt =====
-- Go's int and int64, as their bit patterns below 2 ^ 64.
use Prim.Native.Nat.{ℕ, ◌+◌, ◌*◌, ◌%◌, ◌^◌, ◌<◌}
use mathlib.Core.Path.{◌≡◌}
use mathlib.Core.Bool.{Bool}
use native.Mathlib.Omega.{arith}
use demo_redis.Prelude.Tests.{ltb}

abbrev pub int64_add : ℕ → ℕ → ℕ
int64_add a b = (a + b) % 2 ^ 64

abbrev pub int64_mul : ℕ → ℕ → ℕ
int64_mul a b = a * b % 2 ^ 64

-- The order of the numbers that two patterns stand for.
abbrev pub int64_lt : ℕ → ℕ → Bool
int64_lt a b = ltb ((a + 2 ^ 63) % 2 ^ 64) ((b + 2 ^ 63) % 2 ^ 64)

-- Patterns below 2 ^ 63 stand for themselves.
pub int64_lt-ltb : (a b : ℕ) → a < 2 ^ 63 → b < 2 ^ 63 → int64_lt a b ≡ ltb a b
int64_lt-ltb a b ha hb = ground arith
