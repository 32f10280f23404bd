-- ===== src/Base/Word.antt =====
-- 64-bit counters. Release builds do not check for overflow, so an increment wraps around.
use Prim.Native.Nat.{ℕ, ◌+◌, ◌%◌, ◌^◌, ◌<◌}
use mathlib.Core.Path.{◌≡◌}
use native.Mathlib.Omega.{arith}

abbrev pub u64_mod : ℕ
u64_mod = 2 ^ 64

abbrev pub i64_mod : ℕ
i64_mod = 2 ^ 63

-- `n + 1` on `u64`
unfoldable pub u64_succ : ℕ → ℕ
u64_succ n = (n + 1) % u64_mod

pub u64_succ_lem : (n : ℕ) → n + 1 < u64_mod → u64_succ n ≡ n + 1
unfolding u64_succ
u64_succ_lem n h = omega arith

pub u64_succ-lt : (n : ℕ) → u64_succ n < u64_mod
unfolding u64_succ
u64_succ-lt n = omega arith
