-- ===== src/Base/Int.antt =====
-- Signed integers over the native numbers: C's `int64_t` results and ids, with no overflow.
use Prim.Native.Nat.{ℕ}
use mathlib.Core.Bool.{Bool, false}
use gnuweeb_bot.Base.Tests.{◌==◌}

-- `negsuc n` is -(n + 1).
pub data ℤ : Type 0 where
  pos : ℕ → ℤ
  negsuc : ℕ → ℤ

-- The -1 by which many functions report a failure.
abbrev pub minus_one : ℤ
minus_one = negsuc 0

abbrev pub is_minus_one : ℤ → Bool
is_minus_one (pos n) = false
is_minus_one (negsuc n) = n == 0
