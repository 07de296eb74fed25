-- ===== src/Base/Int.antt =====
-- Signed integers, as far as a bound on them is tested.
use Prim.Native.Nat.{ℕ}
use mathlib.Core.Bool.{Bool, false}
use aiworkos.Base.Tests.{leb}

-- `negsuc n` is -(n + 1).
pub data ℤ : Type 0 where
  pos : ℕ → ℤ
  negsuc : ℕ → ℤ

-- `0 <= n <= 100`
abbrev pub is_percentage : ℤ → Bool
is_percentage (pos n) = leb n 100
is_percentage (negsuc n) = false
