-- ===== src/Base/Int.antt =====
-- Integers over the native numbers, for the one number of the client that a server can make negative.
use Prim.Native.Nat.{ℕ, suc, ◌*◌, ◌-◌, ◌^◌}
use integr8s_code.Base.Tests.{leb, if◌then◌else◌}

-- `negsuc n` is -(n + 1).
pub data ℤ : Type 0 where
  pos : ℕ → ℤ
  negsuc : ℕ → ℤ

-- `z * 2 ** k`
unfoldable pub shift : ℤ → ℕ → ℤ
shift (pos n) k = pos (n * 2 ^ k)
shift (negsuc n) k = negsuc (suc n * 2 ^ k - 1)

-- `Math.min(z, n)`, for a number n that is not negative.
unfoldable pub at_most : ℤ → ℕ → ℤ
at_most (pos m) n = if leb m n then pos m else pos n
at_most (negsuc m) n = negsuc m
