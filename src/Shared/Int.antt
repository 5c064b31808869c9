-- ===== src/Shared/Int.antt =====
-- Go's signed integers, of which only the sign and the order are used, over the native numbers.
use Prim.Native.Nat.{ℕ}
use mathlib.Core.Bool.{Bool, true, false}
use engarde.Shared.Tests.{ltb, leb, ◌==◌}

-- `negsuc n` is -(n+1).
pub data ℤ : Type 0 where
  pos negsuc : ℕ → ℤ

abbrev pub is_unset : ℤ → Bool
is_unset (pos n) = n == 0
is_unset (negsuc n) = false

-- `0 < x`, `x <= n` and `0 <= x`.
abbrev pub is_positive : ℤ → Bool
is_positive (pos n) = ltb 0 n
is_positive (negsuc n) = false

abbrev pub at_most : ℕ → ℤ → Bool
at_most bound (pos n) = leb n bound
at_most bound (negsuc n) = true

abbrev pub is_natural : ℤ → Bool
is_natural (pos n) = true
is_natural (negsuc n) = false

-- `first < second`.
abbrev pub less : ℤ → ℤ → Bool
less (pos m) (pos n) = ltb m n
less (pos m) (negsuc n) = false
less (negsuc m) (pos n) = true
less (negsuc m) (negsuc n) = ltb n m
