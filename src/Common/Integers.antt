-- ===== src/Common/Integers.antt =====
-- Go's int where a value may be negative: a number, or -(n + 1).
use Prim.Native.Nat.{ℕ}
use mathlib.Core.Bool.{Bool, true, false}
use unyport.Common.Tests.{leb, nat_eq}

pub data ℤ : Type 0 where
  pos negsuc : ℕ → ℤ

-- i <= n
abbrev pub at_most : ℤ → ℕ → Bool
at_most (pos i) n = leb i n
at_most (negsuc i) n = true

abbrev pub same_int : ℤ → ℤ → Bool
same_int (pos i) (pos j) = nat_eq i j
same_int (pos i) (negsuc j) = false
same_int (negsuc i) (pos j) = false
same_int (negsuc i) (negsuc j) = nat_eq i j
