-- ===== src/Common/Float.antt =====
-- The finite values of Go's `float64`, as an integer over a power of two.
use Prim.Native.Nat.{ℕ}
use shadowroller.Common.Int.{ℤ}

-- mantissa / 2 ^ exponent
pub record Float : Type 0 where
  pub mantissa : ℤ
  pub exponent : ℕ
