-- ===== src/Prelude/Number.antt =====
-- A value of the language's type `number`, as far as the validations of the program tell such
-- values apart: an integer, or anything else (a fraction, NaN, an infinity).
use Prim.Native.Nat.{ℕ}
use mathlib.Core.Bool.{Bool, true, false}
use bom_trato_api.Prelude.Tests.{ltb, leb, ◌==◌}

-- `negative n` is -(n + 1).
pub data Num : Type 0 where
  nat : ℕ → Num
  negative : ℕ → Num
  fractional : Num

abbrev pub max_safe_integer : ℕ
max_safe_integer = 9007199254740991

-- The largest value of a 32-bit signed integer column.
abbrev pub max_int : ℕ
max_int = 2147483647

-- `Number.isSafeInteger(x)`
abbrev pub is_safe_integer : Num → Bool
is_safe_integer (nat n) = leb n max_safe_integer
is_safe_integer (negative n) = ltb n max_safe_integer
is_safe_integer fractional = false

-- `Number.isInteger(x)`
abbrev pub is_integer : Num → Bool
is_integer fractional = false
is_integer _ = true

-- `x < k` and `k < x`. Where the code compares, it has refused `fractional` before.
abbrev pub num_below : Num → ℕ → Bool
num_below (nat n) k = ltb n k
num_below (negative n) k = true
num_below fractional k = false

abbrev pub num_above : Num → ℕ → Bool
num_above (nat n) k = ltb k n
num_above (negative n) k = false
num_above fractional k = false

-- The number that a validated value is.
abbrev pub value : Num → ℕ
value (nat n) = n
value _ = 0

-- `x === k`
abbrev pub num_is : Num → ℕ → Bool
num_is (nat n) k = n == k
num_is _ k = false
