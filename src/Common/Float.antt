-- ===== src/Common/Float.antt =====
-- Python's `float`. Every finite double is a whole multiple of 2^-1074, so a finite value is the
-- integer that counts those; -0.0 and 0.0, which compare equal, are one value. Comparisons are
-- exact. Rounding arithmetic is not defined here: where the code divides or multiplies floats, the
-- result is an argument of the model.
use cosmos3_nano_web_ui.Common.Int.{ℤ, pos, ltb_ℤ}
use Prim.Native.Nat.{ℕ, ◌^◌}
use mathlib.Core.Bool.{Bool, true, false}

pub data Float : Type 0 where
  nan : Float
  neg_inf : Float
  fin : ℤ → Float
  pos_inf : Float

-- `a < b`: false whenever one side is NaN.
abbrev pub lt : Float → Float → Bool
lt nan b = false
lt a nan = false
lt neg_inf neg_inf = false
lt neg_inf b = true
lt (fin a) neg_inf = false
lt (fin a) (fin b) = ltb_ℤ a b
lt (fin a) pos_inf = true
lt pos_inf b = false

-- The count of 2^-1074 in 1.0.
unfoldable pub unit : ℕ
unit = 2 ^ 1074

abbrev pub zero : Float
zero = fin (pos 0)

abbrev pub one : Float
one = fin (pos unit)
