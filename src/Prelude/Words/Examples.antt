-- ===== src/Prelude/Words/Examples.antt =====
-- Numbers that are read.
use Prim.Native.Nat.{◌-◌, ◌^◌}
use mathlib.Core.Path.{◌≡◌, refl}
use netsee.Prelude.Int.{negsuc, pos}
use netsee.Prelude.Text.{utf8}
use netsee.Prelude.Words.{atoi_value, clamped, digits_value, unsigned_value}

-- An error of `strconv.Atoi` that is dropped leaves 0 or the largest number.
atoi_value_text : atoi_value (utf8 "12x") ≡ pos 0
unfolding atoi_value unsigned_value digits_value clamped utf8
atoi_value_text = refl

atoi_value_large : atoi_value (utf8 "-99999999999999999999x") ≡ negsuc (2 ^ 63 - 1)
unfolding atoi_value unsigned_value digits_value clamped utf8
atoi_value_large = refl
