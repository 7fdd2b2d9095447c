-- ===== src/Base/Float.antt =====
-- Go's float64. A finite one is a whole number of units of 2 to the power -1074.
use mathlib.Core.Bool.{Bool}
use yaad_grove.Base.Int.{ℤ}

pub data Float64 : Type 0 where
  finite : ℤ → Float64
  infinity : Bool → Float64
  nan : Float64
