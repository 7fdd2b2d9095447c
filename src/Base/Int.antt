-- ===== src/Base/Int.antt =====
-- Go's int64 and time.Duration: integers whose value is kept in range by a wrap-around, and the
-- clock. An instant is a count of nanoseconds after Go's zero time, so 0 is the zero `time.Time`.
use Prim.Native.Nat.{ℕ, suc, ◌+◌, ◌-◌, ◌≤◌, ◌<◌, ◌%◌}
use mathlib.Core.Path.{◌≡◌}
use mathlib.Core.Bool.{Bool}
use native.Mathlib.Omega.{arith}
use yaad_grove.Base.Tests.{if◌then◌else◌, ltb, leb}

-- `negsuc n` is -(n + 1).
pub data ℤ : Type 0 where
  pos : ℕ → ℤ
  negsuc : ℕ → ℤ

abbrev pub pos_part : ℤ → ℕ
pos_part (pos n) = n
pos_part (negsuc n) = 0

abbrev pub neg_part : ℤ → ℕ
neg_part (pos n) = 0
neg_part (negsuc n) = suc n

-- a - b, as an integer.
abbrev pub sub_ℕ : ℕ → ℕ → ℤ
sub_ℕ a b = if leb b a then pos (a - b) else negsuc (b - a - 1)

infix 50 ◌≤ℤ◌ ◌<ℤ◌
abbrev pub ◌≤ℤ◌ : ℤ → ℤ → Type 0
a ≤ℤ b = pos_part a + neg_part b ≤ pos_part b + neg_part a

abbrev pub ◌<ℤ◌ : ℤ → ℤ → Type 0
a <ℤ b = pos_part a + neg_part b < pos_part b + neg_part a

abbrev pub ltb_ℤ : ℤ → ℤ → Bool
ltb_ℤ a b = ltb (pos_part a + neg_part b) (pos_part b + neg_part a)

abbrev pub leb_ℤ : ℤ → ℤ → Bool
leb_ℤ a b = leb (pos_part a + neg_part b) (pos_part b + neg_part a)

abbrev pub half64 : ℕ
half64 = 9223372036854775808

abbrev pub word64 : ℕ
word64 = 18446744073709551616

-- An integer lies in the range of int64.
abbrev pub InInt64 : ℤ → Type 0
InInt64 a = (pos_part a < half64) × (neg_part a ≤ half64)

-- The int64 with the bit pattern `n`.
unfoldable pub of_bits : ℕ → ℤ
of_bits n = if ltb n half64 then pos n else negsuc (word64 - n - 1)

-- The bit pattern of an integer in range.
abbrev pub bits : ℤ → ℕ
bits (pos n) = n
bits (negsuc n) = word64 - suc n

infixl 65 ◌+ℤ◌ ◌-ℤ◌
-- a + b and a - b on int64, which wrap around.
unfoldable pub ◌+ℤ◌ : ℤ → ℤ → ℤ
unfolding of_bits
a +ℤ b = of_bits ((bits a + bits b) % word64)

unfoldable pub ◌-ℤ◌ : ℤ → ℤ → ℤ
unfolding of_bits
a -ℤ b = of_bits ((bits a + word64 - bits b) % word64)

-- A sum of two naturals below 2^63 does not wrap.
pub +ℤ_pos : (a b : ℕ) → a + b < half64 → pos a +ℤ pos b ≡ pos (a + b)
unfolding ◌+ℤ◌
+ℤ_pos a b h = ground arith

pub -ℤ_pos : (a b : ℕ) → a < half64 → b < half64 → pos a -ℤ pos b ≡ sub_ℕ a b
unfolding ◌-ℤ◌
-ℤ_pos a b h k = ground arith

-- now.Sub(then), which saturates at the largest and the smallest Duration.
unfoldable pub since : ℕ → ℕ → ℤ
since now then' =
    if leb then' now
    then (if ltb (now - then') half64 then pos (now - then') else pos (half64 - 1))
    else (if leb (then' - now) half64 then negsuc (then' - now - 1) else negsuc (half64 - 1))

-- `now.Sub(t) < d` holds exactly when `now` is before `t + d`, for a positive Duration.
pub since_lt : (now t d : ℕ) → 0 < d → d < half64 → ltb_ℤ (since now t) (pos d) ≡ ltb now (t + d)
unfolding since
since_lt now t d h k = ground arith

pub since_le : (now t d : ℕ) → 0 < d → d < half64 → leb_ℤ (pos d) (since now t) ≡ leb (t + d) now
unfolding since
since_le now t d h k = ground arith

-- t.Add(d)
abbrev pub later_by : ℕ → ℤ → ℕ
later_by t d = t + pos_part d - neg_part d
