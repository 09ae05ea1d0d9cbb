-- ===== src/Common/Int.antt =====
-- Signed integers over the native numbers, and the doubles that the program makes from them.
use Prim.Native.Nat.{ℕ, suc, ◌+◌, ◌-◌, ◌^◌, ◌<◌, ◌≤◌}
use mathlib.Core.Bool.{Bool, false}
use mathlib.Core.Path.{◌≡◌}
use native.Mathlib.Omega.{arith}
use meshcore_cpp_decoder.Common.Tests.{ltb, if◌then◌else◌}

-- `negsuc n` is -(n + 1).
pub data ℤ : Type 0 where
  pos : ℕ → ℤ
  negsuc : ℕ → ℤ

abbrev pub pos_part : ℤ → ℕ
pos_part (pos n) = n
pos_part (negsuc n) = 0

abbrev pub neg_part : ℤ → ℕ
neg_part (pos n) = 0
neg_part (negsuc n) = suc n

infix 50 ◌≤ℤ◌
abbrev pub ◌≤ℤ◌ : ℤ → ℤ → Type 0
a ≤ℤ b = pos_part a + neg_part b ≤ pos_part b + neg_part a

-- `a > b`
unfoldable pub exceeds : ℤ → ℤ → Bool
exceeds a b = ltb (pos_part b + neg_part a) (pos_part a + neg_part b)

pub exceeds_false : (a b : ℤ) → exceeds a b ≡ false → a ≤ℤ b
unfolding exceeds
exceeds_false a b h = ground arith

-- `v > 127 ? static_cast<int8_t>(v - 256) : static_cast<int8_t>(v)` of a uint8_t
unfoldable pub signed8 : ℕ → ℤ
signed8 v = if ltb 127 v then negsuc (255 - v) else pos v

-- `static_cast<int32_t>` of a uint32_t
unfoldable pub signed32 : ℕ → ℤ
signed32 v = if ltb v (2 ^ 31) then pos v else negsuc (2 ^ 32 - 1 - v)

-- The bit patterns back.
unfoldable pub unsigned8 : ℤ → ℕ
unsigned8 (pos n) = n
unsigned8 (negsuc n) = 255 - n

unfoldable pub unsigned32 : ℤ → ℕ
unsigned32 (pos n) = n
unsigned32 (negsuc n) = 2 ^ 32 - 1 - n

-- The double that the C++ expression `num / den.0` gives, kept as its two operands.
pub record Double : Type 0 where
  pub num : ℤ
  pub den : ℕ

pub unsigned8-signed8 : (v : ℕ) → v < 256 → unsigned8 (signed8 v) ≡ v
unfolding signed8 unsigned8
unsigned8-signed8 v h = ground arith

pub unsigned32-signed32 : (v : ℕ) → v < 2 ^ 32 → unsigned32 (signed32 v) ≡ v
unfolding signed32 unsigned32
unsigned32-signed32 v h = ground arith
