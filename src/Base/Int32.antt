-- ===== src/Base/Int32.antt =====
-- int32: the bit pattern below 2^32 of a two's complement number.
use Prim.Native.Nat.{ℕ, ◌+◌, ◌-◌, ◌/◌, ◌%◌, ◌^◌, ◌<◌}
use mathlib.Core.Path.{◌≡◌}
use mathlib.Core.Bool.{Bool}
use native.Mathlib.Omega.{arith}
use ahv_to_ove_operator.Base.Tests.{ltb, leb, if◌then◌else◌}

unfoldable pub to_int32 : ℕ → ℕ
to_int32 n = n % 2 ^ 32

unfoldable pub add32 : ℕ → ℕ → ℕ
add32 a b = (a + b) % 2 ^ 32

unfoldable pub lt32 : ℕ → ℕ → Bool
lt32 a b = ltb ((a + 2 ^ 31) % 2 ^ 32) ((b + 2 ^ 31) % 2 ^ 32)

unfoldable pub le32 : ℕ → ℕ → Bool
le32 a b = leb ((a + 2 ^ 31) % 2 ^ 32) ((b + 2 ^ 31) % 2 ^ 32)

-- Division by a positive number, towards zero.
unfoldable pub div32 : ℕ → ℕ → ℕ
div32 a b = if ltb a (2 ^ 31) then a / b else (2 ^ 32 - (2 ^ 32 - a) / b) % 2 ^ 32

bias : (a : ℕ) → a < 2 ^ 31 → (a + 2 ^ 31) % 2 ^ 32 ≡ a + 2 ^ 31
bias a h = omega arith

pub le32_small : (a b : ℕ) → a < 2 ^ 31 → b < 2 ^ 31 → le32 a b ≡ leb a b
unfolding le32
le32_small a b h k = rw (bias a h, bias b k) (ground arith)
