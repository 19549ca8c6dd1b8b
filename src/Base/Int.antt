-- ===== src/Base/Int.antt =====
-- Go's `int`, and its conversion to `int32`. The values of `int` that the operator handles come
-- from 64-bit fields; they are integers here, with no bound.
use Prim.Native.Nat.{ℕ, ◌-◌, ◌%◌, ◌^◌, ◌+◌}
use Prim.Native.String.{String, ◌++◌ as ◌<>◌}
use mathlib.Core.Path.{◌≡◌, refl}
use mathlib.Core.Bool.{Bool, true, false}
use samba_operator.Base.Tests.{ltb, if◌then◌else◌}
use samba_operator.Base.Decimal

-- `negsuc n` is -(n + 1).
pub data ℤ : Type 0 where
  pos : ℕ → ℤ
  negsuc : ℕ → ℤ

-- `a < b`
abbrev pub ltb_int : ℤ → ℤ → Bool
ltb_int (pos a) (pos b) = ltb a b
ltb_int (pos a) (negsuc b) = false
ltb_int (negsuc a) (pos b) = true
ltb_int (negsuc a) (negsuc b) = ltb b a

-- `a <= 0`
abbrev pub le_zero : ℤ → Bool
le_zero (pos a) = ltb a 1
le_zero (negsuc a) = true

-- The bits of a 32-bit word, read as a signed number.
abbrev signed32 : ℕ → ℤ
signed32 r = if ltb r (2 ^ 31) then pos r else negsuc (2 ^ 32 - 1 - r)

-- `int32(x)` keeps the low 32 bits.
unfoldable pub int32 : ℤ → ℤ
int32 (pos n) = signed32 (n % 2 ^ 32)
int32 (negsuc n) = signed32 (2 ^ 32 - 1 - n % 2 ^ 32)

unfoldable pub itoa : ℤ → String
unfolding Decimal.itoa
itoa (pos n) = Decimal.itoa n
itoa (negsuc n) = "-" <> Decimal.itoa (n + 1)

int32_wraps : (int32 (pos 2147483648) ≡ negsuc 2147483647) × (int32 (negsuc 0) ≡ negsuc 0)
unfolding int32
int32_wraps = (refl, refl)
