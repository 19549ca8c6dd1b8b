-- ===== src/Base/Decimal.antt =====
-- Decimal numerals: `strconv.Itoa` and `%d`.
use Prim.Native.Nat.{ℕ, zero, suc, ◌/◌, ◌%◌}
use Prim.Native.Char.{Char}
use Prim.Native.String.{String, [], ◌∷◌, ◌++◌, char_at}
use mathlib.Core.Path.{◌≡◌, refl}
use samba_operator.Base.Tests.{ltb, if◌then◌else◌}

unfoldable pub digit : ℕ → Char
digit d = char_at "0123456789" d

-- The fuel bounds the number of digits.
unfoldable pub decimal : ℕ → ℕ → String
decimal zero n = digit n ∷ []
decimal (suc f) n =
    let rest = decimal f (n / 10) ++ (digit (n % 10) ∷ []) in
    if ltb n 10 then digit n ∷ [] else rest

unfoldable pub itoa : ℕ → String
unfolding decimal digit
itoa n = decimal n n

itoa_2000 : itoa 2000 ≡ "2000"
unfolding itoa
itoa_2000 = refl
