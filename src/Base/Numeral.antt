-- ===== src/Base/Numeral.antt =====
-- The number that a text ends with, which reads decimal numerals back.
use Prim.Native.Nat.{ℕ, zero, suc, ◌+◌, ◌*◌, ◌-◌, ◌/◌, ◌%◌, ◌≤◌, ◌<◌}
use Prim.Native.Char.{code}
use Prim.Native.String.{String, [], ◌∷◌, ◌++◌}
use mathlib.Core.Path.{◌≡◌, refl, ap, ◌∙◌}
use mathlib.Core.Bool.{Bool, ◌&&◌, not}
use mathlib.Core.Logic.{inl, inr}
use native.Mathlib.Omega.{arith}
use text.Mathlib.TextLemmas.{nil-append, cons-append}
use samba_operator.Base.Tests.{Bool-cases, ltb, if◌then◌else◌}
use samba_operator.Base.Decimal.{digit, decimal, itoa}

-- The code of a digit.
abbrev pub is_digit : ℕ → Bool
is_digit k = not (ltb k 48) && ltb k 58

-- What is read so far, and one more character; whatever is not a digit starts anew.
abbrev read : ℕ → ℕ → ℕ
read n k = if is_digit k then n * 10 + (k - 48) else 0

unfoldable pub number_from : ℕ → String → ℕ
number_from n [] = n
number_from n (c ∷ s) = number_from (read n (code c)) s

pub number_from-<> :
    (n : ℕ) (s t : String) → number_from n (s ++ t) ≡ number_from (number_from n s) t
unfolding number_from
number_from-<> n [] t = rw (nil-append t) refl
number_from-<> n (c ∷ s) t = rw (cons-append c s t) (number_from-<> (read n (code c)) s t)

pub code-digit : (d : ℕ) → d < 10 → code (digit d) ≡ d + 48
unfolding digit
code-digit zero h = refl
code-digit (suc zero) h = refl
code-digit (suc (suc zero)) h = refl
code-digit (suc (suc (suc zero))) h = refl
code-digit (suc (suc (suc (suc zero)))) h = refl
code-digit (suc (suc (suc (suc (suc zero))))) h = refl
code-digit (suc (suc (suc (suc (suc (suc zero)))))) h = refl
code-digit (suc (suc (suc (suc (suc (suc (suc zero))))))) h = refl
code-digit (suc (suc (suc (suc (suc (suc (suc (suc zero)))))))) h = refl
code-digit (suc (suc (suc (suc (suc (suc (suc (suc (suc zero))))))))) h = refl
code-digit (suc (suc (suc (suc (suc (suc (suc (suc (suc (suc d)))))))))) h = absurd (omega arith)

read-digit : (n d : ℕ) → d < 10 → number_from n (digit d ∷ []) ≡ n * 10 + d
unfolding number_from
read-digit n d h = rw (code-digit d h) (ground arith)

number_from-decimal : (f n : ℕ) → n ≤ f → number_from 0 (decimal f n) ≡ n
unfolding decimal
number_from-decimal zero n h = read-digit 0 n (omega arith) ∙ omega arith
number_from-decimal (suc f) n h = elim (Bool-cases (ltb n 10)) [
  | inl small ↦ rw small (read-digit 0 n (ground arith) ∙ omega arith)
  | inr large ↦ rw large (
      number_from-<> 0 (decimal f (n / 10)) (digit (n % 10) ∷ [])
      ∙ (ap (λ k. number_from k (digit (n % 10) ∷ []))
            (number_from-decimal f (n / 10) (ground arith))
          ∙ (read-digit (n / 10) (n % 10) (omega arith) ∙ omega arith)))
]

pub number_from-itoa : (n : ℕ) → number_from 0 (itoa n) ≡ n
unfolding itoa
number_from-itoa n = number_from-decimal n n (omega arith)
