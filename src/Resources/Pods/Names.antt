-- ===== src/Resources/Pods/Names.antt =====
-- Names of volumes: what tells those of the claims and of the join data from the fixed ones.
use samba_operator.Base.{String, ◌<>◌, ◌==◌, ◌≡◌, refl, ◌∙◌, ℕ, zero, suc, ◌≤◌, ◌<◌, ◌+◌}
use samba_operator.Base.{◌/◌, ◌%◌, inl, inr, Bool-cases, ltb, eqb, if◌then◌else◌, arith}
use samba_operator.Base.Decimal.{digit, decimal, itoa}
use samba_operator.Base.Numeral.{
  is_digit, number_from, number_from-<>, number_from-itoa, code-digit,
}
use Prim.Native.Char.{code}
use text.Mathlib.TextLemmas.{nil-append, cons-append}
use Prim.Native.String.{[], ◌∷◌}

-- The codes of the last two characters, after those of what comes before.
unfoldable pub ends : ℕ × ℕ → String → ℕ × ℕ
ends (p, q) [] = (p, q)
ends (p, q) (c ∷ s) = ends (q, code c) s

ends-<> : (pq : ℕ × ℕ) (s t : String) → ends pq (s <> t) ≡ ends (ends pq s) t
unfolding ends
ends-<> (p, q) [] t = rw (nil-append t) refl
ends-<> (p, q) (c ∷ s) t = rw (cons-append c s t) (ends-<> (q, code c) s t)

fixed_number : String → ℕ
fixed_number s =
    if s == "run"
    then 3
    else if s == "samba-container-config"
    then 4
    else if s == "users-config"
    then 5
    else if s == "samba-state-dir"
    then 6
    else if s == "samba-wb-sockets-dir"
    then 7
    else if s == "svcwatch"
    then 8
    else if s == "ctdb-config"
    then 9
    else if s == "ctdb-persistent"
    then 10
    else if s == "ctdb-volatile"
    then 11
    else 12

number_by : ℕ × ℕ → String → ℕ
unfolding fixed_number
number_by (a, b) s =
    if eqb b 98 then if eqb a 109 then 0 else 1 else if is_digit b then 2 else fixed_number s

-- A number for each kind of volume: 0 ends in "-smb", 1 in "-ctdb" and 2 in a digit.
unfoldable pub kind_number : String → ℕ
unfolding number_by ends
kind_number s = number_by (ends (0, 0) s) s

pub kind_number-smb : (pvc : String) → kind_number (pvc <> "-smb") ≡ 0
unfolding kind_number
kind_number-smb pvc = rw (ends-<> (0, 0) pvc "-smb") refl

pub kind_number-ctdb : (pvc : String) → kind_number (pvc <> "-ctdb") ≡ 1
unfolding kind_number
kind_number-ctdb pvc = rw (ends-<> (0, 0) pvc "-ctdb") refl

-- What a numeral ends with.
abbrev DigitLast : ℕ × ℕ → Type 0
DigitLast pq = (d : ℕ) × (d < 10) × (pq.1 ≡ d + 48)

DigitLast-digit : (pq : ℕ × ℕ) (d : ℕ) → d < 10 → DigitLast (ends pq (digit d ∷ []))
unfolding ends
DigitLast-digit pq d h = (d, h, code-digit d h)

DigitLast-decimal : (f n : ℕ) (pq : ℕ × ℕ) → n ≤ f → DigitLast (ends pq (decimal f n))
unfolding decimal
DigitLast-decimal zero n pq h = DigitLast-digit pq n (omega arith)
DigitLast-decimal (suc f) n pq h = elim (Bool-cases (ltb n 10)) [
  | inl small ↦ rw small (DigitLast-digit pq n (ground arith))
  | inr large ↦ rw large (
      rw (ends-<> pq (decimal f (n / 10)) (digit (n % 10) ∷ []))
        (DigitLast-digit (ends pq (decimal f (n / 10))) (n % 10) (omega arith)))
]

number_by-digit : (a b : ℕ) (s : String) (d : ℕ) → d < 10 → b ≡ d + 48 → number_by (a, b) s ≡ 2
unfolding number_by
number_by-digit a b s d small e = rw e (ground arith)

pub kind_number-join : (v : String) (i : ℕ) → kind_number (v <> ("-" <> itoa i)) ≡ 2
unfolding kind_number itoa
kind_number-join v i =
    let (d, small, e) = DigitLast-decimal i i (ends (ends (0, 0) v) "-") (omega arith) in
    rw (ends-<> (0, 0) v ("-" <> decimal i i)) (
      rw (ends-<> (ends (0, 0) v) "-" (decimal i i))
        (number_by-digit _ _ (v <> ("-" <> itoa i)) d small e))

-- Names that end with other numbers differ.
pub number_from-join : (i : ℕ) → number_from 0 ("join-data" <> ("-" <> itoa i)) ≡ i
unfolding number_from
number_from-join i =
    number_from-<> 0 "join-data" ("-" <> itoa i)
    ∙ (number_from-<> 0 "-" (itoa i) ∙ number_from-itoa i)
