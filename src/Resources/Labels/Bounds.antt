-- ===== src/Resources/Labels/Bounds.antt =====
-- internal/resources/deployments.go: the length of a label's value.
use samba_operator.Base.{
  String, ℕ, ◌-◌, ◌≤◌, ◌≡◌, refl, ltb, arith, List, [], ◌∷◌, false, inl, inr, Bool-cases,
}
use samba_operator.Base.Strings.{join}
use samba_operator.Resources.Labels.{label_value}
use Prim.Native.String.{len, slice, fits}
use Prim.Native.String
use Prim.Native.Char.{Char, len_utf8}
use native.Mathlib.Omega.{compare-lt, compare-eq}
use Prim.Native.Nat.{compare, Ordering}

len-fits :
    (c : Char) (r : String) (n : ℕ) (o : Ordering)
    → compare (len_utf8 c) n ≡ o
    → len r ≤ n - len_utf8 c
    → len (fits o c r) ≤ n
len-fits c r n Ordering.lt e h =
    rw (String.len.cons c r) (omega (arith, compare-lt (len_utf8 c) n e))
len-fits c r n Ordering.eq e h =
    rw (String.len.cons c r) (omega (arith, compare-eq (len_utf8 c) n e))
len-fits c r n Ordering.gt e h = rw (String.len.nil) (omega arith)

len-slice : (s : String) (n : ℕ) → len (slice s 0 n) ≤ n
len-slice String.[] n = rw (String.slice.nil 0 n, String.len.nil) (omega arith)
len-slice (String.◌∷◌ c s) n =
    rw (String.slice.cons-zero c s n)
      (len-fits c (slice s 0 (n - len_utf8 c)) n _ refl (len-slice s (n - len_utf8 c)))

-- A label's value is never longer than the 63 bytes that Kubernetes allows.
pub len-label_value : (s : List String) → len (label_value s) ≤ 63
unfolding label_value
len-label_value s = elim (Bool-cases (ltb 63 (len (join s "-")))) [
  | inl long ↦ rw long (len-slice (join s "-") 63)
  | inr short ↦ rw short (ground arith)
]

-- A name that is short enough is its own label.
pub label_value_of_short : (name : String) → len name ≤ 63 → label_value (name ∷ []) ≡ name
unfolding label_value
label_value_of_short name h = let short : ltb 63 (len name) ≡ false = ground arith in rw short refl
