-- ===== src/Base/Strings.antt =====
-- What the operator uses of Go's `strings` package. Letters outside ASCII keep their case here.
use Prim.Native.Nat.{◌-◌}
use Prim.Native.Char.{Char, code}
use Prim.Native.String.{String, [], ◌∷◌, ◌++◌, char_at}
use mathlib.Core.List.{List}
use mathlib.Core.Path.{◌≡◌, refl}
use mathlib.Core.Bool.{Bool, true, false, ◌&&◌, ◌||◌, not}
use samba_operator.Base.Tests.{ltb, if◌then◌else◌}

in_range : Char → Char → Char → Bool
in_range lo hi c = not (ltb (code c) (code lo)) && not (ltb (code hi) (code c))

upper_char : Char → Char
unfolding in_range
upper_char c =
    if in_range "a" "z" c then char_at "ABCDEFGHIJKLMNOPQRSTUVWXYZ" (code c - code "a") else c

lower_char : Char → Char
unfolding in_range
lower_char c =
    if in_range "A" "Z" c then char_at "abcdefghijklmnopqrstuvwxyz" (code c - code "A") else c

-- strings.ToUpper
unfoldable pub to_upper : String → String
unfolding upper_char
to_upper [] = []
to_upper (c ∷ s) = upper_char c ∷ to_upper s

-- strings.ToLower
unfoldable pub to_lower : String → String
unfolding lower_char
to_lower [] = []
to_lower (c ∷ s) = lower_char c ∷ to_lower s

-- strings.SplitN(s, sep, 2)[0] for a separator of one character.
unfoldable pub before : Char → String → String
before sep [] = []
before sep (c ∷ s) =
    let rest = c ∷ before sep s in
    if not (ltb (code c) (code sep)) && not (ltb (code sep) (code c)) then [] else rest

-- strings.Join
unfoldable pub join : List String → String → String
join List.[] sep = ""
join (List.◌∷◌ x List.[]) sep = x
join (List.◌∷◌ x (List.◌∷◌ y r)) sep = x ++ (sep ++ join (List.◌∷◌ y r) sep)

abbrev starts_with : String → String → Bool
starts_with s [] = true
starts_with [] (d ∷ p) = false
starts_with (c ∷ s) (d ∷ p) =
    not (ltb (code c) (code d)) && not (ltb (code d) (code c)) && starts_with s p

-- strings.Contains
unfoldable pub has_substring : String → String → Bool
has_substring [] p = starts_with [] p
has_substring (c ∷ s) p = starts_with (c ∷ s) p || has_substring s p

has_open_shift : has_substring "openshift.io/scc" "openshift" ≡ true
unfolding has_substring
has_open_shift = refl

to_upper_realm : to_upper "my.Domain.example" ≡ "MY.DOMAIN.EXAMPLE"
unfolding to_upper
to_upper_realm = refl

before_dot : before "." "MY.DOMAIN" ≡ "MY"
unfolding before
before_dot = refl
