-- ===== src/Base/Path.antt =====
-- What the operator uses of Go's `path` package: `Join` and the `Clean` that it ends with.
use Prim.Native.String.{String, [], ◌∷◌, ◌++◌}
use mathlib.Core.List.{List, reverse}
use mathlib.Core.Path.{◌≡◌, refl}
use mathlib.Core.Bool.{Bool, true, false, ◌||◌}
use text.Mathlib.Text.{◌==◌}
use samba_operator.Base.Tests.{if◌then◌else◌}
use samba_operator.Base.Strings.{join}

is_slash : String → Bool
is_slash c = c == "/"

-- Put a character in front of the first piece.
onto_first : String → List String → List String
onto_first c List.[] = List.◌∷◌ c List.[]
onto_first c (List.◌∷◌ p ps) = List.◌∷◌ (c ++ p) ps

-- The pieces of a text between its slashes.
unfoldable pub pieces : String → List String
unfolding onto_first
pieces [] = List.◌∷◌ "" List.[]
pieces (c ∷ s) =
    let rest = pieces s in if (c ∷ []) == "/" then List.◌∷◌ "" rest else onto_first (c ∷ []) rest

rooted : String → Bool
rooted [] = false
rooted (c ∷ s) = (c ∷ []) == "/"

-- `..` takes the last piece away; at a root there is none to take.
pop : Bool → List String → List String
pop true List.[] = List.[]
pop false List.[] = List.◌∷◌ ".." List.[]
pop root (List.◌∷◌ p out) = if p == ".." then List.◌∷◌ ".." (List.◌∷◌ p out) else out

-- The pieces that `Clean` keeps, the last one first.
unfoldable pub resolve : Bool → List String → List String → List String
unfolding pop
resolve root out List.[] = out
resolve root out (List.◌∷◌ p ps) =
    resolve root
      (if p == "" || p == "." then out else if p == ".." then pop root out else List.◌∷◌ p out) ps

-- path.Clean
unfoldable pub clean : String → String
unfolding rooted pieces resolve join
clean s =
    let text = join (reverse (resolve (rooted s) List.[] (pieces s))) "/" in
    if rooted s then "/" ++ text else if text == "" then "." else text

drop_empty : List String → List String
drop_empty List.[] = List.[]
drop_empty (List.◌∷◌ e es) = let rest = drop_empty es in if e == "" then rest else List.◌∷◌ e es

clean_nonempty : List String → String
unfolding clean join
clean_nonempty List.[] = ""
clean_nonempty es = clean (join es "/")

-- path.Join
unfoldable pub join_path : List String → String
unfolding clean_nonempty drop_empty
join_path es = clean_nonempty (drop_empty es)

join_tests :
    (join_path (List.◌∷◌ "/mnt" (List.◌∷◌ "g" List.[])) ≡ "/mnt/g")
    × (join_path (List.◌∷◌ "/mnt/g" (List.◌∷◌ "/" (List.◌∷◌ "a" List.[]))) ≡ "/mnt/g/a")
    × (join_path (List.◌∷◌ "/mnt/g" (List.◌∷◌ "/" (List.◌∷◌ "../.." List.[]))) ≡ "/")
    × (join_path (List.◌∷◌ "" (List.◌∷◌ "a/../../b" List.[])) ≡ "../b")
unfolding join_path
join_tests = (refl, refl, refl, refl)
