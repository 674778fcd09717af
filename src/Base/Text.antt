-- ===== src/Base/Text.antt =====
-- Methods of Python's `str`: strip, rstrip, split with join, slices and `in`.
pub mod Words
use Prim.Native.Char.{Char, code}
use Prim.Native.Nat.{ℕ, zero, suc}
use Prim.Native.String.{String, ◌++◌ as append}
use mathlib.Core.Path.{◌≡◌, refl}
use mathlib.Core.Bool.{Bool, true, false, ◌&&◌, ◌||◌, not}
use mathlib.Core.List.{List, [], ◌∷◌}
use text.Mathlib.Text.{find?}
use buenpick_piki.Base.Tests.{leb, ◌==◌, truthy, is_some, if◌then◌else◌}

-- `char.isspace()`: the white space of Unicode, with the separators 28 to 31
unfoldable pub is_space : Char → Bool
is_space c =
    let n = code c in
    (leb 9 n && leb n 13)
    || (leb 28 n && leb n 32)
    || n == 0x85
    || n == 0xa0
    || n == 0x1680
    || (leb 0x2000 n && leb n 0x200a)
    || n == 0x2028
    || n == 0x2029
    || n == 0x202f
    || n == 0x205f
    || n == 0x3000

lstrip : String → String
unfolding is_space
lstrip String.[] = String.[]
lstrip (String.◌∷◌ c s) = let rest = lstrip s in if is_space c then rest else String.◌∷◌ c s

rstrip : String → String
unfolding is_space
rstrip String.[] = String.[]
rstrip (String.◌∷◌ c s) =
    let rest = rstrip s in if is_space c && not (truthy rest) then String.[] else String.◌∷◌ c rest

unfoldable pub strip : String → String
unfolding lstrip rstrip
strip s = rstrip (lstrip s)

-- `char in text`
abbrev pub has_char : Char → String → Bool
has_char c String.[] = false
has_char c (String.◌∷◌ d s) = code c == code d || has_char c s

-- `text.rstrip(chars)`
unfoldable pub rstrip_of : String → String → String
rstrip_of chars String.[] = String.[]
rstrip_of chars (String.◌∷◌ c s) =
    let rest = rstrip_of chars s in
    if has_char c chars && not (truthy rest) then String.[] else String.◌∷◌ c rest

-- `term in text`
abbrev pub contains : String → String → Bool
contains text term = is_some (find? text term)

-- `" ".join(text.split())`: the words with one space between them. The first argument says whether
-- a word comes before, the second whether white space does.
squeezed : Bool → Bool → String → String
unfolding is_space
squeezed word gap String.[] = String.[]
squeezed word gap (String.◌∷◌ c s) =
    let skip = squeezed word true s in
    let keep = String.◌∷◌ c (squeezed true false s) in
    if is_space c then skip else if word && gap then String.◌∷◌ " " keep else keep

unfoldable pub squeeze : String → String
unfolding squeezed
squeeze s = squeezed false false s

-- `separator.join(texts)`
abbrev pub join : String → List String → String
join separator [] = String.[]
join separator (s ∷ []) = s
join separator (s ∷ t ∷ ss) = append s (append separator (join separator (t ∷ ss)))

-- `text.isascii()`
abbrev pub is_ascii : String → Bool
is_ascii String.[] = true
is_ascii (String.◌∷◌ c s) = leb (code c) 127 && is_ascii s

-- `text.startswith(start)`
abbrev pub starts : String → String → Bool
starts String.[] s = true
starts (String.◌∷◌ c start) String.[] = false
starts (String.◌∷◌ c start) (String.◌∷◌ d s) = code c == code d && starts start s

-- `text.removeprefix(start)` of a text that starts so
abbrev pub remove_prefix : String → String → String
remove_prefix String.[] s = s
remove_prefix (String.◌∷◌ c start) String.[] = String.[]
remove_prefix (String.◌∷◌ c start) (String.◌∷◌ d s) = remove_prefix start s

-- `text[:n]`
unfoldable pub prefix : ℕ → String → String
prefix zero s = String.[]
prefix (suc n) String.[] = String.[]
prefix (suc n) (String.◌∷◌ c s) = String.◌∷◌ c (prefix n s)

words : squeeze "  a  b c " ≡ "a b c"
unfolding squeeze
words = refl
