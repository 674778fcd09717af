-- ===== src/Base/Regex.antt =====
-- What the program uses of Python's `re`: patterns that are matched by trying their ways in order.
use Prim.Native.Char.{Char}
use buenpick_piki.Base.{
  ℕ, zero, suc, ◌-◌, ◌≡◌, refl, String, Bool, true, false, Option, none, some, List, [], ◌∷◌,
  text_len, if◌then◌else◌, leb, ◌&&◌,
}
use Prim.Native.Char.{code}
use buenpick_piki.Base.Text.{prefix}

pub data Regex : Type 0 where
  -- a character of a class
  one : (Char → Bool) → Regex
  empty : Regex
  seq alt : Regex → Regex → Regex
  -- any number of times: as many as possible, or as few
  star lazy : Regex → Regex
  -- a test on the characters before and after a place, such as `\b`
  place : (Option Char → Option Char → Bool) → Regex

-- where a match ends: the character before, and the rest of the text
abbrev pub Place : Type 0
Place = Option Char × String

abbrev Matcher : Type 0
Matcher = Option Char → String → Option Place

abbrev next_char : String → Option Char
next_char String.[] = none
next_char (String.◌∷◌ c _) = some c

-- a repetition takes at least a character each time, so the length of the text bounds it
greedily : (Matcher → Matcher) → ℕ → Matcher → Matcher
greedily m zero k prev s = k prev s
greedily m (suc n) k prev s = elim (m (greedily m n k) prev s) [ none ↦ k prev s | some p ↦ some p ]

lazily : (Matcher → Matcher) → ℕ → Matcher → Matcher
lazily m zero k prev s = k prev s
lazily m (suc n) k prev s = elim (k prev s) [ none ↦ m (lazily m n k) prev s | some p ↦ some p ]

one_char : (Char → Bool) → Matcher → Matcher
one_char p k prev String.[] = none
one_char p k prev (String.◌∷◌ c s) = if p c then k (some c) s else none

-- a match at a place, with what has to follow it
match : Regex → Matcher → Matcher
unfolding one_char greedily lazily
match (one p) k prev s = one_char p k prev s
match empty k prev s = k prev s
match (seq a b) k prev s = match a (match b k) prev s
match (alt a b) k prev s = elim (match a k prev s) [ none ↦ match b k prev s | some p ↦ some p ]
match (star a) k prev s = greedily (match a) (text_len s) k prev s
match (lazy a) k prev s = lazily (match a) (text_len s) k prev s
match (place p) k prev s = if p prev (next_char s) then k prev s else none

abbrev ends : Matcher
ends prev s = some (prev, s)

-- the matches from a place on, none of them empty, which do not overlap
matches : Regex → ℕ → Option Char → String → List String
unfolding match
matches r zero prev s = []
matches r (suc n) prev String.[] = []
matches r (suc n) prev (String.◌∷◌ c s) = elim (match r ends prev (String.◌∷◌ c s)) [
  | none ↦ matches r n (some c) s
  | some (prev', rest) ↦
      prefix (text_len (String.◌∷◌ c s) - text_len rest) (String.◌∷◌ c s) ∷ matches r n prev' rest
]

-- `[m.group(0) for m in pattern.finditer(text)]`
unfoldable pub find_all : Regex → String → List String
unfolding matches prefix
find_all r s = matches r (text_len s) none s

-- `bool(pattern.search(text))`, for a pattern that no empty text matches
unfoldable pub search_in : Regex → Option Char → String → Bool
unfolding match
search_in r prev String.[] = false
search_in r prev (String.◌∷◌ c s) = elim (match r ends prev (String.◌∷◌ c s)) [
  | none ↦ search_in r (some c) s
  | some _ ↦ true
]

abbrev pub plus : Regex → Regex
plus r = seq r (star r)

abbrev pub opt : Regex → Regex
opt r = alt r empty

-- from none to `n` times
abbrev pub up_to : ℕ → Regex → Regex
up_to zero r = empty
up_to (suc n) r = opt (seq r (up_to n r))

abbrev pub seqs : List Regex → Regex
seqs [] = empty
seqs (r ∷ rs) = seq r (seqs rs)

-- the ways in order, one at least
abbrev pub alts : Regex → List Regex → Regex
alts r [] = r
alts r (q ∷ qs) = alt r (alts q qs)

-- a text, character by character
abbrev pub literal : (Char → Char → Bool) → String → Regex
literal same String.[] = empty
literal same (String.◌∷◌ c s) = seq (one (same c)) (literal same s)

abbrev digit : Char → Bool
digit c = leb 48 (code c) && leb (code c) 57

numbers : find_all (plus (one digit)) "a12b345" ≡ "12" ∷ "345" ∷ []
unfolding find_all
numbers = refl
