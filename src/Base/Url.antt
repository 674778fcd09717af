-- ===== src/Base/Url.antt =====
-- `urllib.parse.quote(text, safe="")`: the bytes of a text in UTF-8, and those that are not of the
-- unreserved characters in hexadecimal.
use Prim.Native.Char.{Char, code}
use buenpick_piki.Base.{
  ℕ, ◌+◌, ◌/◌, ◌%◌, ◌≡◌, refl, String, Bool, ◌||◌, ◌&&◌, List, [], ◌∷◌, leb, ltb, ◌==◌,
  if◌then◌else◌,
}
use buenpick_piki.Base.Decimal.{digit_char}

-- the bytes of a code point
abbrev utf8 : ℕ → List ℕ
utf8 n =
    if ltb n 0x80
    then n ∷ []
    else if ltb n 0x800
    then (0xc0 + n / 64) ∷ (0x80 + n % 64) ∷ []
    else if ltb n 0x1_0000
    then (0xe0 + n / 4096) ∷ (0x80 + n / 64 % 64) ∷ (0x80 + n % 64) ∷ []
    else (0xf0 + n / 262_144) ∷ (0x80 + n / 4096 % 64) ∷ (0x80 + n / 64 % 64) ∷ (0x80 + n % 64) ∷ []

abbrev hex_char : ℕ → Char
hex_char d =
    if d == 10
    then "A"
    else if d == 11
    then "B"
    else if d == 12
    then "C"
    else if d == 13
    then "D"
    else if d == 14
    then "E"
    else if d == 15
    then "F"
    else digit_char d

-- letters, digits and `_.-~`
abbrev unreserved : ℕ → Bool
unreserved n =
    (leb 65 n && leb n 90)
    || (leb 97 n && leb n 122)
    || (leb 48 n && leb n 57)
    || n == 95
    || n == 46
    || n == 45
    || n == 126

write_bytes : List ℕ → String → String
write_bytes [] s = s
write_bytes (b ∷ bs) s =
    String.◌∷◌ "%"
      (String.◌∷◌ (hex_char (b / 16)) (String.◌∷◌ (hex_char (b % 16)) (write_bytes bs s)))

unfoldable pub quote : String → String
unfolding write_bytes
quote String.[] = String.[]
quote (String.◌∷◌ c s) =
    let rest = quote s in
    if unreserved (code c) then String.◌∷◌ c rest else write_bytes (utf8 (code c)) rest

accents : quote "a/ñ€" ≡ "a%2F%C3%B1%E2%82%AC"
unfolding quote
accents = refl
