-- ===== src/Composition/Patterns.antt =====
-- The patterns of src/piki/composition/grounding.py. The tables of Unicode are a parameter.
use Prim.Native.Char.{Char, code}
use buenpick_piki.Base.{
  ℕ, String, Bool, true, false, not, ◌&&◌, ◌||◌, Option, none, some, List, [], ◌∷◌, leb, ◌==◌,
}
use buenpick_piki.Base.Text.{is_space, has_char}
use buenpick_piki.Base.Regex.{
  Regex, one, seq, alt, star, lazy, place, plus, opt, up_to, seqs, alts, literal,
}

-- `casefold` and `upper` of texts, `\w` and `\d`, and equality of characters under IGNORECASE
pub record Unicode : Type 0 where
  pub casefold : String → String
  pub upper : String → String
  pub is_word : Char → Bool
  pub is_decimal : Char → Bool
  pub same_letter : Char → Char → Bool

abbrev within : ℕ → ℕ → Char → Bool
within lo hi c = leb lo (code c) && leb (code c) hi

abbrev is_char : Char → Char → Bool
is_char c d = code c == code d

module _ (u : Unicode) where
  abbrev word_at : Option Char → Bool
  word_at none = false
  word_at (some c) = u.is_word c

  -- `\b`
  abbrev boundary : Regex
  boundary = place (λ before after.
      (word_at before && not (word_at after)) || (not (word_at before) && word_at after))

  abbrev letters : String → Regex
  letters = literal u.same_letter

  abbrev decimal : Regex
  decimal = one u.is_decimal

  abbrev space : Regex
  space = one is_space

  -- `\s|$|[).,;:!?]` ahead
  abbrev closes : Option Char → Bool
  closes none = true
  closes (some c) = is_space c || has_char c ").,;:!?"

  -- `https?://[^\s<>"']+`, ignoring case
  abbrev pub url : Regex
  url = seqs (
      letters "http"
      ∷ opt (letters "s")
      ∷ letters "://"
      ∷ plus (one (λ c. not (is_space c) && not (has_char c "<>\"'")))
      ∷ [])

  -- `(?:ARS\s*)?\$\s*\d[\d.]*?(?:,\d{1,2})?(?=\s|$|[).,;:!?])`, ignoring case
  abbrev pub price : Regex
  price = seqs (
      opt (seq (letters "ARS") (star space))
      ∷ one (is_char "$")
      ∷ star space
      ∷ decimal
      ∷ lazy (one (λ c. u.is_decimal c || is_char "." c))
      ∷ opt (seq (one (is_char ",")) (seq decimal (opt decimal)))
      ∷ place (λ _ after. closes after)
      ∷ [])

  -- `\b(?:[01]\d|2[0-3]):[0-5]\d\b`
  abbrev pub clock : Regex
  clock = seqs (
      boundary
      ∷ alt (seq (one (within 48 49)) decimal) (seq (one (is_char "2")) (one (within 48 51)))
      ∷ one (is_char ":")
      ∷ one (within 48 53)
      ∷ decimal
      ∷ boundary
      ∷ [])

  -- `\b\d+(?:[.,]\d+)*\b`
  abbrev pub number : Regex
  number = seqs (
      boundary
      ∷ plus decimal
      ∷ star (seq (one (λ c. has_char c ".,")) (plus decimal))
      ∷ boundary
      ∷ [])

  -- `_HIGH_RISK_PATTERNS`
  unfoldable pub high_risk_patterns : List Regex
  high_risk_patterns = url ∷ price ∷ clock ∷ number ∷ []

  abbrev any_letter : Char → Char → Regex
  any_letter c d = one (λ e. u.same_letter c e || u.same_letter d e)

  -- `\b(?:incluye|contiene|trae|viene\s+con|est[áa]\s+compuest[oa])\b`, ignoring case
  unfoldable pub content_claim : Regex
  content_claim = seqs (
      boundary
      ∷ alts (letters "incluye") (
          letters "contiene"
          ∷ letters "trae"
          ∷ seqs (letters "viene" ∷ plus space ∷ letters "con" ∷ [])
          ∷ seqs (
              letters "est"
              ∷ any_letter "á" "a"
              ∷ plus space
              ∷ letters "compuest"
              ∷ any_letter "o" "a"
              ∷ [])
          ∷ [])
      ∷ boundary
      ∷ [])

  abbrev found_word : Regex
  found_word = seq (letters "encontr") (any_letter "e" "é")

  abbrev more_words : ℕ → Regex
  more_words n = up_to n (seq (plus space) (plus (one u.is_word)))

  -- `no\s+(?:tengo|hay|encontr[eé])(?:\s+\w+){0,3}\s+(?:rescate|pick|opci[oó]n)`
  abbrev nothing_there : Regex
  nothing_there = seqs (
      letters "no"
      ∷ plus space
      ∷ alts (letters "tengo") (letters "hay" ∷ found_word ∷ [])
      ∷ more_words 3
      ∷ plus space
      ∷ alts (letters "rescate")
          (letters "pick" ∷ seqs (letters "opci" ∷ any_letter "o" "ó" ∷ letters "n" ∷ []) ∷ [])
      ∷ [])

  -- `(?:hay|encontr[eé])(?:\s+\w+){0,5}\s+(?:disponibles?|para\s+rescatar)`
  abbrev something_there : Regex
  something_there = seqs (
      alt (letters "hay") found_word
      ∷ more_words 5
      ∷ plus space
      ∷ alt (seq (letters "disponible") (opt (letters "s")))
          (seqs (letters "para" ∷ plus space ∷ letters "rescatar" ∷ []))
      ∷ [])

  -- `_EVIDENCE_FREE_AVAILABILITY`, ignoring case
  unfoldable pub evidence_free_availability : Regex
  evidence_free_availability = seqs (boundary ∷ alt nothing_there something_there ∷ boundary ∷ [])
