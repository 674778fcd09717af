-- ===== src/Composition/Grounding.antt =====
-- `GroundingValidator` and `factual_fallback` of src/piki/composition/grounding.py.
use Prim.Native.String.{◌++◌ as append}
use buenpick_piki.Base.{
  String, Bool, true, false, not, ◌&&◌, Option, none, some, List, [], ◌∷◌, ◌++◌, any, map, take,
  truthy, is_some, if◌then◌else◌,
}
use buenpick_piki.Base.Failure.{Result, ok, err, value_error}
use buenpick_piki.Base.Text.{strip, rstrip_of, squeeze, contains, join, prefix}
use buenpick_piki.Base.Regex.{Regex, find_all, search_in}
use buenpick_piki.Domain.Tools.{
  EvidenceItem, EvidenceSource, buenpick_internal_api, ContextPacket, ResponseMode,
  non_commercial_llm,
}
use buenpick_piki.Composition.Patterns.{
  Unicode, high_risk_patterns, content_claim, evidence_free_availability,
}

pub data GroundingFailure : Type 0 where
  blank internal_leak unsupported_high_risk_fact unavailable_content_claim : GroundingFailure
  internal_reference evidence_free_commercial_claim : GroundingFailure

abbrev pub failure_value : GroundingFailure → String
failure_value blank = "empty"
failure_value internal_leak = "internal_leak"
failure_value unsupported_high_risk_fact = "unsupported_high_risk_fact"
failure_value unavailable_content_claim = "unavailable_content_claim"
failure_value internal_reference = "internal_reference"
failure_value evidence_free_commercial_claim = "evidence_free_commercial_claim"

pub record GroundingResult : Type 0 where
  pub safe : Bool
  pub text : Option String
  pub failures : List GroundingFailure

abbrev no_failures : List GroundingFailure → Bool
no_failures [] = true
no_failures (_ ∷ _) = false

-- `validate_shape`
unfoldable pub validate_shape : GroundingResult → Result GroundingResult
validate_shape r =
    if (if r.safe
      then not (is_some r.text && no_failures r.failures)
      else is_some r.text && no_failures r.failures)
    then err (value_error "safe grounding results require text and no failures")
    else if not r.safe && no_failures r.failures
    then err (value_error "blocked grounding results require a failure")
    else ok r

abbrev internal_patterns : List String
internal_patterns =
    "DATOS CONFIRMADOS" ∷ "DATOS NO DISPONIBLES" ∷ "ACCIONES REALIZADAS" ∷ "REGLAS DE REDACCIÓN"
    ∷ "SYSTEM PROMPT" ∷ "TRACE_ID" ∷ "BUENPICK_INTERNAL_API" ∷ "<TOOLS>" ∷ "TOOL_RESULT" ∷ []

abbrev is_api : EvidenceSource → Bool
is_api buenpick_internal_api = true
is_api _ = false

abbrev pub from_api : EvidenceItem → Bool
from_api e = is_api e.source

-- a failure that is added where a test holds
abbrev pub add_if : Bool → GroundingFailure → List GroundingFailure → List GroundingFailure
add_if b f rest = if b then f ∷ rest else rest

module _ (u : Unicode) where
  -- `_normalized`
  unfoldable pub normalized : String → String
  unfolding squeeze
  normalized s = squeeze (u.casefold s)

  -- `any(pattern in text for pattern in _INTERNAL_PATTERNS)`
  unfoldable pub leaks : String → Bool
  leaks upper_text = any (contains upper_text) internal_patterns

  -- `_safe_fallback_value`
  unfoldable pub safe_fallback_value : String → String
  unfolding squeeze leaks
  safe_fallback_value s =
      if leaks (u.upper (squeeze s)) then "[dato omitido por seguridad]" else squeeze s

  abbrev value_of : EvidenceItem → String
  value_of e = e.value

  unfoldable pub evidence_corpus : ContextPacket → String
  unfolding normalized
  evidence_corpus p = normalized (join "\n" (map value_of p.confirmed_data))

  abbrev pub token_of : String → String
  token_of matched = normalized (rstrip_of ".,;:!?)" matched)

  -- a match whose token is neither empty nor in the evidence
  unfoldable pub unsupported : String → String → Bool
  unfolding normalized rstrip_of
  unsupported corpus matched = truthy (token_of matched) && not (contains corpus (token_of matched))

  unfoldable pub unsupported_in : String → String → Regex → Bool
  unfolding unsupported find_all
  unsupported_in corpus candidate r = any (unsupported corpus) (find_all r candidate)

  abbrev reference_of : EvidenceItem → String
  reference_of e = elim e.source_reference [ none ↦ String.[] | some s ↦ s ]

  -- an identifier that the text repeats and that the evidence does not show
  unfoldable pub leaks_reference : String → String → EvidenceItem → Bool
  unfolding normalized
  leaks_reference corpus candidate e =
      truthy (reference_of e)
      && contains (normalized candidate) (normalized (reference_of e))
      && not (contains corpus (normalized (reference_of e)))

  -- the failures of a stripped text, sorted by their values
  unfoldable pub failures_of : String → ContextPacket → List GroundingFailure
  unfolding leaks evidence_corpus unsupported_in leaks_reference normalized search_in
  failures_of candidate p = add_if (not (truthy candidate)) blank (
      add_if
        (not (any from_api p.confirmed_data)
          && search_in (evidence_free_availability u) none candidate)
        evidence_free_commercial_claim
        (add_if (leaks (u.upper candidate)) internal_leak (
          add_if (any (leaks_reference (evidence_corpus p) candidate) p.confirmed_data)
            internal_reference
            (add_if
              (contains (normalized (join "\n" p.unavailable_data)) "contenido"
                && search_in (content_claim u) none candidate)
              unavailable_content_claim
              (add_if (any (unsupported_in (evidence_corpus p) candidate) (high_risk_patterns u))
                unsupported_high_risk_fact [])))))

  abbrev pub grounded : String → List GroundingFailure → GroundingResult
  grounded candidate [] = record { safe = true; text = some candidate; failures = [] }
  grounded candidate (f ∷ fs) = record { safe = false; text = none; failures = f ∷ fs }

  -- `validate(text, packet)`; the shape of what it builds is valid
  unfoldable pub validate : String → ContextPacket → GroundingResult
  unfolding failures_of strip
  validate text p = grounded (strip text) (failures_of (strip text) p)

  abbrev line_of : EvidenceItem → String
  line_of e =
      append "- " (append (safe_fallback_value e.label) (append ": " (safe_fallback_value e.value)))

  -- `filter`
  unfoldable pub select_api : List EvidenceItem → List EvidenceItem
  select_api [] = []
  select_api (e ∷ es) = let rest = select_api es in if from_api e then e ∷ rest else rest

  abbrev is_non_commercial : ResponseMode → Bool
  is_non_commercial non_commercial_llm = true
  is_non_commercial _ = false

  abbrev no_evidence : ResponseMode → String
  no_evidence mode =
      if is_non_commercial mode
      then "Soy Piki, el asistente de BuenPick. Te ayudo a descubrir alimentos para rescatar y a consultar información confirmada por BuenPick."
      else "No pude confirmar la información necesaria en este momento. Probemos de nuevo en un rato."

  abbrev missing_line : List String → List String
  missing_line [] = []
  missing_line (_ ∷ _) = "Hay datos que todavía no pude confirmar." ∷ []

  abbrev pub fallback_text : ContextPacket → List EvidenceItem → String
  fallback_text p [] = no_evidence p.response_mode
  fallback_text p (e ∷ es) = prefix 4096 (
      join "\n" (
        "Esto es lo que pude confirmar:"
        ∷ (map line_of (take 8 (e ∷ es)) ++ missing_line p.unavailable_data)))

  -- `factual_fallback(packet)`
  unfoldable pub factual_fallback : ContextPacket → String
  unfolding safe_fallback_value prefix select_api
  factual_fallback p = fallback_text p (select_api p.confirmed_data)
