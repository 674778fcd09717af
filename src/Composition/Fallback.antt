-- ===== src/Composition/Fallback.antt =====
-- `factual_fallback` of src/piki/composition/grounding.py always fits a reply.
use Prim.Native.String.{◌++◌ as append}
use text.Mathlib.TextLemmas.{cons-append}
use buenpick_piki.Base.{
  ℕ, zero, suc, ◌≡◌, ◌≤◌, refl, String, true, List, [], ◌∷◌, text_len, truthy, fits, arith,
}
use buenpick_piki.Base.Text.{prefix}
use buenpick_piki.Domain.Tools.{
  ContextPacket, EvidenceItem, ResponseMode, deterministic, jinja, jinja_llm, non_commercial_llm,
}
use buenpick_piki.Composition.Patterns.{Unicode}
use buenpick_piki.Composition.Grounding.{factual_fallback, fallback_text, select_api}

length-prefix : (n : ℕ) (s : String) → text_len (prefix n s) ≤ n
unfolding prefix
length-prefix zero s = omega arith
length-prefix (suc n) String.[] = omega arith
length-prefix (suc n) (String.◌∷◌ c s) = omega (arith, length-prefix n s)

prefix-fits : (n : ℕ) (s : String) → truthy s ≡ true → fits 1 (suc n) (prefix (suc n) s) ≡ true
unfolding fits prefix
prefix-fits n String.[] h = absurd (cc)
prefix-fits n (String.◌∷◌ c s) h = ground (arith, length-prefix n s)

truthy-append : (s t : String) → truthy s ≡ true → truthy (append s t) ≡ true
truthy-append String.[] t h = absurd (cc)
truthy-append (String.◌∷◌ c s) t h = rw (cons-append c s t) refl

module _ (u : Unicode) where
  mode_fits :
      (mode : ResponseMode) (p : ContextPacket)
      → p.response_mode ≡ mode
      → fits 1 4096 (fallback_text u p []) ≡ true
  unfolding fits
  mode_fits deterministic p h = rw h refl
  mode_fits jinja p h = rw h refl
  mode_fits jinja_llm p h = rw h refl
  mode_fits non_commercial_llm p h = rw h refl

  text_fits :
      (p : ContextPacket) (es : List EvidenceItem) → fits 1 4096 (fallback_text u p es) ≡ true
  text_fits p [] = mode_fits p.response_mode p refl
  text_fits p (e ∷ es) = prefix-fits 4095 _ (truthy-append "Esto es lo que pude confirmar:" _ refl)

  -- The fallback text of any packet has from 1 to 4096 characters.
  pub fallback_text_is_bounded : (p : ContextPacket) → fits 1 4096 (factual_fallback u p) ≡ true
  unfolding factual_fallback
  fallback_text_is_bounded p = text_fits p (select_api u p.confirmed_data)
