-- ===== src/Base/Text/Words.antt =====
-- Texts that have more than white space, which `strip` keeps.
use Prim.Native.Char.{Char}
use Prim.Native.String.{String}
use mathlib.Core.Path.{◌≡◌, refl, ◌∙◌, sym}
use mathlib.Core.Bool.{Bool, true, false, ◌&&◌, ◌||◌, not}
use buenpick_piki.Base.Tests.{truthy, if◌then◌else◌}
use buenpick_piki.Base.Text.{is_space, lstrip, rstrip, strip}

has_words : String → Bool
has_words String.[] = false
has_words (String.◌∷◌ c s) = not (is_space c) || has_words s

words-lstrip : (s : String) → has_words (lstrip s) ≡ has_words s
unfolding lstrip has_words
words-lstrip String.[] = refl
words-lstrip (String.◌∷◌ c s) = kept (is_space c) refl (words-lstrip s)
  where
    kept :
        (b : Bool)
        → is_space c ≡ b
        → has_words (lstrip s) ≡ has_words s
        → has_words (if b then lstrip s else String.◌∷◌ c s) ≡ not b || has_words s
    kept true e h = h
    kept false e h = rw e refl

cut_truthy :
    (c : Char) (b t : Bool) (r : String)
    → truthy r ≡ t
    → truthy (if b && not (truthy r) then String.[] else String.◌∷◌ c r) ≡ not b || t
cut_truthy c false t r h = refl
cut_truthy c true true r h = rw h refl
cut_truthy c true false r h = rw h refl

truthy-rstrip : (s : String) → truthy (rstrip s) ≡ has_words s
unfolding rstrip has_words
truthy-rstrip String.[] = refl
truthy-rstrip (String.◌∷◌ c s) =
    cut_truthy c (is_space c) (has_words s) (rstrip s) (truthy-rstrip s)

cut_words :
    (c : Char) (b t : Bool) (r : String)
    → is_space c ≡ b
    → truthy r ≡ t
    → has_words r ≡ t
    → has_words (if b && not (truthy r) then String.[] else String.◌∷◌ c r) ≡ not b || t
unfolding has_words
cut_words c false t r e h k = rw e refl
cut_words c true true r e h k = rw (h, e) k
cut_words c true false r e h k = rw h refl

words-rstrip : (s : String) → has_words (rstrip s) ≡ has_words s
unfolding rstrip has_words
words-rstrip String.[] = refl
words-rstrip (String.◌∷◌ c s) =
    cut_words c (is_space c) (has_words s) (rstrip s) refl (truthy-rstrip s) (words-rstrip s)

-- a text that is stripped twice has words if it had them
pub strip_twice : (s : String) → truthy (strip (strip s)) ≡ truthy (strip s)
unfolding strip
strip_twice s =
    truthy-rstrip (lstrip (rstrip (lstrip s)))
    ∙ words-lstrip (rstrip (lstrip s))
    ∙ words-rstrip (lstrip s)
    ∙ sym (truthy-rstrip (lstrip s))
