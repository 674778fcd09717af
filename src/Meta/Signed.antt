-- ===== src/Meta/Signed.antt =====
-- Which requests src/piki/integrations/meta/webhook.py takes for signed.
use Prim.Native.Char.{code}
use Prim.Native.String.{◌++◌ as append}
use text.Mathlib.TextEquality.{Char-path}
use text.Mathlib.TextLemmas.{nil-append, cons-append}
use buenpick_piki.Base.{
  ◌≡◌, ◌↔◌, refl, String, true, some, none, Option, ap, sym, ◌∙◌, arith, eq_iff, eq_refl, str_eq,
  text_len, ==_iff,
}
use mathlib.Core.Path.{subst}
use buenpick_piki.Base.Failure.{ok}
use buenpick_piki.Base.Text.{starts, remove_prefix, is_ascii}
use buenpick_piki.Meta.Webhook.{verify_signature}

append-remove_prefix :
    (start s : String) → starts start s ≡ true → append start (remove_prefix start s) ≡ s
append-remove_prefix String.[] s h = nil-append s
append-remove_prefix (String.◌∷◌ c start) String.[] h = absurd (cc)
append-remove_prefix (String.◌∷◌ c start) (String.◌∷◌ d s) h =
    let same : code c ≡ code d = ground arith in
    let rest : starts start s ≡ true = ground arith in
    cons-append c start (remove_prefix start s)
    ∙ ap (String.◌∷◌ c) (append-remove_prefix start s rest)
    ∙ ap (λ e. String.◌∷◌ e s) (Char-path c d same)

starts-append : (start s : String) → starts start (append start s) ≡ true
starts-append String.[] s = refl
starts-append (String.◌∷◌ c start) s =
    rw (cons-append c start s, (==_iff (code c) (code c)).1 refl) (starts-append start s)

remove_prefix-append : (start s : String) → remove_prefix start (append start s) ≡ s
remove_prefix-append String.[] s = nil-append s
remove_prefix-append (String.◌∷◌ c start) s =
    rw (cons-append c start s) (remove_prefix-append start s)

module _ (hexdigest : String → String → String) (body secret : String)
    (digest_length : text_len (hexdigest secret body) ≡ 64)
    (digest_ascii : is_ascii (hexdigest secret body) ≡ true) where
  accepts :
      (header : String)
      → verify_signature hexdigest body (some header) secret ≡ ok true
      → header ≡ append "sha256=" (hexdigest secret body)
  unfolding verify_signature
  accepts header h =
      let begins : starts "sha256=" header ≡ true = ground arith in
      let rest = remove_prefix "sha256=" header in
      let same : str_eq rest (hexdigest secret body) ≡ true = ground arith in
      sym (append-remove_prefix "sha256=" header begins)
      ∙ ap (append "sha256=") ((eq_iff rest (hexdigest secret body)).0 same)

  accepted :
      verify_signature hexdigest body (some (append "sha256=" (hexdigest secret body))) secret
      ≡ ok true
  unfolding verify_signature
  accepted =
      let digest = hexdigest secret body in
      rw
        (
          starts-append "sha256=" digest,
          remove_prefix-append "sha256=" digest,
          digest_length,
          digest_ascii,
          eq_refl digest,
        )
        refl

  -- Where the HMAC digest is an ASCII text of 64 characters, a signature header is accepted
  -- exactly if it is `sha256=` and the digest of the body under the secret.
  pub verify_signature_iff :
      (header : Option String)
      → (verify_signature hexdigest body header secret ≡ ok true)
        ↔ (header ≡ some (append "sha256=" (hexdigest secret body)))
  unfolding verify_signature
  verify_signature_iff none = (λ h. absurd (ground arith), λ h. absurd (cc))
  verify_signature_iff (some header) = (
    λ h. ap some (accepts header h),
    λ h. subst (λ o. verify_signature hexdigest body o secret ≡ ok true) (sym h) accepted,
  )
