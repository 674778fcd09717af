-- ===== src/Api/Configured.antt =====
-- Settings that src/piki/core/config.py accepts with the ingress enabled configure the webhook of the
-- application, src/piki/api/app.py.
use buenpick_piki.Base.{◌≡◌, sym, String, Bool, true, false, Option, none, some, ap, ◌∙◌, ◌&&◌}
use mathlib.Core.Path.{subst}
use buenpick_piki.Base.Failure.{Result, ok}
use buenpick_piki.Sql.Bind.{bind_ok, ok_inj}
use buenpick_piki.Config.Settings.{
  Settings, require, resolved_meta_app_secret, resolved_meta_webhook_verify_token, validate_ingress,
  get_settings,
}
use buenpick_piki.Config.Usable.{required, accepted_ingress}
use buenpick_piki.Api.App.{App, made, create_app}

-- all that the webhook needs to answer is there
abbrev pub Configured : {I O : Type 0} → App I O → Type 0
Configured {I} a =
    ((t : String) × (a.verify_token ≡ some t))
    × ((t : String) × (a.app_secret ≡ some t))
    × ((t : String) × (a.expected_waba_id ≡ some t))
    × ((t : String) × (a.expected_phone_number_id ≡ some t))
    × ((i : I) × (a.runtime_ingress ≡ some i))

made-some :
    {A : Type 0} (on : Bool) (given : Option A) (created : Result A) (r : Option A × Option A)
    → on ≡ true
    → made on given created ≡ ok r
    → (a : A) × (r.0 ≡ some a)
made-some true none created r on h =
    let (a, _, is) = bind_ok created _ r h in (a, sym (ap (λ q. q.0) (ok_inj is)))
made-some true (some a) created r on h = (a, sym (ap (λ q. q.0) (ok_inj h)))
made-some false given created r on h = absurd (cc)

module _ (read_text : String → Result String) where
  -- what the checks of the ingress have found
  Checked : Settings → Type 0
  Checked s =
      ((t : String) × (resolved_meta_webhook_verify_token read_text s ≡ ok (some t)))
      × ((t : String) × (resolved_meta_app_secret read_text s ≡ ok (some t)))
      × ((t : String) × (s.meta_waba_id ≡ some t))
      × ((t : String) × (s.meta_phone_number_id ≡ some t))

  checked : (s : Settings) → validate_ingress read_text s ≡ ok tt → Checked s
  unfolding validate_ingress Checked
  checked s h =
      let (secret, s1, h1) = bind_ok (resolved_meta_app_secret read_text s) _ tt h in
      let (a, s2, h2) = bind_ok (require secret _) _ tt h1 in
      let (token, s3, h3) = bind_ok (resolved_meta_webhook_verify_token read_text s) _ tt h2 in
      let (b, s4, h4) = bind_ok (require token _) _ tt h3 in
      let (waba, s5, h5) = bind_ok (require s.meta_waba_id _) _ tt h4 in
      let (phone, s6, _) = bind_ok (require s.meta_phone_number_id _) _ tt h5 in
      (
        (b, s3 ∙ ap ok (required token _ b s4)),
        (a, s1 ∙ ap ok (required secret _ a s2)),
        (waba, required s.meta_waba_id _ waba s5),
        (phone, required s.meta_phone_number_id _ phone s6),
      )

  module _ {I O : Type 0} (given s : Settings) (i : Option I) (o : Option O) (new_i : Result I)
      (new_o : Result O) where
    -- Settings that are accepted and enable the ingress give every application that is created
    -- with them, if the files of secrets do not change, a webhook with a verify token, a secret,
    -- the two expected identifiers and an ingress.
    pub accepted-Configured :
        (a : App I O)
        → get_settings read_text given ≡ ok s
        → s.meta_ingress_enabled ≡ true
        → create_app read_text s i o new_i new_o ≡ ok a
        → Configured a
    unfolding create_app Checked
    accepted-Configured a h enabled created =
        let (token, secret, waba, phone) =
          checked s (accepted_ingress read_text given s h enabled) in
        let (q, made_i, h1) = bind_ok (made s.meta_ingress_enabled i new_i) _ a created in
        let (p, _, h2) =
          bind_ok (made (s.conversation_enabled && s.local_console_enabled) o new_o) _ a h1 in
        let (t, is_t, h3) = bind_ok (resolved_meta_webhook_verify_token read_text s) _ a h2 in
        let (w, is_w, h4) = bind_ok (resolved_meta_app_secret read_text s) _ a h3 in
        subst Configured (ok_inj h4) (
          (token.0, ok_inj (sym is_t ∙ token.1)),
          (secret.0, ok_inj (sym is_w ∙ secret.1)),
          waba,
          phone,
          made-some s.meta_ingress_enabled i new_i q enabled made_i,
        )
