-- ===== src/Config/Usable.antt =====
-- Settings that src/piki/core/config.py accepts configure what they enable.
use Prim.Native.String.{◌++◌ as append}
use buenpick_piki.Base.{
  ◌≡◌, refl, String, Bool, true, false, not, Option, none, some, truthy, arith, ap, ◌∙◌,
  if◌then◌else◌,
}
use mathlib.Core.Path.{subst}
use buenpick_piki.Base.Failure.{Result, ok, err, value_error}
use buenpick_piki.Base.Text.{strip}
use buenpick_piki.Base.Text.Words.{strip_twice}
use buenpick_piki.Sql.Bind.{bind_ok, ok_inj, unless_ok, when_ok}
use buenpick_piki.Config.Settings.{
  Settings, blank_optional_value, blank_optional_values, in_bounds, resolved_secret, require,
  resolved_meta_access_token, validate_ingress, validate_worker,
  validate_meta_ingress_configuration, get_settings,
}
use buenpick_piki.Config.Factories.{create_meta_delivery_adapter}
use buenpick_piki.Meta.Adapter.{validate_configuration}

-- a value with words
abbrev pub Filled : Option String → Type 0
Filled o = (s : String) × (o ≡ some s) × (truthy (strip s) ≡ true)

required_Filled :
    (o : Option String) (s : String) → blank_optional_value o ≡ some s → truthy (strip s) ≡ true
unfolding blank_optional_value
required_Filled none s h = absurd (cc)
required_Filled (some w) s h = ground arith

pub required :
    {A : Type 0} (o : Option A) (what : String) (a : A) → require o what ≡ ok a → o ≡ some a
required none what a h = absurd (cc)
required (some b) what a h = ap some (ok_inj h)

switched_on :
    (b : Bool) (r : Result (Unit {0})) (u : Unit {0})
    → (if b then r else ok tt) ≡ ok u
    → b ≡ true
    → r ≡ ok tt
switched_on true r u h e = h
switched_on false r u h e = absurd (cc)

stripped_Filled :
    (name value s : String)
    → (if truthy (strip value)
        then ok (some (strip value))
        else err (value_error (append name " secret file is empty")))
      ≡ ok (some s)
    → truthy (strip s) ≡ true
stripped_Filled name value s h =
    let (some_words, same) = when_ok (truthy (strip value)) _ _ (some s) h in
    let is : strip value ≡ s = cc in
    subst (λ w. truthy (strip w) ≡ true) is (strip_twice value ∙ some_words)

module _ (read_text : String → Result String) where
  secret_Filled :
      (direct file : Option String) (name s : String)
      → resolved_secret read_text (blank_optional_value direct) file name ≡ ok (some s)
      → truthy (strip s) ≡ true
  unfolding resolved_secret
  secret_Filled direct none name s h = required_Filled direct s (ok_inj h)
  secret_Filled direct (some f) name s h =
      let (value, _, is) = bind_ok (read_text f) _ (some s) h in stripped_Filled name value s is

  -- what a worker's settings say of the adapter
  created :
      (x : Settings) (version phone token : String)
      → x.meta_graph_api_version ≡ some version
      → x.meta_phone_number_id ≡ some phone
      → resolved_meta_access_token read_text x ≡ ok (some token)
      → truthy (strip version) ≡ true
      → truthy (strip phone) ≡ true
      → truthy (strip token) ≡ true
      → create_meta_delivery_adapter read_text x ≡ ok tt
  unfolding create_meta_delivery_adapter validate_configuration
  created x version phone token v p t v' p' t' = rw (v, p, t, v', p', t') refl

  worker_created :
      (given : Settings)
      → validate_worker read_text (blank_optional_values given) ≡ ok tt
      → create_meta_delivery_adapter read_text (blank_optional_values given) ≡ ok tt
  unfolding validate_worker blank_optional_values resolved_meta_access_token
  worker_created given h =
      let x = blank_optional_values given in
      let (_, h1) = unless_ok (not x.conversation_enabled) _ _ tt h in
      let (found, resolved, h2) = bind_ok (resolved_meta_access_token read_text x) _ tt h1 in
      let (token, has_token, h3) = bind_ok (require found _) _ tt h2 in
      let (phone, has_phone, h4) = bind_ok (require x.meta_phone_number_id _) _ tt h3 in
      let (version, has_version, _) = bind_ok (require x.meta_graph_api_version _) _ tt h4 in
      let some_version = required x.meta_graph_api_version _ version has_version in
      let some_phone = required x.meta_phone_number_id _ phone has_phone in
      let some_token = resolved ∙ ap ok (required found _ token has_token) in
      created x version phone token some_version some_phone some_token
        (required_Filled given.meta_graph_api_version version some_version)
        (required_Filled given.meta_phone_number_id phone some_phone)
        (secret_Filled given.meta_access_token x.meta_access_token_file "Meta access token" token
          some_token)

  validated :
      (x s : Settings)
      → validate_meta_ingress_configuration read_text x ≡ ok s
      → (x ≡ s) × (x.conversation_worker_enabled ≡ true → validate_worker read_text x ≡ ok tt)
  unfolding validate_meta_ingress_configuration
  validated x s h =
      let (_, _, h1) =
        bind_ok (if x.meta_ingress_enabled then validate_ingress read_text x else ok tt) _ s h in
      let (_, checked, h2) =
        bind_ok (if x.conversation_worker_enabled then validate_worker read_text x else ok tt) _ s
          h1 in
      (ok_inj h2, switched_on x.conversation_worker_enabled (validate_worker read_text x) _ checked)

  -- Settings that are accepted and enable the conversation worker create a delivery adapter, if
  -- the files of secrets do not change.
  pub worker_settings_create_adapter :
      (given s : Settings)
      → get_settings read_text given ≡ ok s
      → s.conversation_worker_enabled ≡ true
      → create_meta_delivery_adapter read_text s ≡ ok tt
  unfolding get_settings
  worker_settings_create_adapter given s h enabled =
      let (_, h1) = when_ok (in_bounds given) _ _ s h in
      let (same, worker) = validated (blank_optional_values given) s h1 in
      subst (λ y. create_meta_delivery_adapter read_text y ≡ ok tt) same
        (worker_created given (worker (ap (λ y. y.conversation_worker_enabled) same ∙ enabled)))

  -- Settings that are accepted and enable the ingress pass the checks of the ingress.
  pub accepted_ingress :
      (given s : Settings)
      → get_settings read_text given ≡ ok s
      → s.meta_ingress_enabled ≡ true
      → validate_ingress read_text s ≡ ok tt
  unfolding get_settings validate_meta_ingress_configuration
  accepted_ingress given s h enabled =
      let x = blank_optional_values given in
      let (_, h1) = when_ok (in_bounds given) _ _ s h in
      let (_, checked, h2) =
        bind_ok (if x.meta_ingress_enabled then validate_ingress read_text x else ok tt) _ s h1 in
      let same = (validated x s h1).0 in
      subst (λ y. validate_ingress read_text y ≡ ok tt) same
        (switched_on x.meta_ingress_enabled (validate_ingress read_text x) _ checked
          (ap (λ y. y.meta_ingress_enabled) same ∙ enabled))
