-- ===== src/Tests/Apps.antt =====
-- An application, src/piki/api/app.py, with the ingress enabled.
use buenpick_piki.Base.{◌≡◌, refl, true, none, some, [], ◌∷◌}
use buenpick_piki.Base.Failure.{Result, ok, err, other}
use buenpick_piki.Base.Text.{strip}
use buenpick_piki.Config.Settings.{
  Settings, get_settings, blank_optional_values, in_bounds, validate_meta_ingress_configuration,
}
use buenpick_piki.Api.App.{App, create_app, closings, ingress, readiness, webhook}
use buenpick_piki.Api.Configured.{Configured, accepted-Configured}
use buenpick_piki.Tests.Routes.{given, read_text}

abbrev hooked : Settings
hooked = record given {
  meta_app_secret = some "secret";
  meta_waba_id = some "7";
  meta_webhook_verify_token_file = some "/run/secrets/verify";
  meta_ingress_enabled = true;
}

abbrev accepted : Settings
accepted = blank_optional_values hooked

abbrev ingress_of : Result (Unit {0})
ingress_of = ok tt

abbrev no_orchestrator : Result (Unit {0})
no_orchestrator = err (other "unused")

abbrev app : App (Unit {0}) (Unit {0})
app = record {
  verify_token = some "token";
  app_secret = some "secret";
  expected_waba_id = some "7";
  expected_phone_number_id = some "100";
  runtime_ingress = some tt;
  owned_ingress = some tt;
  runtime_orchestrator = none;
  owned_orchestrator = none;
  routers = webhook ∷ [];
}

gets : get_settings read_text hooked ≡ ok accepted
unfolding get_settings in_bounds validate_meta_ingress_configuration blank_optional_values strip
gets = refl

enabled : accepted.meta_ingress_enabled ≡ true
unfolding blank_optional_values
enabled = refl

creates : create_app read_text accepted none none ingress_of no_orchestrator ≡ ok app
unfolding create_app blank_optional_values strip
creates = refl

closes : closings app ≡ ingress ∷ readiness ∷ []
unfolding closings
closes = refl

accepted-Configured_example : Configured app
accepted-Configured_example =
    accepted-Configured read_text hooked accepted none none ingress_of no_orchestrator app gets
      enabled creates
