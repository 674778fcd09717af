-- ===== src/Tests/Picks.antt =====
-- What a conversation is about (src/piki/state), on a store in memory.
use buenpick_piki.Base.{
  ℕ, String, ◌≡◌, ◌+◌, refl, true, false, none, some, [], ◌∷◌, arith, eq_refl, if◌then◌else◌, fits,
  is_some, truthy,
}
use buenpick_piki.Base.Failure.{Result, ok}
use buenpick_piki.Base.Text.{strip}
use buenpick_piki.Domain.Messages.{utc}
use buenpick_piki.Domain.Tools.{not_found}
use buenpick_piki.BuenPick.Models.{AvailablePick, Answer, returns, raises, ClientError, null}
use buenpick_piki.Coordination.Redis.{up}
use buenpick_piki.PickState.Values.{KeyValueStore, JsonModel}
use buenpick_piki.PickState.Actions.{
  PendingAction, provide_order_ownership, absent, present, set_action, consume,
}
use buenpick_piki.PickState.Consumed.{consumed_once}
use buenpick_piki.Domain.Tools.{buenpick_internal_api, validate_evidence, validate_result_shape}
use buenpick_piki.BuenPick.Tools.{ToolReadings, get_pick_image, run, after_operation}
use buenpick_piki.UseCases.PickImage.{
  PickImagePreparation, prepared, prepare, with_image, validate_shape,
}
use buenpick_piki.UseCases.Prepared.{tool, Prepares, prepare-Prepares}
use buenpick_piki.PickState.Active.{
  get_pick, ActivePickResolution, ActivePickReference, ActivePickResolutionStatus, Readings,
  explicit_reference, stale, resolution, confirms, validate_reference, pick_key, set_pick, remember,
  resolve,
}
use buenpick_piki.PickState.Remembered.{explicit_then_active, stale_is_forgotten}
use buenpick_piki.Tests.Locks.{Cells, alive, put, sha, scope, empty}

abbrev store : KeyValueStore
store = record {
  State = Cells;
  get = λ s t k. alive t (s k);
  set = λ s t k v ex. (true, put s k (some (v, t + ex)));
  delete = λ s t k. (if is_some (alive t (s k)) then 1 else 0, put s k none);
  set-done = λ s t k v ex. refl;
  set-get = λ s t k v ex t' l. rw (eq_refl k) refl;
  delete-get = λ s t k t' l. rw (eq_refl k) refl;
}

abbrev action : PendingAction
action = record {
  schema_version = "1.0";
  action_id = "00000000-0000-0000-0000-000000000000";
  kind = provide_order_ownership;
  created_at = utc 5;
  subject_id = some "order";
  candidate_pick_ids = [];
}

abbrev actions : JsonModel PendingAction
actions = record { dump = λ a. "action"; validate = λ text. some action }

abbrev after_set : Cells
after_set = (set_action store actions sha 60 up 100 scope action empty).1

consumed_once_example :
    ((set_action store actions sha 60 up 100 scope action empty).0
      ≡ record { success = true; state_available = true })
    × ((consume store actions sha up 110 scope after_set).0 ≡ present action)
    × ((consume store actions sha up 120 scope
          (consume store actions sha up 110 scope after_set).1).0
        ≡ absent)
consumed_once_example =
    consumed_once store actions sha 60 scope action 100 empty refl 110 120 (omega arith)
      (omega arith) (omega arith)

abbrev pick : AvailablePick
pick = record {
  id = "pick";
  title = "Pan";
  description = "";
  price = 100;
  original_price = 300;
  available_quantity = 2;
  image_url = none;
  images = [];
  category = "bakery";
  pickup = record { starts_at = utc 1; ends_at = utc 2 };
  conditions = record {
    quantity_available = 2;
    approx_weight_grams = none;
    fulfillment = record {
      pickup = true;
      delivery_enabled = false;
      delivery_eta_min_minutes = none;
      delivery_eta_max_minutes = none;
    };
  };
  commerce = record {
    id = "commerce";
    name = "Panadería";
    description = "";
    address = "";
    city = "";
    zone = "";
    opening_hours = null;
  };
  public_url = "https://buenpick.test/pick";
}

abbrev reference : ActivePickReference
reference = record {
  schema_version = "1.0";
  pick_id = "pick";
  commerce_id = "commerce";
  selected_at = utc 90;
  source = explicit_reference;
}

abbrev references : JsonModel ActivePickReference
references = record { dump = λ a. "reference"; validate = λ text. some reference }

abbrev found_at : ℕ → Readings
found_at now = record { get_link = up; clear_link = up; set_link = up; now = now; selected_at = 90 }

abbrev client : String → Answer AvailablePick
client i = returns pick

abbrev gone : ClientError
gone = record { code = not_found; user_safe_message = "No está."; status_code = some 404 }

abbrev client_gone : String → Answer AvailablePick
client_gone i = raises gone

named : truthy (strip " pick ") ≡ true
unfolding strip
named = refl

reference_valid : validate_reference reference ≡ ok reference
unfolding validate_reference fits
reference_valid = refl

explicit_then_active_example :
    ((resolve store references sha 60 client (found_at 100) scope (some " pick ") empty).0
      ≡ ok (confirms pick explicit_reference true))
    × ((resolve store references sha 60 client
          (found_at 110)
          scope
          none
          (resolve store references sha 60 client (found_at 100) scope (some " pick ") empty).1).0
        ≡ ok (confirms pick explicit_reference true))
explicit_then_active_example =
    explicit_then_active store references sha 60 scope client (found_at 100) (found_at 110) empty
      (omega arith) refl " pick " pick pick refl (omega arith) named refl refl reference_valid refl

abbrev held : Cells
held = (set_pick store references sha 60 up 100 scope reference empty).1

holds : alive 110 (held (pick_key store references sha 60 scope)) ≡ some "reference"
unfolding set_pick
holds = rw (eq_refl (pick_key store references sha 60 scope)) refl

stale_is_forgotten_example :
    ((resolve store references sha 60 client_gone (found_at 110) scope none held).0
      ≡ ok (resolution stale (some not_found)))
    × ((resolve store references sha 60 client_gone
          (found_at 120)
          scope
          none
          (resolve store references sha 60 client_gone (found_at 110) scope none held).1).0
        ≡ ok (resolution ActivePickResolutionStatus.missing none))
stale_is_forgotten_example =
    stale_is_forgotten store references sha 60 scope client_gone (found_at 110) (found_at 120) held
      (omega arith) refl "reference" reference gone refl refl holds refl refl refl

confirms_ok :
    (resolve store references sha 60 client (found_at 100) scope (some " pick ") empty).0
    ≡ ok (confirms pick explicit_reference true)
unfolding resolve remember set_pick validate_reference fits strip
confirms_ok = refl

abbrev photographed : AvailablePick
photographed = record pick { images = "https://buenpick.test/pan.jpg" ∷ [] }

abbrev client_photo : String → Answer AvailablePick
client_photo i = returns photographed

abbrev clocks : ToolReadings
clocks = record { started = 1; finished = 2; observed_at = 3; started_now = 4; finished_now = 5 }

abbrev resolves : Cells → Result ActivePickResolution × Cells
resolves = resolve store references sha 60 client_photo (found_at 110) scope none

resolved : resolves held ≡ (ok (confirms photographed explicit_reference true), held)
unfolding resolve set_pick get_pick
resolved = rw (eq_refl (pick_key store references sha 60 scope)) refl

abbrev image : PickImagePreparation
image =
    prepared
      (record { pick_id = "pick"; title = "Pan"; image_url = "https://buenpick.test/pan.jpg" })
      "trace"
      (record {
        label = "pick_title";
        value = "Pan";
        source = buenpick_internal_api;
        source_reference = some "pick";
      })
      (record {
        label = "pick_image_url";
        value = "https://buenpick.test/pan.jpg";
        source = buenpick_internal_api;
        source_reference = some "pick";
      })

abbrev asks : String → Result (Answer AvailablePick)
asks i = ok (client_photo i)

prepares : (prepare (tool clocks "trace" asks) "trace" resolves held).0 ≡ ok image
unfolding prepare get_pick_image run after_operation validate_result_shape with_image
    validate_evidence validate_shape fits resolve set_pick get_pick
prepares = rw (eq_refl (pick_key store references sha 60 scope)) refl

prepare-Prepares_example :
    Prepares clocks "trace" asks (confirms photographed explicit_reference true) image
prepare-Prepares_example =
    prepare-Prepares clocks "trace" asks resolves held held
      (confirms photographed explicit_reference true) image resolved prepares
