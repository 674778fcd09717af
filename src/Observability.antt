-- ===== src/Observability.antt =====
-- src/piki/observability/events.py: lifecycle records and the observer that emits them.
use buenpick_piki.Base.{
  ℕ, String, Option, none, some, ◌-◌, ◌/◌, ◌≡◌, refl, true, ◌&&◌, fits, fits?, if◌then◌else◌,
}
use buenpick_piki.Base.Failure.{Result, ok, err, value_error}

pub data LifecycleEvent : Type 0 where
  message_received intent_resolved tool_started tool_finished context_built template_rendered :
      LifecycleEvent
  llm_started llm_finished grounding_checked delivery_attempted delivery_succeeded : LifecycleEvent
  delivery_failed : LifecycleEvent

pub data EventOutcome : Type 0 where
  started succeeded failed blocked : EventOutcome

pub record LifecycleRecord : Type 0 where
  pub event : LifecycleEvent
  pub trace_id : String
  pub component : String
  pub outcome : EventOutcome
  pub duration_ms : ℕ
  pub error_code : Option String
  pub confirmed_count : Option ℕ
  pub unavailable_count : Option ℕ

-- `max(0, int((time.perf_counter() - started_at) * 1000))`, on clocks in microseconds
abbrev duration : ℕ → Option ℕ → ℕ
duration now none = 0
duration now (some start) = (now - start) / 1000

-- the record that `emit` builds, with the clock's reading
unfoldable pub lifecycle_record :
    ℕ
    → LifecycleEvent
    → String
    → String
    → EventOutcome
    → Option ℕ
    → Option String
    → Option ℕ
    → Option ℕ
    → LifecycleRecord
lifecycle_record now event trace_id component outcome started_at error_code confirmed unavailable =
    record {
      event = event;
      trace_id = trace_id;
      component = component;
      outcome = outcome;
      duration_ms = duration now started_at;
      error_code = error_code;
      confirmed_count = confirmed;
      unavailable_count = unavailable;
    }

-- the bounds of the record's fields
unfoldable pub validate_record : LifecycleRecord → Result LifecycleRecord
validate_record r =
    if fits 1 128 r.trace_id && fits 1 100 r.component && fits? 0 100 r.error_code
    then ok r
    else err (value_error "field bounds")

-- `LifecycleObserver.emit`: what the sink is handed, or the ValidationError of the record. Where the
-- fields come from a value whose type has the same bounds, the record is built without the test.
unfoldable pub emit :
    ℕ
    → LifecycleEvent
    → String
    → String
    → EventOutcome
    → Option ℕ
    → Option String
    → Option ℕ
    → Option ℕ
    → Result LifecycleRecord
unfolding lifecycle_record validate_record
emit now event trace_id component outcome started_at error_code confirmed unavailable =
    validate_record (
      lifecycle_record now event trace_id component outcome started_at error_code confirmed
        unavailable)

pub emit-fits :
    (now : ℕ) (event : LifecycleEvent) (trace_id component : String) (outcome : EventOutcome)
    (started_at : Option ℕ) (error_code : Option String) (confirmed unavailable : Option ℕ)
    → fits 1 128 trace_id ≡ true
    → fits 1 100 component ≡ true
    → fits? 0 100 error_code ≡ true
    → emit now event trace_id component outcome started_at error_code confirmed unavailable
      ≡ ok (
          lifecycle_record now event trace_id component outcome started_at error_code confirmed
            unavailable)
unfolding emit lifecycle_record validate_record
emit-fits now event trace_id component outcome started_at error_code confirmed unavailable t c e =
    rw (t, c, e) refl
