-- ===== src/Events/Examples.antt =====
-- Concrete runs of the event surface: two calls that deliver one event, its window, and a schema.
use cortxt.Prelude.{
  All, ℕ, ◌+◌, ◌*◌, ◌<◌, ◌≡◌, ◌↔◌, refl, pos, true, false, none, some, [], ◌∷◌, arith,
}
use cortxt.Value.{Fields, int, str, obj, end, field}
use cortxt.Platform.{Time}
use cortxt.Mandate.Samples.{whole}
use cortxt.Dict.{Dict, insert, lookup}
use cortxt.Events.Schema.{Rules, schema, Properties, none_left, property}
use cortxt.Events.Validation.{
  validate_data, check_rules, check_keys, check_range, find_property, missing, unknown,
}
use cortxt.Events.Validation.Keys.{HasKey, AllKnown}
use cortxt.Events.Validation.Kinds.{IsOneOf, IsConst, IsInEnum}
use cortxt.Events.Validation.Objects.{FieldsFit, valid_object_iff}
use cortxt.Events.Envelope.{
  validate_envelope, validate_iso8601, replace_zs, matches_type, matches_rest,
}
use cortxt.Events.Idempotency.{Entry, record_event, record_known, within, replayed_within_window}
use cortxt.Events.Idempotency.Window.{time_of, recording, pruning, apply_all, replay_suppressed}
use cortxt.Events.Dispatch.{
  Request, Setup, document, signature_ok, resolve, payload_hash, route, deliver, check_data,
  check_document, dispatch_event,
}
use cortxt.Events.Dispatch.Once.{IsDelivered, succeeded-IsDelivered}
use cortxt.Events.Dispatch.Twice.{event_id, after, successes_apart}

replay_suppressed_example :
    let later =
      apply_all 5 (recording "b" "h" 3 ∷ pruning 4 ∷ []) (record_event 5 "a" "h1" 2 []).1 in
    record_event 5 "a" "h2" 5000001 later ≡ (replayed_within_window, later)
unfolding record_event lookup time_of
replay_suppressed_example =
    replay_suppressed 5 "a" "h1" "h2" 2 5000001 [] (recording "b" "h" 3 ∷ pruning 4 ∷ []) refl
      (omega arith) (omega arith, (omega arith, tt))

abbrev one_entry : Dict Entry
one_entry = ("a", record { payload_hash = "h1"; recorded_at = some 2 }) ∷ []

abbrev no_rules : Rules ℕ
no_rules = record {
  types = none;
  const = none;
  enum = none;
  pattern = none;
  required = [];
  closed = false;
  max_items = none;
  min_items = none;
  minimum = none;
  maximum = none;
}

abbrev sizes : Properties ℕ
sizes = property "size" (schema no_rules none_left none_left) none_left

abbrev content : Fields ℕ
content = field "size" (int (pos 3)) end

abbrev rules : Rules ℕ
rules = record {
  types = none;
  const = none;
  enum = none;
  pattern = none;
  required = "size" ∷ [];
  closed = true;
  max_items = none;
  min_items = none;
  minimum = none;
  maximum = none;
}

valid_object_iff_example :
    (validate_data whole (obj content) (schema rules sizes none_left) ≡ none) ↔ (
      IsOneOf whole rules.types
      × IsConst whole (obj content) rules.const
      × IsInEnum whole (obj content) rules.enum
      × All (HasKey content) rules.required
      × (rules.closed ≡ true → AllKnown content sizes)
      × FieldsFit whole content sizes)
valid_object_iff_example = valid_object_iff whole content rules sizes none_left

abbrev setup : Setup whole ℕ
setup = record {
  registry = ("made", schema rules sizes none_left) ∷ [];
  handlers = ("made", λ e. some 7) ∷ [];
  window = 5;
}

abbrev call : Time → Request whole
call now = record {
  envelope = document (
      obj (
        field "id" (str "e1") (
          field "type" (str "made") (
            field "occurred_at" (str "noonZ")
              (field "source" (str "shop") (field "data" (obj content) end))))));
  raw_payload = some "body";
  secret = none;
  signature = none;
  scheme = "sha256";
  now = now;
}

succeeded-IsDelivered_example : IsDelivered whole setup (call 9) none 7
unfolding dispatch_event signature_ok resolve check_document validate_envelope validate_iso8601
    replace_zs matches_type matches_rest check_data validate_data check_rules check_keys check_range
    missing unknown find_property deliver route lookup
succeeded-IsDelivered_example = succeeded-IsDelivered whole setup (call 9) none 7 refl

successes_apart_example : 9 + 5 * 1000000 < 6000000
unfolding dispatch_event signature_ok resolve check_document validate_envelope validate_iso8601
    replace_zs matches_type matches_rest check_data validate_data check_rules check_keys check_range
    missing unknown find_property deliver route lookup record_event record_known within payload_hash
    event_id after insert
successes_apart_example =
    successes_apart whole setup (call 9) (call 6000000) (call 10 ∷ []) [] 7 7 "e1" refl refl
      (omega arith, tt) refl refl
