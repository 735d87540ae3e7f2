-- ===== src/Session/Examples.antt =====
-- Concrete runs of the session log: a session is created, and one event is appended.
use mathlib.Core.Option.{some-injective}
use cortxt.Prelude.{ℕ, pos, String, ◌≡◌, ◌≢◌, ◌⊎◌, refl, sym, ap, ◌∙◌, true, [], is_blank}
use cortxt.Platform.{Platform}
use cortxt.Value.{
  Items, nil, cons, as_str, Fields, str, obj, int, end, field, get, lookup, same_keys, keys_within,
  has_all, has,
}
use cortxt.Mandate.Samples.{whole}
use cortxt.Dict as Dict
use cortxt.Events.Validation.{same_value}
use cortxt.Session.{
  Outcome, ok, session_error, raises, File, ◌>>=◌, matches_event_type, matches_session_id, prefixed,
  digest, event, check_event, check_events, validate_chain, load, atomic_write, put_events, snoc,
  extend, append_loaded, append, create, signed,
}
use cortxt.Session.Log.{load-append}
use cortxt.Session.Tamper.{IsPrinter, texts, check_events_lem}

abbrev session_id : String
session_id = "session_0123456789abcdef0123456789abcdef"

abbrev Written : Type 0
Written = Fields ℕ × Dict.Dict (File ℕ)

-- what a call that succeeds returns
abbrev result : Outcome Written → Written
result (ok w) = w
result (session_error c) = (end, [])
result raises = (end, [])

abbrev created : Outcome Written
created = create whole true [] session_id (str "task") end "t0"

abbrev appended : Outcome Written
appended =
    append whole true (result created).1 session_id (pos 0) "step.done"
      (field "n" (int (pos 1)) end) "t1"

load-append_example : load whole (result appended).1 session_id ≡ ok (obj (result appended).0)
unfolding create event matches_event_type digest matches_session_id prefixed atomic_write ◌>>=◌
    append load validate_chain check_events check_event append_loaded extend put_events snoc
    same_keys keys_within has_all has lookup get same_value Dict.lookup Dict.insert is_blank
load-append_example =
    load-append whole true (result created).1 (result appended).1 session_id (pos 0) "step.done"
      (field "n" (int (pos 1)) end) (result appended).0 "t1" refl

-- a platform whose canonical text of an event is the hash before it
abbrev printing : Platform
printing = record whole { canonical = λ d. as_str (get d "previous_hash") }

printing-IsPrinter : IsPrinter printing
unfolding get lookup
printing-IsPrinter d e text s t h k x y =
    some-injective _ _ (sym (ap as_str x) ∙ h ∙ sym k ∙ ap as_str y)

abbrev one_event : String → Items ℕ
one_event now =
    cons
      (obj (
        signed printing (int (pos 0)) (str "session.created") (obj end) (str "start") (str now)
          "start"))
      nil

passes : (now : String) → check_events printing 0 (str "start") (one_event now) ≡ ok (str "start")
unfolding check_events check_event digest get lookup same_keys keys_within has_all has same_value
    ◌>>=◌
passes now = refl

check_events_lem_example :
    ((◌≡◌ {A = String} "start" "start")
      × (texts printing (one_event "t0") ≡ texts printing (one_event "t1")))
    ⊎ ((s : String) × (t : String) × (s ≢ t) × (printing.sha256 s ≡ printing.sha256 t))
check_events_lem_example =
    check_events_lem printing 0 "start" "start" "start" (one_event "t0") (one_event "t1")
      printing-IsPrinter refl (passes "t0") (passes "t1")
