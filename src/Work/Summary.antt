-- ===== src/Work/Summary.antt =====
-- The summaries that agent-platform/widget_contract/run_authority.py reads from one record of the
-- dispatcher, and from the documents of the session store.
use mathlib.Core.List.{reverse}
use cortxt.Prelude.{
  String, Option, none, some, List, [], ◌∷◌, ◌++◌, ◌==◌, contains, ◌||◌, not, if◌then◌else◌,
}
use cortxt.Value.{Value, Items, Fields, str, arr, obj, nil, cons, get, lookup}
use cortxt.Platform.{Platform, truthy}
use cortxt.Work.Moments.{Readers, ◌>>=◌, or_else, iso, pick, mapping, list, text_or, iso_timestamp}

abbrev pub known_statuses : List String
known_statuses =
    "in_progress" ∷ "succeeded" ∷ "failed" ∷ "timed_out" ∷ "budget_exceeded" ∷ "blocked"
    ∷ "cancelled" ∷ "review_submitted" ∷ "conflict" ∷ "unknown" ∷ []

pub record Conflict : Type 0 where
  pub field : String
  pub values : List String

-- An absent worker role is None.
pub record Summary (F : Type 0) : Type 0 where
  pub run_id : String
  pub issue_ref : String
  pub status : String
  pub engine : Option String
  pub worker_role : Value F
  pub started_at : Option String
  pub finished_at : Option String
  pub heartbeat_at : Option String
  pub sources : List String
  pub conflict : Option Conflict

abbrev pub store_dispatcher : String
store_dispatcher = "dispatcher.runs"

abbrev pub store_session : String
store_session = "session.events"

-- a status that is not one of the known ones
abbrev pub known_or_unknown : String → String
known_or_unknown status = if contains status known_statuses then status else "unknown"

module _ (p : Platform) (r : Readers p.Float) where
  -- the record of a run whose id and times can be read
  abbrev dispatcher_summary :
      Fields p.Float
      → String
      → String
      → Option String
      → Option String
      → Option String
      → Summary p.Float
  dispatcher_summary run ref run_id started finished heartbeat = record {
    run_id = run_id;
    issue_ref = ref;
    status = known_or_unknown (text_or p r (get run "status") "in_progress");
    engine = iso (pick run ("runtime" ∷ []));
    worker_role = pick run ("worker_role" ∷ []);
    started_at = started;
    finished_at = finished;
    heartbeat_at = heartbeat;
    sources = store_dispatcher ∷ [];
    conflict = none;
  }

  -- the reading of a record of the issue: `none` is an exception
  unfoldable read_run : Fields p.Float → String → Option (Summary p.Float)
  read_run run ref = do
    id ← lookup "run_id" run
    started ← iso_timestamp p r (get run "claimed_at")
    finished ← iso_timestamp p r (get run "finished_at")
    let beat = pick run ("heartbeat_at" ∷ "finished_at" ∷ "claimed_at" ∷ [])
    heartbeat ← iso_timestamp p r beat
    some (dispatcher_summary run ref (r.text id) started finished heartbeat)

  -- `summary_from_dispatcher`: the outer `none` is an exception
  unfoldable pub summary_from_dispatcher :
      Value p.Float → String → Option (Option (Summary p.Float))
  unfolding read_run
  summary_from_dispatcher (obj run) ref =
      if r.text (get run "issue_id") == ref
      then elim (read_run run ref) [ none ↦ none | some s ↦ some (some s) ]
      else some none
  summary_from_dispatcher v ref = some none

  -- the first `run.running` event's own start, or the session's
  unfoldable started : Option String → List (Value p.Float) → Option String
  started created [] = created
  started created (obj event ∷ events) =
      let rest = started created events in
      if text_or p r (get event "event_type") "" == "run.running"
      then or_else (iso (get (mapping (get event "payload")) "started_at")) created
      else rest
  started created (v ∷ events) = started created events

  -- the status of an engine's turn
  abbrev turn_status : Value p.Float → String
  turn_status (str s) = known_or_unknown s
  turn_status v = "unknown"

  -- the status and the end of a run, from its events in reverse
  unfoldable ending : List (Value p.Float) → String × Option String
  ending [] = ("in_progress", none)
  ending (obj event ∷ events) =
      let rest = ending events in
      let kind = text_or p r (get event "event_type") "" in
      if kind == "run.review_submitted"
      then ("review_submitted", iso (get event "timestamp"))
      else if kind == "run.engine_turn"
      then (turn_status (get (mapping (get event "payload")) "status"), iso (get event "timestamp"))
      else if kind == "run.running"
      then ("in_progress", none)
      else rest
  ending (v ∷ events) = ending events

  -- the time stamp of the last event that has one, from the events in reverse
  unfoldable last_stamp : List (Value p.Float) → Option String
  last_stamp [] = none
  last_stamp (obj event ∷ events) = or_else (iso (get event "timestamp")) (last_stamp events)
  last_stamp (v ∷ events) = last_stamp events

  unfoldable session_run :
      Fields p.Float → Fields p.Float → List (Value p.Float) → String → Summary p.Float
  unfolding started ending last_stamp
  session_run created payload events ref =
      let start = started (iso (get created "timestamp")) events in
      let final = ending (reverse events) in
      record {
        run_id = r.text (get payload "run_id");
        issue_ref = ref;
        status = final.0;
        engine = iso (pick payload ("runtime" ∷ "engine_id" ∷ []));
        worker_role = pick payload ("worker_role" ∷ "profile" ∷ []);
        started_at = start;
        finished_at = final.1;
        heartbeat_at = or_else final.1 (or_else (last_stamp (reverse events)) start);
        sources = store_session ∷ [];
        conflict = none;
      }

  -- the run of a document's events, when the first names a run of the issue
  unfoldable events_run : Items p.Float → String → List (Summary p.Float)
  unfolding session_run
  events_run nil ref = []
  events_run (cons first events) ref =
      let created = mapping first in
      let payload = mapping (get created "payload") in
      let owner = pick payload ("issue_id" ∷ "issue_ref" ∷ []) in
      if not (truthy p (get payload "run_id")) || not (r.text owner == ref)
      then []
      else session_run created payload (first ∷ list events) ref ∷ []

  abbrev document_run : Value p.Float → String → List (Summary p.Float)
  document_run (obj doc) ref = elim (get doc "events") [
    | arr events ↦ events_run events ref
    | _ ↦ []
  ]
  document_run v ref = []

  -- `summaries_from_sessions`
  unfoldable pub summaries_from_sessions : List (Value p.Float) → String → List (Summary p.Float)
  unfolding events_run
  summaries_from_sessions [] ref = []
  summaries_from_sessions (doc ∷ docs) ref =
      document_run doc ref ++ summaries_from_sessions docs ref
