-- ===== src/Lifecycle/Turns.antt =====
-- The writes of agent-platform/cortxt_mcp/run_lifecycle.py: a session more, or an event more in one. A
-- write of session_state.py that does not succeed raises SessionError and changes nothing. The calls are
-- one after the other: session_state.append loads, checks the sequence and replaces the file without a
-- lock, so of two appends at one time one may be lost, which is not modelled.
use cortxt.Prelude.{
  String, Bool, true, false, Option, none, some, List, [], ◌∷◌, ◌==◌, if◌then◌else◌,
}
use cortxt.Value.{Value, Items, Fields, null, float, str, arr, obj, nil, cons, end, field, get}
use cortxt.Platform.{Platform}
use cortxt.Lifecycle.Schema.{Floats}
use cortxt.Lifecycle.Runs.{Event, Session, get_or, or_value}
use cortxt.Lifecycle.Envelope.{
  Artifact, safe_artifacts, safe_cost, dict_or_empty, list_or_empty, dict_or_none,
}

-- The invocation of an engine.
pub record Call (F : Type 0) : Type 0 where
  pub engine_id : Value F
  pub profile : Value F
  pub prompt : Value F
  pub timeout_seconds : Value F
  pub model : Value F
  pub provider : Value F
  pub cwd : Value F
  pub session_id : Value F

-- What an engine returns, or the text of its exception.
pub data Invocation (F : Type 0) : Type 0 where
  returned : Value F → Invocation F
  failed : String → Invocation F

-- A worker that `create_run` started and that has not finished.
pub record Worker (F : Type 0) : Type 0 where
  pub session_id : String
  pub run_created : Fields F

pub record Service (F : Type 0) : Type 0 where
  pub sessions : List (Session F)
  pub workers : List (Worker F)
  pub calls : List (Call F)

module _ {F : Type 0} where
  -- one more event in a session
  abbrev pub with_event : Event F → Session F → Session F
  with_event e s = record s { events = e ∷ s.events }

  unfoldable pub append_event : String → Event F → List (Session F) → List (Session F)
  append_event id e [] = []
  append_event id e (s ∷ sessions) =
      let rest = append_event id e sessions in
      if s.session_id == id then with_event e s ∷ rest else s ∷ rest

  abbrev pub put_event : String → String → Fields F → Service F → Service F
  put_event id type payload svc = record svc {
    sessions = append_event id (record { event_type = type; payload = payload }) svc.sessions;
  }

  abbrev optional_text : Option String → Value F
  optional_text none = null
  optional_text (some s) = str s

  abbrev artifact_items : List Artifact → Items F
  artifact_items [] = nil
  artifact_items (a ∷ artifacts) =
      cons (obj (field "ref" (str a.ref) (field "sha256" (optional_text a.sha256) end)))
        (artifact_items artifacts)

-- `error`: None, or a category with a message
pub data Failure : Type 0 where
  as_returned : Failure
  as_failed : String → Failure

module _ (p : Platform) (floats : Floats p.Float) where
  abbrev turn_status : Failure → Fields p.Float → Value p.Float
  turn_status as_returned result = get_or result "status" (str "failed")
  turn_status (as_failed message) result = str "failed"

  abbrev turn_error : Failure → Fields p.Float → Value p.Float
  turn_error as_returned result = dict_or_none (get result "error")
  turn_error (as_failed message) result =
      obj (field "category" (str "adapter_failed") (field "message" (str message) end))

  -- the payload of `_append_engine_turn` with a cost that could be read
  unfoldable pub turn_payload :
      Fields p.Float → Fields p.Float → Failure → p.Float → String → Fields p.Float
  unfolding safe_artifacts
  turn_payload run_created result failure cost now = field "run_id" (get run_created "run_id") (
      field "engine_id" (or_value p (get run_created "engine_id") (get run_created "runtime")) (
        field "profile" (get run_created "profile") (
          field "status" (turn_status failure result) (
            field "session_id" (get result "session_id") (
              field "model" (get result "model") (
                field "provider" (get result "provider") (
                  field "usage" (dict_or_empty (get result "usage")) (
                    field "cost" (float cost) (
                      field "cost_status" (get_or result "cost_status" (str "unknown")) (
                        field "artifacts"
                          (arr (artifact_items (safe_artifacts (get result "artifacts"))))
                          (field "evidence" (list_or_empty (get result "evidence")) (
                            field "error" (turn_error failure result)
                              (field "finished_at" (str now) end)))))))))))))

  abbrev pub write_turn :
      String
      → Fields p.Float
      → Fields p.Float
      → Failure
      → String
      → Bool
      → Service p.Float
      → Option p.Float
      → Option (Service p.Float)
  write_turn id run_created result failure now written svc none = none
  write_turn id run_created result failure now false svc (some cost) = none
  write_turn id run_created result failure now true svc (some cost) =
      some (put_event id "run.engine_turn" (turn_payload run_created result failure cost now) svc)

  -- `_append_engine_turn`: `none` is an exception, which changes nothing
  unfoldable pub append_engine_turn :
      String
      → Fields p.Float
      → Fields p.Float
      → Failure
      → String
      → Bool
      → Service p.Float
      → Option (Service p.Float)
  unfolding turn_payload safe_cost
  append_engine_turn id run_created result failure now written svc =
      write_turn id run_created result failure now written svc
        (safe_cost p floats (get result "cost"))
