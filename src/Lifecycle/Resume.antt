-- ===== src/Lifecycle/Resume.antt =====
-- The worker's turn and resume_run of agent-platform/cortxt_mcp/run_lifecycle.py.
pub mod Engine
pub mod Status
pub mod Calls
use cortxt.Prelude.{
  ℤ, String, Bool, true, false, ◌&&◌, ◌||◌, not, Option, none, some, List, [], ◌∷◌, ◌==◌, contains,
  is_some, if◌then◌else◌,
}
use cortxt.Value.{
  Value, Items, Fields, null, bool, int, float, str, arr, obj, end, field, get, as_str,
}
use cortxt.Platform.{Platform, truthy}
use cortxt.Lifecycle.Schema.{
  Floats, run_resume, run_submit_for_review, validate_schema, matches_run_id, matches_issue_ref,
}
use cortxt.Lifecycle.Runs.{
  Event, Session, terminal_statuses, resumable_statuses, get_or, is_text, in_statuses, find_run,
  find_review_submission, newest_of, last_engine_turn, or_empty, Identity, or_value, run_identity,
}
use cortxt.Lifecycle.Envelope.{
  Envelope, Shown, runtime_of, result_status, safe_cost, envelope, review_envelope,
}
use cortxt.Lifecycle.Turns.{
  Call, Invocation, returned, failed, Worker, Service, put_event, Failure, as_returned, as_failed,
  append_engine_turn,
}
use cortxt.Lifecycle.Service.{
  Refusal, lifecycle, invalid_arguments, session_error, raised, run_not_found, issue_ref_mismatch,
  run_not_resumable, session_id_unavailable, engine_not_registered, adapter_failed,
  result_correlation_mismatch, idempotency_conflict, Outcome, done, refused, World, ◌orelse◌,
  refuse_if, text_at, check_binding, as_int, worktree_of, answer, guarded, create_run,
}

module _ (p : Platform) (floats : Floats p.Float) where
  abbrev pub keep_or : Option (Service p.Float) → Service p.Float → Service p.Float
  keep_or none svc = svc
  keep_or (some svc') svc = svc'

  abbrev pub recorded_or :
      Option (Service p.Float) → Option (Service p.Float) → Service p.Float → Service p.Float
  recorded_or none second svc = keep_or second svc
  recorded_or (some svc') second svc = svc'

  abbrev pub record_failure :
      Worker p.Float → World p.Float → String → Bool → Service p.Float → Option (Service p.Float)
  record_failure worker w message written svc =
      append_engine_turn p floats worker.session_id worker.run_created end (as_failed message) w.now
        written svc

  -- the worker's turn: a result that cannot be recorded is recorded as a failure, and where that
  -- cannot be recorded either, nothing is
  unfoldable pub worker_turn :
      Worker p.Float → World p.Float → Bool → Invocation p.Float → Service p.Float → Service p.Float
  unfolding append_engine_turn
  worker_turn worker w second_written (failed message) svc =
      keep_or (record_failure worker w message w.event_written svc) svc
  worker_turn worker w second_written (returned (obj result)) svc =
      recorded_or
        (append_engine_turn p floats worker.session_id worker.run_created result as_returned w.now
          w.event_written svc)
        (record_failure worker w w.error_text second_written svc) svc
  worker_turn worker w second_written (returned v) svc =
      keep_or (record_failure worker w "adapter returned a non-dict result" w.event_written svc) svc

  -- whether a run of this status may be resumed: `none` is TypeError
  unfoldable pub resumable : Value p.Float → Option Bool
  resumable status = elim (in_statuses status terminal_statuses) [
    | none ↦ none
    | some ended ↦ elim (in_statuses status resumable_statuses) [
      | none ↦ none
      | some again ↦ some (not (is_text status "running" || ended && not again))
    ]
  ]

  abbrev pub resume_refusal : Option Bool → Option Refusal
  resume_refusal none = some raised
  resume_refusal (some true) = none
  resume_refusal (some false) = some (lifecycle run_not_resumable)

  abbrev pub is_null : Value p.Float → Bool
  is_null null = true
  is_null v = false

  -- the checks that resume_run and submit_for_review make of their arguments
  unfoldable pub arguments_guard : Bool → Fields p.Float → Fields p.Float → Option Refusal
  unfolding matches_issue_ref matches_run_id check_binding
  arguments_guard valid arguments binding =
      refuse_if (not valid) invalid_arguments
      orelse refuse_if (not (matches_issue_ref (text_at p floats arguments "issue_ref")))
          invalid_arguments
      orelse refuse_if (not (matches_run_id (text_at p floats arguments "run_id")))
          invalid_arguments
      orelse check_binding p floats binding (text_at p floats arguments "issue_ref") none

  -- the checks of `resume_run` on the run that it found
  unfoldable pub resume_guard : Fields p.Float → Identity p.Float → World p.Float → Option Refusal
  unfolding resumable
  resume_guard arguments identity w =
      refuse_if (not (is_text identity.issue_ref (text_at p floats arguments "issue_ref")))
        (lifecycle issue_ref_mismatch)
      orelse resume_refusal (resumable identity.status)
      orelse refuse_if (is_null identity.session_id && not (is_text identity.status "created"))
          (lifecycle session_id_unavailable)
      orelse refuse_if (not (w.has_provider identity.engine_id)) (lifecycle engine_not_registered)

  -- the invocation of a resumed run
  abbrev pub resume_call : Fields p.Float → Identity p.Float → Call p.Float
  resume_call arguments identity = record {
    engine_id = identity.engine_id;
    profile = identity.profile;
    prompt = get arguments "prompt";
    timeout_seconds = as_int p floats (get arguments "max_runtime_seconds");
    model = get arguments "model";
    provider = get arguments "provider";
    cwd = worktree_of p floats identity.worktree;
    session_id = identity.session_id;
  }

  -- `{"run_id": …, "engine_id": …, "profile": …}`
  abbrev pub resumed_as : Fields p.Float → Identity p.Float → Fields p.Float
  resumed_as arguments identity =
      field "run_id" (get arguments "run_id")
        (field "engine_id" identity.engine_id (field "profile" identity.profile end))

  abbrev pub resumed_envelope :
      Fields p.Float → Identity p.Float → Fields p.Float → World p.Float → Outcome p.Float
  resumed_envelope arguments identity result w = answer p floats (
      envelope p floats
        (record {
          issue_ref = identity.issue_ref;
          run_id = get arguments "run_id";
          session_id = or_value p (get result "session_id") identity.session_id;
          runtime = runtime_of identity.engine_id;
          profile = identity.profile;
          worker_role = or_value p identity.worker_role (str "builder");
          started_at = str w.started_at;
          model = get arguments "model";
          finished_at = str w.now;
        })
        result)

  -- what a turn that cannot be recorded raises
  abbrev pub turn_refusal : Option p.Float → Refusal
  turn_refusal none = raised
  turn_refusal (some cost) = session_error

  -- an outcome after a turn that was recorded; one that was not raises
  abbrev pub after_turn :
      Option (Service p.Float)
      → Outcome p.Float
      → Fields p.Float
      → Service p.Float
      → Outcome p.Float × Service p.Float
  after_turn none outcome result svc =
      (refused (turn_refusal (safe_cost p floats (get result "cost"))), svc)
  after_turn (some svc') outcome result svc = (outcome, svc')

  -- the turn of `resume_run`
  unfoldable pub resume_turn :
      Fields p.Float
      → Session p.Float
      → Identity p.Float
      → World p.Float
      → Invocation p.Float
      → Service p.Float
      → Outcome p.Float × Service p.Float
  unfolding append_engine_turn envelope safe_cost
  resume_turn arguments s identity w (failed message) svc =
      after_turn
        (append_engine_turn p floats s.session_id (resumed_as arguments identity) end
          (as_failed message) w.now w.event_written svc)
        (refused (lifecycle adapter_failed)) end svc
  resume_turn arguments s identity w (returned (obj result)) svc =
      after_turn
        (append_engine_turn p floats s.session_id (resumed_as arguments identity) result as_returned
          w.now w.event_written svc)
        (resumed_envelope arguments identity result w) result svc
  resume_turn arguments s identity w (returned v) svc =
      after_turn
        (append_engine_turn p floats s.session_id (resumed_as arguments identity) end
          (as_failed "adapter returned a non-dict result") w.now w.event_written svc)
        (refused (lifecycle adapter_failed)) end svc

  -- the run that `resume_run` found
  unfoldable pub resume_found :
      Fields p.Float
      → World p.Float
      → Service p.Float
      → Option (Session p.Float)
      → Outcome p.Float × Service p.Float
  unfolding run_identity resume_guard resume_turn
  resume_found arguments w svc none = (refused (lifecycle run_not_found), svc)
  resume_found arguments w svc (some s) =
      let identity = run_identity p s in
      guarded p floats (resume_guard arguments identity w)
        (resume_turn arguments s identity w w.invocation
          (record svc { calls = resume_call arguments identity ∷ svc.calls }))
        svc

  -- `resume_run`
  unfoldable pub resume_run :
      Fields p.Float
      → Fields p.Float
      → World p.Float
      → Service p.Float
      → Outcome p.Float × Service p.Float
  unfolding validate_schema arguments_guard find_run resume_found
  resume_run arguments binding w svc =
      guarded p floats
        (arguments_guard (validate_schema p floats run_resume arguments) arguments binding)
        (resume_found arguments w svc (find_run svc.sessions (text_at p floats arguments "run_id")))
        svc
