-- ===== src/Lifecycle/Service.antt =====
-- `RunLifecycleService` of agent-platform/cortxt_mcp/run_lifecycle.py: create_run with its worker,
-- resume_run and submit_for_review. The arguments are dictionaries. What the outside does in one call
-- is a World.
use cortxt.Prelude.{
  ◌≡◌, refl, arith, String, Bool, true, false, not, Option, none, some, [], ◌∷◌, if◌then◌else◌,
}
use cortxt.Value.{Value, Fields, null, int, float, str, end, field, get}
use cortxt.Platform.{Platform, truthy}
use cortxt.Lifecycle.Schema.{Floats, run_create, validate_schema, matches_issue_ref}
use cortxt.Lifecycle.Runs.{Session, is_text, active_run_for_issue}
use cortxt.Lifecycle.Envelope.{Envelope, runtime_of, envelope}
use cortxt.Lifecycle.Turns.{Call, Invocation, Service, put_event}

pub data Code : Type 0 where
  run_not_found issue_ref_mismatch claim_conflict run_not_resumable session_id_unavailable : Code
  engine_not_registered adapter_failed result_envelope_invalid result_not_terminal : Code
  result_correlation_mismatch review_already_submitted idempotency_conflict : Code
  lifecycle_not_configured : Code

-- RunLifecycleError with its code, InvalidArgumentsError, SessionError, or another exception.
pub data Refusal : Type 0 where
  lifecycle : Code → Refusal
  invalid_arguments : Refusal
  session_error : Refusal
  raised : Refusal

pub data Outcome (F : Type 0) : Type 0 where
  done : Envelope F → Outcome F
  refused : Refusal → Outcome F

-- The fresh ids, the clock's texts, the engines that have a provider, the writes that succeed, and what
-- the engine does.
pub record World (F : Type 0) : Type 0 where
  pub run_id : String
  pub session_id : String
  pub submission_id : String
  pub started_at : String
  pub now : String
  pub has_provider : Value F → Bool
  pub session_written : Bool
  pub created_written : Bool
  pub running_written : Bool
  pub event_written : Bool
  pub invocation : Invocation F
  pub error_text : String

-- The first refusal, or none.
infixr 20 ◌orelse◌
abbrev pub ◌orelse◌ : Option Refusal → Option Refusal → Option Refusal
none orelse next = next
(some r) orelse next = some r

pub orelse_none : (a b : Option Refusal) → (a orelse b) ≡ none → (a ≡ none) × (b ≡ none)
orelse_none none b h = (refl, h)
orelse_none (some r) b h = absurd (ground arith)

abbrev pub refuse_if : Bool → Refusal → Option Refusal
refuse_if true r = some r
refuse_if false r = none

module _ (p : Platform) (floats : Floats p.Float) where
  -- `arguments[key]` of a text, which the schema requires
  abbrev pub text_at : Fields p.Float → String → String
  text_at d key = elim (get d key) [ str s ↦ s | _ ↦ "" ]

  -- `compute_scope_fingerprint`
  abbrev pub scope_fingerprint : String → String
  scope_fingerprint scope = p.sha256 scope

  -- `_check_binding`: whether it raises
  unfoldable pub check_binding : Fields p.Float → String → Option String → Option Refusal
  check_binding binding issue_ref none =
      refuse_if (not (is_text (get binding "issue_ref") issue_ref)) (lifecycle issue_ref_mismatch)
  check_binding binding issue_ref (some fingerprint) =
      refuse_if (not (is_text (get binding "issue_ref") issue_ref)) (lifecycle issue_ref_mismatch)
      orelse refuse_if (not (is_text (get binding "scope_fingerprint") fingerprint))
          (lifecycle issue_ref_mismatch)

  abbrev pub claim_refusal : Option (Option (Session p.Float)) → Option Refusal
  claim_refusal none = some raised
  claim_refusal (some none) = none
  claim_refusal (some (some s)) = some (lifecycle claim_conflict)

  -- the checks of `create_run`
  unfoldable pub create_guard :
      Fields p.Float → Fields p.Float → World p.Float → Service p.Float → Option Refusal
  unfolding validate_schema matches_issue_ref check_binding active_run_for_issue
  create_guard arguments binding w svc =
      refuse_if (not (validate_schema p floats run_create arguments)) invalid_arguments
      orelse refuse_if (not (matches_issue_ref (text_at arguments "issue_ref"))) invalid_arguments
      orelse check_binding binding (text_at arguments "issue_ref")
          (some (scope_fingerprint (text_at arguments "scope")))
      orelse claim_refusal (active_run_for_issue svc.sessions (text_at arguments "issue_ref"))
      orelse refuse_if (not (w.has_provider (get arguments "engine_id")))
          (lifecycle engine_not_registered)

  -- `int(v)` and `float(v)` of validated numbers
  abbrev pub as_int : Value p.Float → Value p.Float
  as_int (float x) = elim (p.truncate x) [ none ↦ null | some i ↦ int i ]
  as_int v = v

  abbrev as_float : Value p.Float → Value p.Float
  as_float (int i) = elim (p.of_int i) [ none ↦ null | some x ↦ float x ]
  as_float v = v

  -- the payload of `run.created`
  unfoldable pub run_created : Fields p.Float → Fields p.Float → World p.Float → Fields p.Float
  run_created arguments binding w = field "run_id" (str w.run_id) (
      field "issue_ref" (get arguments "issue_ref") (
        field "scope_fingerprint" (get binding "scope_fingerprint") (
          field "engine_id" (get arguments "engine_id") (
            field "profile" (get arguments "profile") (
              field "data_class" (get arguments "data_class") (
                field "max_runtime_seconds" (as_int (get arguments "max_runtime_seconds")) (
                  field "max_cost_usd" (as_float (get arguments "max_cost_usd")) (
                    field "max_parallel_workers" (as_int (get arguments "max_parallel_workers")) (
                      field "delegation_depth" (as_int (get arguments "delegation_depth")) (
                        field "artifact_policy" (get arguments "artifact_policy") (
                          field "approval_ref" (get arguments "approval_ref") (
                            field "model" (get arguments "model") (
                              field "provider" (get arguments "provider")
                                (field "worktree" (get arguments "worktree") end))))))))))))))

  -- the session that `create` of session_state.py makes
  abbrev pub new_session : Fields p.Float → World p.Float → Session p.Float
  new_session arguments w = record {
    session_id = w.session_id;
    created = field "task_id" (get arguments "task_id") (
        field "run_id" (str w.run_id) (
          field "issue_id" (get arguments "issue_ref") (
            field "worker_role" (get arguments "worker_role")
              (field "runtime" (get arguments "engine_id") end))));
    events = [];
  }

  abbrev pub worktree_of : Value p.Float → Value p.Float
  worktree_of v = if truthy p v then v else null

  -- the invocation that the worker makes
  abbrev pub first_call : Fields p.Float → Call p.Float
  first_call arguments = record {
    engine_id = get arguments "engine_id";
    profile = get arguments "profile";
    prompt = get arguments "prompt";
    timeout_seconds = as_int (get arguments "max_runtime_seconds");
    model = get arguments "model";
    provider = get arguments "provider";
    cwd = worktree_of (get arguments "worktree");
    session_id = null;
  }

  abbrev pub answer : Option (Envelope p.Float) → Outcome p.Float
  answer none = refused raised
  answer (some e) = done e

  -- the envelope of a run that is running
  abbrev running_envelope : Fields p.Float → World p.Float → Outcome p.Float
  running_envelope arguments w = answer (
      envelope p floats
        (record {
          issue_ref = get arguments "issue_ref";
          run_id = str w.run_id;
          session_id = null;
          runtime = runtime_of (get arguments "engine_id");
          profile = get arguments "profile";
          worker_role = get arguments "worker_role";
          started_at = str w.started_at;
          model = get arguments "model";
          finished_at = null;
        })
        (field "status" (str "running") end))

  -- the writes of `create_run`, one after another, then the start of the worker
  unfoldable pub start_run :
      Fields p.Float
      → Fields p.Float
      → World p.Float
      → Service p.Float
      → Outcome p.Float × Service p.Float
  unfolding run_created envelope
  start_run arguments binding w svc =
      if not w.session_written
      then (refused session_error, svc)
      else let opened = record svc { sessions = new_session arguments w ∷ svc.sessions } in
        let payload = run_created arguments binding w in
        if not w.created_written
        then (refused session_error, opened)
        else let recorded = put_event w.session_id "run.created" payload opened in
          if not w.running_written
          then (refused session_error, recorded)
          else let running =
              put_event w.session_id "run.running"
                (field "run_id" (str w.run_id) (field "started_at" (str w.started_at) end))
                recorded in
            (
              running_envelope arguments w,
              record running {
                workers =
                    record { session_id = w.session_id; run_created = payload } ∷ running.workers;
                calls = first_call arguments ∷ running.calls;
              },
            )

  abbrev pub guarded :
      Option Refusal
      → Outcome p.Float × Service p.Float
      → Service p.Float
      → Outcome p.Float × Service p.Float
  guarded none next svc = next
  guarded (some r) next svc = (refused r, svc)

  -- `create_run`
  unfoldable pub create_run :
      Fields p.Float
      → Fields p.Float
      → World p.Float
      → Service p.Float
      → Outcome p.Float × Service p.Float
  unfolding create_guard start_run
  create_run arguments binding w svc =
      guarded (create_guard arguments binding w svc) (start_run arguments binding w svc) svc
