-- ===== src/Lifecycle/Review.antt =====
-- submit_for_review of agent-platform/cortxt_mcp/run_lifecycle.py.
use cortxt.Prelude.{String, ◌||◌, not, Option, none, some, is_some, if◌then◌else◌}
use cortxt.Value.{Fields, str, obj, end, field, get, has}
use cortxt.Platform.{Platform}
use cortxt.Lifecycle.Schema.{Floats, run_submit_for_review, validate_schema}
use cortxt.Lifecycle.Runs.{
  Session, is_text, find_run, find_review_submission, Identity, run_identity,
}
use cortxt.Lifecycle.Envelope.{result_status, review_envelope}
use cortxt.Lifecycle.Turns.{Service, put_event}
use cortxt.Lifecycle.Service.{
  Refusal, lifecycle, invalid_arguments, session_error, raised, run_not_found, issue_ref_mismatch,
  result_correlation_mismatch, idempotency_conflict, Outcome, done, refused, World, ◌orelse◌,
  refuse_if, text_at, guarded,
}
use cortxt.Lifecycle.Resume.{arguments_guard}

module _ (p : Platform) (floats : Floats p.Float) where
  -- the checks of `submit_for_review` on the run that it found; the schema makes the result a
  -- dictionary
  unfoldable pub submit_guard : Fields p.Float → Identity p.Float → Fields p.Float → Option Refusal
  unfolding result_status
  submit_guard arguments identity result =
      refuse_if (not (is_text identity.issue_ref (text_at p floats arguments "issue_ref")))
        (lifecycle issue_ref_mismatch)
      orelse refuse_if (not (is_some (result_status result))) invalid_arguments
      orelse refuse_if
          (not (is_text (get result "issue_id") (text_at p floats arguments "issue_ref"))
            || not (is_text (get result "run_id") (text_at p floats arguments "run_id")))
          (lifecycle result_correlation_mismatch)

  -- `_payload_hash`: `none` is ValueError
  unfoldable pub payload_digest : Fields p.Float → Option String
  payload_digest result = elim (p.canonical result) [
    | none ↦ none
    | some text ↦ some (p.sha256 text)
  ]

  -- the payload of `run.review_submitted`
  unfoldable pub submission :
      Fields p.Float → Fields p.Float → String → World p.Float → Fields p.Float
  submission arguments result digest w = field "review_submission_id" (str w.submission_id) (
      field "review_kind" (get arguments "review_kind") (
        field "idempotency_key" (get arguments "idempotency_key") (
          field "result_status" (get result "status")
            (field "submitted_at" (str w.started_at) (field "payload_hash" (str digest) end)))))

  -- a submission with the key that is there; a key that its payload has not is KeyError
  abbrev pub replay :
      Identity p.Float → Fields p.Float → Option String → World p.Float → Outcome p.Float
  replay identity prior none w = refused raised
  replay identity prior (some digest) w =
      if not (has prior "payload_hash")
      then refused raised
      else if not (is_text (get prior "payload_hash") digest)
      then refused (lifecycle idempotency_conflict)
      else if not (has prior "review_submission_id") || not (has prior "submitted_at")
      then refused raised
      else done (
          review_envelope p floats identity (get prior "review_submission_id")
            (get prior "submitted_at") w.now)

  -- the new submission, unless it cannot be written
  abbrev pub record_submission :
      Fields p.Float
      → Session p.Float
      → Identity p.Float
      → Fields p.Float
      → Option String
      → World p.Float
      → Service p.Float
      → Outcome p.Float × Service p.Float
  record_submission arguments s identity result none w svc = (refused raised, svc)
  record_submission arguments s identity result (some digest) w svc =
      if w.event_written
      then (
        done (review_envelope p floats identity (str w.submission_id) (str w.started_at) w.now),
        put_event s.session_id "run.review_submitted" (submission arguments result digest w) svc,
      )
      else (refused session_error, svc)

  -- the part of `submit_for_review` after its checks
  unfoldable pub submit_checked :
      Fields p.Float
      → Session p.Float
      → Identity p.Float
      → Fields p.Float
      → Option (Fields p.Float)
      → World p.Float
      → Service p.Float
      → Outcome p.Float × Service p.Float
  unfolding payload_digest submission review_envelope has
  submit_checked arguments s identity result (some prior) w svc =
      (replay identity prior (payload_digest result) w, svc)
  submit_checked arguments s identity result none w svc =
      record_submission arguments s identity result (payload_digest result) w svc

  abbrev pub dict_at : Fields p.Float → String → Fields p.Float
  dict_at d key = elim (get d key) [ obj e ↦ e | _ ↦ end ]

  unfoldable pub submit_found :
      Fields p.Float
      → World p.Float
      → Service p.Float
      → Option (Session p.Float)
      → Outcome p.Float × Service p.Float
  unfolding run_identity submit_guard submit_checked find_review_submission
  submit_found arguments w svc none = (refused (lifecycle run_not_found), svc)
  submit_found arguments w svc (some s) =
      let identity = run_identity p s in
      let result = dict_at arguments "result" in
      guarded p floats (submit_guard arguments identity result)
        (submit_checked arguments s identity result
          (find_review_submission (text_at p floats arguments "idempotency_key") s.events) w svc)
        svc

  -- `submit_for_review`
  unfoldable pub submit_for_review :
      Fields p.Float
      → Fields p.Float
      → World p.Float
      → Service p.Float
      → Outcome p.Float × Service p.Float
  unfolding validate_schema arguments_guard find_run submit_found
  submit_for_review arguments binding w svc =
      guarded p floats
        (arguments_guard p floats (validate_schema p floats run_submit_for_review arguments)
          arguments binding)
        (submit_found arguments w svc (find_run svc.sessions (text_at p floats arguments "run_id")))
        svc
