-- ===== src/Lifecycle/Examples.antt =====
-- Concrete histories of the run lifecycle.
use cortxt.Prelude.{
  ℕ, suc, ◌≤◌, String, true, false, ◌≡◌, refl, ◌⊎◌, inl, inr, none, some, List, [], ◌∷◌, ◌==◌,
  Bool-cases, arith,
}
use cortxt.Value.{
  Value, str, null, obj, end, arr, nil, get, has, has_all, keys_within, lookup, same_keys,
}
use cortxt.Mandate.Samples.{whole, run_call}
use cortxt.Mandate.Check.{Services}
use cortxt.Mandate.Timestamp.{parse_utc}
use cortxt.Mandate.Verify.{
  verify_mandate, verify_fields, authenticate, identify, consume_nonce, authorize, check_scope,
  debit_budget,
}
use cortxt.Mandate.Verify as Verify
use cortxt.Mandate.Envelope.{
  schema_hashable, schema_known, known_issuer, known_kid, signature_valid, tool_allowed,
  data_class_order, max_rank, max_runtime, runtime_within, cap_overflows, budget_cap, issue_matches,
  fingerprint_matches,
}
use cortxt.Lifecycle.Context.{build_call_context}
use cortxt.Lifecycle.Gate.{Response, answered, call_tool}
use cortxt.Lifecycle.Gate.Granted.{IsBound, call_tool-IsBound}
use cortxt.Lifecycle.Schema.{
  plain, string, tool_schema, run_create, property_of, valid_value, valid_values, validate_schema,
  matches_issue_ref, matches_run_id,
}
use cortxt.Lifecycle.Schema.Types.{IsTyped, validate_schema-IsTyped}
use cortxt.Lifecycle.Runs.{
  Session, find_run, find_review_submission, last_run_status, last_engine_turn, first_of,
  holds_claim, active_run_for_issue, run_identity,
}
use cortxt.Lifecycle.Envelope.{
  Envelope, result_status, shown_status, safe_cost, envelope, envelope_of, review_envelope,
}
use cortxt.Lifecycle.Turns.{Call, Service, Worker, append_event}
use cortxt.Lifecycle.Service.{done, check_binding, create_guard, start_run, create_run}
use cortxt.Lifecycle.Resume.{worker_turn, resumable, arguments_guard, resume_run}
use cortxt.Lifecycle.Resume.Calls.{resumable_lem, IsResumed, resume_run-calls}
use cortxt.Lifecycle.Resume.Status.{IsNamed}
use cortxt.Lifecycle.Resume.Engine.{IsCallOf}
use cortxt.Lifecycle.Review.{
  submit_guard, payload_digest, submission, submit_checked, submit_found, submit_for_review,
  dict_at,
}
use cortxt.Lifecycle.History.{Step, creating, working, resuming, run}
use cortxt.Lifecycle.History.Growth.{Grown, run-Grown}
use cortxt.Lifecycle.History.Claims.{claims}
use cortxt.Lifecycle.History.Release.{AllSound, IsExclusive, run-IsExclusive}
use cortxt.Lifecycle.History.Idempotency.{submit_for_review-again, submit_for_review-one_result}
use cortxt.Lifecycle.History.Finish.{worker_turn-released}
use cortxt.Lifecycle.Samples.{
  mandate, floats, run_id, to_create, binding, to_submit, to_resume, turned_out, world, blocked_run,
  with_run, without_runs,
}

create_valid : validate_schema whole floats run_create to_create ≡ true
unfolding validate_schema valid_values valid_value property_of keys_within has_all has lookup
create_valid = refl

profile_known : property_of "profile" (tool_schema run_create).properties ≡ some (plain string)
unfolding property_of
profile_known = refl

validate_schema-IsTyped_example :
    (v : Value ℕ) × (lookup "profile" to_create ≡ some v) × IsTyped whole floats (plain string) v
validate_schema-IsTyped_example =
    validate_schema-IsTyped whole floats run_create to_create "profile" (plain string) create_valid
      profile_known refl

-- another run of another id, then its worker's turn, and a resumption
abbrev other : String
other = "20260102T000000Z_0123abcd"

abbrev steps : List (Step ℕ)
steps =
    creating to_create binding (world other "failed")
    ∷ working 0 (world other "failed") true
    ∷ resuming to_resume binding (world other "failed")
    ∷ []

run-Grown_example : Grown with_run.sessions (run whole floats steps with_run).sessions
run-Grown_example = run-Grown whole floats steps with_run

sound : AllSound whole floats steps with_run
unfolding lookup
sound = (refl, (refl, (refl, tt)))

one_run : IsExclusive with_run.sessions
unfolding claims holds_claim last_run_status has get lookup
one_run issue = elim (Bool-cases ("o/r#1" == issue)) [
  | inl same ↦ rw same (omega arith)
  | inr differs ↦ rw differs (omega arith)
]

run-IsExclusive_example : claims "o/r#1" (run whole floats steps with_run).sessions ≤ 1
run-IsExclusive_example = run-IsExclusive whole floats steps with_run sound one_run "o/r#1"

-- the envelope of a submission with the fresh id "rs-1"
abbrev submission_envelope : Envelope ℕ
submission_envelope =
    review_envelope whole floats (run_identity whole blocked_run) (str "rs-1") (str "noon") "later"

submitted_once :
    (submit_for_review whole floats to_submit binding (world "r" "failed") with_run).0
    ≡ done submission_envelope
unfolding submit_for_review validate_schema valid_values valid_value property_of keys_within has_all
    has lookup get arguments_guard matches_issue_ref matches_run_id check_binding find_run
    submit_found run_identity submit_guard result_status submit_checked find_review_submission
    payload_digest
submitted_once = refl

-- the sessions after that, and after the steps
abbrev later : Service ℕ
later =
    run whole floats steps
      (submit_for_review whole floats to_submit binding (world "r" "failed") with_run).1

submit_for_review-again_example :
    (e : Envelope ℕ) × (submit_for_review whole floats to_submit binding (world "s" "failed") later
      ≡ (done e, later))
    × (e.review ≡ submission_envelope.review)
unfolding get
submit_for_review-again_example =
    submit_for_review-again whole floats to_submit binding (world "r" "failed") (world "s" "failed")
      with_run steps submission_envelope submitted_once (refl, (tt, (tt, tt)))

submitted_twice :
    (submit_for_review whole floats to_submit binding
      (world "s" "failed")
      (submit_for_review whole floats to_submit binding (world "r" "failed") with_run).1).0
    ≡ done submission_envelope
unfolding submit_for_review validate_schema valid_values valid_value property_of keys_within has_all
    has lookup get arguments_guard matches_issue_ref matches_run_id check_binding find_run
    submit_found run_identity submit_guard result_status submit_checked find_review_submission
    payload_digest append_event submission last_run_status last_engine_turn first_of review_envelope
submitted_twice = refl

submit_for_review-one_result_example :
    (payload_digest whole floats (dict_at whole floats to_submit "result")
      ≡ payload_digest whole floats (dict_at whole floats to_submit "result"))
    × (submission_envelope.review ≡ submission_envelope.review)
unfolding run submit_for_review
submit_for_review-one_result_example =
    submit_for_review-one_result whole floats to_submit binding to_submit binding
      (world "r" "failed") (world "s" "failed") with_run [] submission_envelope submission_envelope
      submitted_once tt refl refl submitted_twice

resumable_lem_example : resumable whole floats (str "review_submitted") ≡ some true
resumable_lem_example = resumable_lem whole floats "review_submitted"

resume_run-calls_example :
    ((resume_run whole floats to_resume binding (world other "failed") with_run).1.calls ≡ [])
    ⊎ ((s : Session ℕ) × (find_run with_run.sessions run_id ≡ some s)
        × IsNamed with_run.sessions run_id s
        × IsResumed whole floats to_resume s
        × (call : Call ℕ) × ((resume_run whole floats to_resume binding
              (world other "failed")
              with_run).1.calls
            ≡ call ∷ [])
        × IsCallOf whole floats to_resume s call)
unfolding get lookup
resume_run-calls_example =
    resume_run-calls whole floats to_resume binding (world other "failed") with_run

abbrev created_envelope : Envelope ℕ
created_envelope = record {
  issue_id = str "o/r#1";
  run_id = str run_id;
  status = "running";
  runtime = str "hermes/v0.1";
  worker_role = str "builder";
  started_at = str "noon";
  finished_at = null;
  model = null;
  usage = obj end;
  cost = 0;
  cost_currency = "USD";
  cost_status = str "unknown";
  artifacts = [];
  evidence = arr nil;
  error = null;
  session_id = null;
  review = none;
}

created :
    (create_run whole floats to_create binding (world run_id "failed") without_runs).0
    ≡ done created_envelope
unfolding create_run create_guard validate_schema valid_values valid_value property_of keys_within
    has_all has lookup get matches_issue_ref check_binding active_run_for_issue start_run envelope
    safe_cost envelope_of shown_status
created = refl

worker_turn-released_example :
    (worker : Worker ℕ) × ((create_run whole floats to_create binding
        (world run_id "failed")
        without_runs).1.workers
      ≡ worker ∷ [])
    × (s : Session ℕ) × (find_run
          (worker_turn whole floats worker (world other "failed") true (turned_out "succeeded") (
            run whole floats
              (working 0 (world other "failed") true ∷ [])
              (create_run whole floats to_create binding
                (world run_id "failed")
                without_runs).1)).sessions
          run_id
        ≡ some s)
    × (holds_claim s ≡ some false)
unfolding lookup
worker_turn-released_example =
    worker_turn-released whole floats to_create binding (world run_id "failed")
      (world other "failed") without_runs created_envelope
      (working 0 (world other "failed") true ∷ []) (turned_out "succeeded") created (tt, tt) refl

-- stores that clear every key and every nonce, and count the debits
abbrev services : Services ℕ ℕ
services = record {
  is_revoked = λ granted_by kid now s. (some false, s);
  check_and_consume = λ nonce s. (some true, s);
  record_and_check = λ mandate_id cost cap s. (some true, suc s);
}

-- a creation under a mandate
abbrev called : Response ℕ × Service ℕ × ℕ
called =
    call_tool whole floats services run_create true to_create (obj mandate) run_call
      (world run_id "failed") without_runs 0

call_tool-IsBound_example :
    (called.1 ≡ without_runs)
    ⊎ ((true ≡ true)
        × IsBound whole floats services run_create to_create
            (obj mandate)
            run_call
            without_runs
            0
            called.2)
call_tool-IsBound_example =
    call_tool-IsBound whole floats services run_create true to_create (obj mandate) run_call
      (world run_id "failed") without_runs 0

called_lem : called.0 ≡ answered (done created_envelope)
unfolding call_tool build_call_context validate_schema valid_values valid_value property_of
    keys_within has_all has lookup get matches_issue_ref verify_mandate verify_fields authenticate
    identify consume_nonce authorize check_scope debit_budget Verify.check_binding schema_hashable
    schema_known known_issuer known_kid signature_valid tool_allowed data_class_order max_rank
    max_runtime runtime_within cap_overflows budget_cap issue_matches fingerprint_matches parse_utc
    same_keys create_run create_guard check_binding active_run_for_issue start_run envelope
    safe_cost envelope_of shown_status
called_lem = refl
