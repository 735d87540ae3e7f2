-- ===== src/Lifecycle/Samples.antt =====
-- Sample data for the tests of the run lifecycle: arguments, bindings, a run and what happens outside.
use cortxt.Prelude.{ℕ, pos, String, true, [], ◌∷◌}
use cortxt.Value.{float, Fields, int, str, arr, obj, nil, cons, end, field}
use cortxt.Lifecycle.Schema.{Floats}
use cortxt.Lifecycle.Runs.{Session}
use cortxt.Lifecycle.Turns.{Invocation, returned, Service}
use cortxt.Lifecycle.Service.{World}

abbrev pub floats : Floats ℕ
floats = record { is_integer = λ x. true; is_finite = λ x. true }

abbrev pub run_id : String
run_id = "20260101T000000Z_0123abcd"

abbrev pub to_create : Fields ℕ
to_create = field "issue_ref" (str "o/r#1") (
    field "task_id" (str "t1") (
      field "workflow" (str "feature") (
        field "worker_role" (str "builder") (
          field "scope" (str "src") (
            field "acceptance_criteria" (arr (cons (str "builds") nil)) (
              field "engine_id" (str "hermes") (
                field "profile" (str "builder") (
                  field "max_runtime_seconds" (int (pos 60)) (
                    field "max_cost_usd" (int (pos 1)) (
                      field "max_parallel_workers" (int (pos 1)) (
                        field "delegation_depth" (int (pos 0)) (
                          field "artifact_policy" (obj end) (
                            field "approval_ref" (str "a1") (
                              field "data_class" (str "L1") (
                                field "estimated_cost_usd" (int (pos 1))
                                  (field "prompt" (str "go") end))))))))))))))))

abbrev pub binding : Fields ℕ
binding = field "issue_ref" (str "o/r#1") (field "scope_fingerprint" (str "src") end)

abbrev pub to_submit : Fields ℕ
to_submit = field "run_id" (str run_id) (
    field "issue_ref" (str "o/r#1") (
      field "result"
        (obj (
          field "status" (str "succeeded")
            (field "issue_id" (str "o/r#1") (field "run_id" (str run_id) end))))
        (field "review_kind" (str "independent")
          (field "idempotency_key" (str "k1") (field "data_class" (str "L1") end)))))

abbrev pub to_resume : Fields ℕ
to_resume = field "run_id" (str run_id) (
    field "issue_ref" (str "o/r#1") (
      field "prompt" (str "again") (
        field "max_runtime_seconds" (int (pos 60))
          (field "data_class" (str "L1") (field "estimated_cost_usd" (int (pos 1)) end)))))

-- the engine's answer
abbrev pub turned_out : String → Invocation ℕ
turned_out status = returned (obj (field "status" (str status) (field "session_id" (str "e1") end)))

abbrev pub world : String → String → World ℕ
world run_id status = record {
  run_id = run_id;
  session_id = run_id;
  submission_id = "rs-1";
  started_at = "noon";
  now = "later";
  has_provider = λ engine_id. true;
  session_written = true;
  created_written = true;
  running_written = true;
  event_written = true;
  invocation = turned_out status;
  error_text = "error";
}

-- a run whose engine was blocked
abbrev pub blocked_run : Session ℕ
blocked_run = record {
  session_id = run_id;
  created = field "run_id" (str run_id) (field "issue_id" (str "o/r#1") end);
  events =
      record {
        event_type = "run.engine_turn";
        payload = field "status" (str "blocked") (
            field "engine_id" (str "hermes")
              (field "profile" (str "builder") (field "session_id" (str "e1") end)));
      }
      ∷ record { event_type = "run.running"; payload = end }
      ∷ [];
}

abbrev pub with_run : Service ℕ
with_run = record { sessions = blocked_run ∷ []; workers = []; calls = [] }

abbrev pub without_runs : Service ℕ
without_runs = record { sessions = []; workers = []; calls = [] }

-- a mandate for the creation, and the verifier's keys and times
abbrev pub mandate : Fields ℕ
mandate = field "schema_version" (int (pos 2)) (
    field "mandate_id" (str "m1") (
      field "granted_by" (str "ops") (
        field "kid" (str "k1") (
          field "issue_ref" (str "o/r#1") (
            field "allowed_tools" (arr (cons (str "cortxt_run_create") nil)) (
              field "data_class_max" (str "L2") (
                field "budget_usd_max" (float 10) (
                  field "max_runtime_seconds" (int (pos 60)) (
                    field "expires_at" (str "noonZ") (
                      field "nonce" (str "n1") (
                        field "scope_fingerprint" (str "src")
                          (field "signature" (str "good") end))))))))))))
