-- ===== src/Lifecycle/History.antt =====
-- Histories of calls of agent-platform/cortxt_mcp/run_lifecycle.py.
pub mod Growth
pub mod Named
pub mod Submission
pub mod Stored
pub mod Idempotency
pub mod Claims
pub mod Release
pub mod Finish
use cortxt.Prelude.{
  ℕ, zero, suc, String, Bool, true, false, ◌≡◌, refl, Option, none, some, List, [], ◌∷◌, ◌==◌, All,
  arith, Option-cases, inl, inr, not, if◌then◌else◌,
}
use cortxt.Value.{Value, Fields, obj, end, get}
use cortxt.Platform.{Platform}
use cortxt.Lifecycle.Schema.{Floats, run_create, run_resume, run_submit_for_review, validate_schema}
use cortxt.Lifecycle.Runs.{
  Event, Session, find_run, active_run_for_issue, Identity, run_identity, find_review_submission,
}
use cortxt.Lifecycle.Envelope.{safe_cost}
use cortxt.Lifecycle.Turns.{
  Call, Invocation, returned, failed, Worker, Service, with_event, append_event, put_event, Failure,
  as_returned, as_failed, turn_payload, append_engine_turn, write_turn,
}
use cortxt.Lifecycle.Service.{
  World, Refusal, Outcome, text_at, new_session, guarded, create_guard, start_run, create_run,
}
use cortxt.Lifecycle.Resume.{
  keep_or, recorded_or, after_turn, worker_turn, resume_call, resume_guard, resume_turn,
  resume_found, resume_run,
}
use cortxt.Lifecycle.Review.{
  dict_at, submit_guard, payload_digest, record_submission, submit_checked, submit_found,
  submit_for_review,
}

pub data Step (F : Type 0) : Type 0 where
  creating : Fields F → Fields F → World F → Step F
  working : ℕ → World F → Bool → Step F
  resuming : Fields F → Fields F → World F → Step F
  submitting : Fields F → Fields F → World F → Step F

-- One of the workers, and the others.
abbrev take_worker : {F : Type 0} → ℕ → List (Worker F) → Option (Worker F × List (Worker F))
take_worker n [] = none
take_worker zero (worker ∷ workers) = some (worker, workers)
take_worker (suc n) (worker ∷ workers) = elim (take_worker n workers) [
  | none ↦ none
  | some found ↦ some (found.0, worker ∷ found.1)
]

module _ (p : Platform) (floats : Floats p.Float) where
  abbrev work :
      Option (Worker p.Float × List (Worker p.Float))
      → World p.Float
      → Bool
      → Service p.Float
      → Service p.Float
  work none w second_written svc = svc
  work (some found) w second_written svc =
      worker_turn p floats found.0 w second_written w.invocation (record svc { workers = found.1 })

  unfoldable pub step : Step p.Float → Service p.Float → Service p.Float
  unfolding create_run worker_turn resume_run submit_for_review
  step (creating arguments binding w) svc = (create_run p floats arguments binding w svc).1
  step (working n w second_written) svc = work (take_worker n svc.workers) w second_written svc
  step (resuming arguments binding w) svc = (resume_run p floats arguments binding w svc).1
  step (submitting arguments binding w) svc = (submit_for_review p floats arguments binding w svc).1

  unfoldable pub run : List (Step p.Float) → Service p.Float → Service p.Float
  run [] svc = svc
  run (s ∷ steps) svc = run steps (step s svc)
