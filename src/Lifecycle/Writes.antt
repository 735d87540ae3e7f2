-- ===== src/Lifecycle/Writes.antt =====
-- What a call of agent-platform/cortxt_mcp/run_lifecycle.py may write. `Fits` is what is assumed of the
-- results that the engines return.
pub mod Creation
use cortxt.Prelude.{
  ℕ, zero, suc, String, Bool, true, false, ◌≡◌, refl, Option, none, some, List, [], ◌∷◌, ◌==◌, All,
  arith, Option-cases, inl, inr, not, if◌then◌else◌,
}
use cortxt.Value.{Value, Fields, obj, end, get}
use cortxt.Platform.{Platform}
use cortxt.Lifecycle.Schema.{
  Floats, run_create, run_resume, run_submit_for_review, validate_schema, matches_issue_ref,
}
use cortxt.Lifecycle.Runs.{
  Event, Session, find_run, active_run_for_issue, Identity, run_identity, find_review_submission,
}
use cortxt.Lifecycle.Envelope.{safe_cost}
use cortxt.Lifecycle.Turns.{
  Call, Invocation, returned, failed, Worker, Service, with_event, append_event, put_event, Failure,
  as_returned, as_failed, turn_payload, append_engine_turn, write_turn,
}
use cortxt.Lifecycle.Service.{
  orelse_none, World, Refusal, lifecycle, invalid_arguments, engine_not_registered, Outcome,
  ◌orelse◌, refuse_if, check_binding, scope_fingerprint, claim_refusal, text_at, new_session,
  guarded, create_guard, start_run, create_run,
}
use cortxt.Lifecycle.Resume.{
  keep_or, recorded_or, after_turn, worker_turn, resume_call, resume_guard, resume_turn,
  resume_found, resume_run,
}
use cortxt.Lifecycle.Review.{
  dict_at, submit_guard, payload_digest, record_submission, submit_checked, submit_found,
  submit_for_review,
}

module _ (p : Platform) (floats : Floats p.Float) where
  module _ (Fits : Fields p.Float → Type 0) where
    abbrev pub Recordable : Failure → Fields p.Float → Type 0
    Recordable as_returned result = Fits result
    Recordable (as_failed message) result = Unit

    abbrev pub Returns : Invocation p.Float → Type 0
    Returns (returned (obj result)) = Fits result
    Returns invocation = Unit

    -- What a turn or a submission may do to the sessions.
    pub data Written (sessions : List (Session p.Float)) : List (Session p.Float) → Type 0 where
      unchanged : Written sessions sessions
      turned :
          (id : String) (run_created result : Fields p.Float) (why : Failure) (cost : p.Float)
          (now : String)
          → Recordable why result
          → Written sessions (
              append_event id
                (record {
                  event_type = "run.engine_turn";
                  payload = turn_payload p floats run_created result why cost now;
                })
                sessions)
      submitted :
          (id : String) (payload : Fields p.Float)
          → Written sessions (
              append_event id
                (record { event_type = "run.review_submitted"; payload = payload })
                sessions)

    -- The sessions of a service that may not be there.
    abbrev WrittenIf : Service p.Float → Option (Service p.Float) → Type 0
    WrittenIf svc none = Unit
    WrittenIf svc (some svc') = Written svc.sessions svc'.sessions

    append_engine_turn-WrittenIf :
        (id : String) (run_created result : Fields p.Float) (why : Failure) (now : String)
        (b : Bool) (svc : Service p.Float)
        → Recordable why result
        → WrittenIf svc (append_engine_turn p floats id run_created result why now b svc)
    unfolding append_engine_turn
    append_engine_turn-WrittenIf id run_created result why now b svc fits =
        write b (safe_cost p floats (get result "cost"))
      where
        write :
            (b : Bool) (cost : Option p.Float)
            → WrittenIf svc (write_turn p floats id run_created result why now b svc cost)
        write b none = tt
        write false (some cost) = tt
        write true (some cost) = turned id run_created result why cost now fits

    keep_or-Written :
        (o : Option (Service p.Float)) (svc : Service p.Float)
        → WrittenIf svc o
        → Written svc.sessions (keep_or p floats o svc).sessions
    keep_or-Written none svc h = unchanged
    keep_or-Written (some svc') svc h = h

    recorded_or-Written :
        (o second : Option (Service p.Float)) (svc : Service p.Float)
        → WrittenIf svc o
        → WrittenIf svc second
        → Written svc.sessions (recorded_or p floats o second svc).sessions
    recorded_or-Written none second svc h h' = keep_or-Written second svc h'
    recorded_or-Written (some svc') second svc h h' = h

    pub worker_turn-Written :
        (worker : Worker p.Float) (w : World p.Float) (b : Bool) (i : Invocation p.Float)
        (svc : Service p.Float)
        → Returns i
        → Written svc.sessions (worker_turn p floats worker w b i svc).sessions
    unfolding worker_turn
    worker_turn-Written worker w b (failed message) svc fits =
        keep_or-Written _ svc (append_engine_turn-WrittenIf _ _ _ (as_failed message) _ _ svc tt)
    worker_turn-Written worker w b (returned (obj result)) svc fits =
        recorded_or-Written _ _ svc
          (append_engine_turn-WrittenIf _ _ result as_returned _ _ svc fits)
          (append_engine_turn-WrittenIf _ _ _ (as_failed w.error_text) _ _ svc tt)
    worker_turn-Written worker w b (returned v) svc fits =
        keep_or-Written _ svc (append_engine_turn-WrittenIf _ _ _ (as_failed _) _ _ svc tt)

    after_turn-Written :
        (o : Option (Service p.Float)) (outcome : Outcome p.Float) (result : Fields p.Float)
        (svc : Service p.Float)
        → WrittenIf svc o
        → Written svc.sessions (after_turn p floats o outcome result svc).1.sessions
    after_turn-Written none outcome result svc h = unchanged
    after_turn-Written (some svc') outcome result svc h = h

    guarded-Written :
        (o : Option Refusal) (next : Outcome p.Float × Service p.Float) (svc : Service p.Float)
        → Written svc.sessions next.1.sessions
        → Written svc.sessions (guarded p floats o next svc).1.sessions
    guarded-Written none next svc h = h
    guarded-Written (some r) next svc h = unchanged

    resume_turn-Written :
        (arguments : Fields p.Float) (s : Session p.Float) (identity : Identity p.Float)
        (w : World p.Float) (i : Invocation p.Float) (svc : Service p.Float)
        → Returns i
        → Written svc.sessions (resume_turn p floats arguments s identity w i svc).1.sessions
    unfolding resume_turn
    resume_turn-Written arguments s identity w (failed message) svc fits =
        after_turn-Written _ _ _ svc
          (append_engine_turn-WrittenIf _ _ _ (as_failed message) _ _ svc tt)
    resume_turn-Written arguments s identity w (returned (obj result)) svc fits =
        after_turn-Written _ _ _ svc
          (append_engine_turn-WrittenIf _ _ result as_returned _ _ svc fits)
    resume_turn-Written arguments s identity w (returned v) svc fits =
        after_turn-Written _ _ _ svc (append_engine_turn-WrittenIf _ _ _ (as_failed _) _ _ svc tt)

    resume_found-Written :
        (arguments : Fields p.Float) (w : World p.Float) (svc : Service p.Float)
        (found : Option (Session p.Float))
        → Returns w.invocation
        → Written svc.sessions (resume_found p floats arguments w svc found).1.sessions
    unfolding resume_found
    resume_found-Written arguments w svc none fits = unchanged
    resume_found-Written arguments w svc (some s) fits =
        let identity = run_identity p s in
        let called = record svc { calls = resume_call p floats arguments identity ∷ svc.calls } in
        guarded-Written (resume_guard p floats arguments identity w)
          (resume_turn p floats arguments s identity w w.invocation called) svc
          (resume_turn-Written arguments s identity w w.invocation called fits)

    pub resume_run-Written :
        (arguments binding : Fields p.Float) (w : World p.Float) (svc : Service p.Float)
        → Returns w.invocation
        → Written svc.sessions (resume_run p floats arguments binding w svc).1.sessions
    unfolding resume_run
    resume_run-Written arguments binding w svc fits =
        guarded-Written _ _ svc (resume_found-Written arguments w svc _ fits)

    submit_checked-Written :
        (arguments : Fields p.Float) (s : Session p.Float) (identity : Identity p.Float)
        (result : Fields p.Float) (prior : Option (Fields p.Float)) (w : World p.Float)
        (svc : Service p.Float)
        → Written svc.sessions
            (submit_checked p floats arguments s identity result prior w svc).1.sessions
    unfolding submit_checked
    submit_checked-Written arguments s identity result (some prior) w svc = unchanged
    submit_checked-Written arguments s identity result none w svc =
        write (payload_digest p floats result) w.event_written
      where
        write :
            (digest : Option String) (b : Bool)
            → Written svc.sessions
                (record_submission p floats arguments s identity result digest
                  (record w { event_written = b })
                  svc).1.sessions
        write none b = unchanged
        write (some digest) false = unchanged
        write (some digest) true = submitted s.session_id _

    submit_found-Written :
        (arguments : Fields p.Float) (w : World p.Float) (svc : Service p.Float)
        (found : Option (Session p.Float))
        → Written svc.sessions (submit_found p floats arguments w svc found).1.sessions
    unfolding submit_found
    submit_found-Written arguments w svc none = unchanged
    submit_found-Written arguments w svc (some s) =
        let identity = run_identity p s in
        let result = dict_at p floats arguments "result" in
        let prior =
          find_review_submission (text_at p floats arguments "idempotency_key") s.events in
        guarded-Written (submit_guard p floats arguments identity result)
          (submit_checked p floats arguments s identity result prior w svc) svc
          (submit_checked-Written arguments s identity result prior w svc)

    pub submit_for_review-Written :
        (arguments binding : Fields p.Float) (w : World p.Float) (svc : Service p.Float)
        → Written svc.sessions (submit_for_review p floats arguments binding w svc).1.sessions
    unfolding submit_for_review
    submit_for_review-Written arguments binding w svc =
        guarded-Written _ _ svc (submit_found-Written arguments w svc _)
