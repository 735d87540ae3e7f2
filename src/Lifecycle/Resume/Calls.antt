-- ===== src/Lifecycle/Resume/Calls.antt =====
-- Which runs resume_run of agent-platform/cortxt_mcp/run_lifecycle.py resumes, and with what invocation.
use cortxt.Prelude.{
  sym, ◌∙◌, String, Bool, true, false, ◌≡◌, refl, ◌⊎◌, inl, inr, ◌||◌, ◌&&◌, Option, none, some, [],
  ◌∷◌, ◌==◌, ==_true, contains, Bool-cases, arith, not,
}
use cortxt.Value.{Value, Fields, str, obj, get}
use cortxt.Platform.{Platform}
use cortxt.Lifecycle.Schema.{Floats, run_resume, validate_schema}
use cortxt.Lifecycle.Runs.{Session, is_text, last_run_status, find_run, Identity, run_identity}
use cortxt.Lifecycle.Envelope.{safe_cost}
use cortxt.Lifecycle.Turns.{
  Invocation, returned, failed, Service, Failure, as_returned, as_failed, write_turn,
  append_engine_turn, Call,
}
use cortxt.Lifecycle.Service.{
  Refusal, lifecycle, issue_ref_mismatch, session_id_unavailable, engine_not_registered, Outcome,
  World, ◌orelse◌, orelse_none, refuse_if, text_at, guarded,
}
use cortxt.Lifecycle.Resume.Status.{IsStatus, last_run_status-IsStatus, IsNamed, find_run-IsNamed}
use cortxt.Lifecycle.Resume.Engine.{IsCallOf, resume_call-IsCallOf}
use cortxt.Lifecycle.Resume.{
  after_turn, resumable, resume_refusal, is_null, arguments_guard, resume_guard, resume_call,
  resume_turn, resume_found, resume_run,
}

ended_lem :
    (r s b c : Bool)
    → ◌≡◌ {A = Option Bool}
        (some (not (r || (s || (false || (false || (b || (false || (c || false)))))) && true)))
        (some (not (r || (s || (b || (c || false))))))
ended_lem true s b c = refl
ended_lem false true b c = refl
ended_lem false false true c = refl
ended_lem false false false true = refl
ended_lem false false false false = refl

module _ (p : Platform) (floats : Floats p.Float) where
  -- A run may be resumed exactly where its status is none of running, succeeded, budget_exceeded and
  -- cancelled: also where it is review_submitted, or a text that is no status.
  pub resumable_lem :
      (status : String)
      → resumable p floats (str status)
        ≡ some
            (not (contains status ("running" ∷ "succeeded" ∷ "budget_exceeded" ∷ "cancelled" ∷ [])))
  unfolding resumable
  resumable_lem status = elim (Bool-cases (status == "failed")) [
    | inl e ↦ rw (==_true status "failed" e) refl
    | inr failed_not ↦ elim (Bool-cases (status == "timed_out")) [
      | inl e ↦ rw (==_true status "timed_out" e) refl
      | inr timed_out_not ↦ elim (Bool-cases (status == "blocked")) [
        | inl e ↦ rw (==_true status "blocked" e) refl
        | inr blocked_not ↦
            rw (failed_not, timed_out_not, blocked_not)
              (ended_lem (status == "running") (status == "succeeded") (status == "budget_exceeded")
                (status == "cancelled"))
      ]
    ]
  ]

  abbrev KeepsCalls : Service p.Float → Option (Service p.Float) → Type 0
  KeepsCalls svc none = Unit
  KeepsCalls svc (some svc') = svc'.calls ≡ svc.calls

  append_engine_turn-KeepsCalls :
      (id : String) (run_created result : Fields p.Float) (why : Failure) (now : String) (b : Bool)
      (svc : Service p.Float)
      → KeepsCalls svc (append_engine_turn p floats id run_created result why now b svc)
  unfolding append_engine_turn
  append_engine_turn-KeepsCalls id run_created result why now b svc =
      write b (safe_cost p floats (get result "cost"))
    where
      write :
          (b : Bool) (cost : Option p.Float)
          → KeepsCalls svc (write_turn p floats id run_created result why now b svc cost)
      write b none = tt
      write false (some cost) = tt
      write true (some cost) = refl

  after_turn-calls :
      (o : Option (Service p.Float)) (outcome : Outcome p.Float) (result : Fields p.Float)
      (svc : Service p.Float)
      → KeepsCalls svc o
      → (after_turn p floats o outcome result svc).1.calls ≡ svc.calls
  after_turn-calls none outcome result svc h = refl
  after_turn-calls (some svc') outcome result svc h = h

  resume_turn-calls :
      (arguments : Fields p.Float) (s : Session p.Float) (identity : Identity p.Float)
      (w : World p.Float) (i : Invocation p.Float) (svc : Service p.Float)
      → (resume_turn p floats arguments s identity w i svc).1.calls ≡ svc.calls
  unfolding resume_turn
  resume_turn-calls arguments s identity w (failed message) svc =
      after_turn-calls _ _ _ svc (append_engine_turn-KeepsCalls _ _ _ (as_failed message) _ _ svc)
  resume_turn-calls arguments s identity w (returned (obj result)) svc =
      after_turn-calls _ _ _ svc (append_engine_turn-KeepsCalls _ _ result as_returned _ _ svc)
  resume_turn-calls arguments s identity w (returned v) svc =
      after_turn-calls _ _ _ svc (append_engine_turn-KeepsCalls _ _ _ (as_failed _) _ _ svc)

  -- A status from which no run is resumed.
  abbrev pub ends_for_good : Value p.Float → Bool
  ends_for_good (str status) =
      contains status ("running" ∷ "succeeded" ∷ "budget_exceeded" ∷ "cancelled" ∷ [])
  ends_for_good v = false

  resumable-open : (v : Value p.Float) → resumable p floats v ≡ some true → ends_for_good v ≡ false
  resumable-open (str status) h = opened _ (sym (resumable_lem status) ∙ h)
    where
      opened : (b : Bool) → ◌≡◌ {A = Option Bool} (some (not b)) (some true) → b ≡ false
      opened true e = absurd (ground arith)
      opened false e = refl
  resumable-open v h = refl

  -- A run that was resumed.
  pub record IsResumed (arguments : Fields p.Float) (s : Session p.Float) : Type 0 where
    pub of_issue :
        is_text (get s.created "issue_id") (text_at p floats arguments "issue_ref") ≡ true
    pub again : resumable p floats (last_run_status s.events) ≡ some true
    pub is_status : IsStatus s.events (last_run_status s.events)
    pub open_status : ends_for_good (last_run_status s.events) ≡ false

  resume_guard-IsResumed :
      (arguments : Fields p.Float) (s : Session p.Float) (w : World p.Float)
      → resume_guard p floats arguments (run_identity p s) w ≡ none
      → IsResumed arguments s
  unfolding resume_guard run_identity
  resume_guard-IsResumed arguments s w h =
      let identity = run_identity p s in
      let provider : Option Refusal =
        refuse_if (not (w.has_provider identity.engine_id)) (lifecycle engine_not_registered) in
      let session : Option Refusal =
        refuse_if (is_null p floats identity.session_id && not (is_text identity.status "created"))
          (lifecycle session_id_unavailable) in
      let status = resume_refusal p floats (resumable p floats (last_run_status s.events)) in
      let issue_text = text_at p floats arguments "issue_ref" in
      let issue : Option Refusal =
        refuse_if (not (is_text (get s.created "issue_id") issue_text))
          (lifecycle issue_ref_mismatch) in
      let (issue_ok, h1) = orelse_none issue (status orelse session orelse provider) h in
      let (status_ok, h2) = orelse_none status (session orelse provider) h1 in
      let again = may_resume _ status_ok in
      record {
        of_issue = not_refused _ issue_ok;
        again = again;
        is_status = last_run_status-IsStatus s.events;
        open_status = resumable-open (last_run_status s.events) again;
      }
    where
      not_refused :
          (b : Bool)
          → ◌≡◌ {A = Option Refusal} (refuse_if (not b) (lifecycle issue_ref_mismatch)) none
          → b ≡ true
      not_refused true e = refl
      not_refused false e = absurd (ground arith)

      may_resume : (o : Option Bool) → resume_refusal p floats o ≡ none → o ≡ some true
      may_resume none e = absurd (ground arith)
      may_resume (some true) e = refl
      may_resume (some false) e = absurd (ground arith)

  -- A resumption invokes no engine, or one, once: where the run id names a run, which has that run id
  -- and is of the issue of the arguments, and whose status is not running, succeeded, budget_exceeded
  -- or cancelled. The engine and the profile that it invokes are those of the newest turn of that run,
  -- or else of its creation, or else hermes and builder, the engine session is that of the newest turn,
  -- and the directory that of the creation: none of them is the client's.
  pub resume_run-calls :
      (arguments binding : Fields p.Float) (w : World p.Float) (svc : Service p.Float)
      → ((resume_run p floats arguments binding w svc).1.calls ≡ svc.calls)
        ⊎ ((s : Session p.Float) × (find_run svc.sessions (text_at p floats arguments "run_id")
              ≡ some s)
            × IsNamed svc.sessions (text_at p floats arguments "run_id") s
            × IsResumed arguments s
            × (call : Call p.Float) × ((resume_run p floats arguments binding w svc).1.calls
                ≡ call ∷ svc.calls)
            × IsCallOf p floats arguments s call)
  unfolding resume_run resume_found
  resume_run-calls arguments binding w svc =
      outer
        (arguments_guard p floats (validate_schema p floats run_resume arguments) arguments binding)
        (find_run svc.sessions (text_at p floats arguments "run_id")) refl
    where
      inner :
          (s : Session p.Float) (o : Option Refusal)
          → resume_guard p floats arguments (run_identity p s) w ≡ o
          → ((guarded p floats o
                (resume_turn p floats arguments s (run_identity p s) w w.invocation (record svc {
                  calls = resume_call p floats arguments (run_identity p s) ∷ svc.calls;
                }))
                svc).1.calls
              ≡ svc.calls)
            ⊎ (IsResumed arguments s
                × ((guarded p floats o
                      (resume_turn p floats arguments s
                        (run_identity p s)
                        w
                        w.invocation
                        (record svc {
                          calls = resume_call p floats arguments (run_identity p s) ∷ svc.calls;
                        }))
                      svc).1.calls
                    ≡ resume_call p floats arguments (run_identity p s) ∷ svc.calls))
      inner s none e = inr (
        resume_guard-IsResumed arguments s w e,
        resume_turn-calls arguments s (run_identity p s) w w.invocation _,
      )
      inner s (some r) e = inl refl

      outer :
          (o : Option Refusal) (found : Option (Session p.Float))
          → find_run svc.sessions (text_at p floats arguments "run_id") ≡ found
          → ((guarded p floats o (resume_found p floats arguments w svc found) svc).1.calls
              ≡ svc.calls)
            ⊎ ((s : Session p.Float) × (find_run svc.sessions (text_at p floats arguments "run_id")
                  ≡ some s)
                × IsNamed svc.sessions (text_at p floats arguments "run_id") s
                × IsResumed arguments s
                × (call : Call p.Float) × ((guarded p floats o
                      (resume_found p floats arguments w svc found)
                      svc).1.calls
                    ≡ call ∷ svc.calls)
                × IsCallOf p floats arguments s call)
      outer (some r) found e = inl refl
      outer none none e = inl refl
      outer none (some s) e = elim (inner s _ refl) [
        | inl same ↦ inl same
        | inr (resumed, called) ↦ inr (
          s,
          e,
          find_run-IsNamed svc.sessions (text_at p floats arguments "run_id") s e,
          resumed,
          resume_call p floats arguments (run_identity p s),
          called,
          resume_call-IsCallOf p floats arguments s,
        )
      ]
