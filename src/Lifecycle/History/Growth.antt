-- ===== src/Lifecycle/History/Growth.antt =====
-- What the histories of agent-platform/cortxt_mcp/run_lifecycle.py keep: the sessions that there are, with
-- events added in front, and the run that a run id names.
use cortxt.Prelude.{
  String, Bool, true, false, Option, none, some, List, [], ◌∷◌, ◌++◌, ◌==◌, All, if◌then◌else◌,
}
use cortxt.Value.{Fields, obj}
use cortxt.Platform.{Platform}
use cortxt.Lifecycle.Schema.{Floats}
use cortxt.Lifecycle.Runs.{Event, Session}
use cortxt.Lifecycle.Turns.{Invocation, returned, failed, Worker, Service, with_event, append_event}
use cortxt.Lifecycle.Service.{World, new_session}
use cortxt.Lifecycle.Writes.{
  Returns, Written, unchanged, turned, submitted, worker_turn-Written, resume_run-Written,
  submit_for_review-Written,
}
use cortxt.Lifecycle.Writes.Creation.{Created, not_created, opened, event_added, create_run-Created}
use cortxt.Lifecycle.History.{
  Step, creating, working, resuming, submitting, take_worker, work, step, run,
}

module _ (p : Platform) (floats : Floats p.Float) where
  -- A condition on the creations among the steps.
  abbrev pub Creates : (World p.Float → Type 0) → Step p.Float → Type 0
  Creates Allowed (creating arguments binding w) = Allowed w
  Creates Allowed s = Unit

  any_result : (i : Invocation p.Float) → Returns p floats (λ result. Unit) i
  any_result (returned (obj result)) = tt
  any_result (returned v) = tt
  any_result (failed message) = tt

  module _ (P : List (Session p.Float) → Type 0)
      (appended : (id : String) (e : Event p.Float) (sessions : List (Session p.Float))
        → P sessions
        → P (append_event id e sessions))
      (Allowed : World p.Float → Type 0)
      (added : (arguments : Fields p.Float) (w : World p.Float) (sessions : List (Session p.Float))
        → Allowed w
        → P sessions
        → P (new_session p floats arguments w ∷ sessions)) where
    Written-kept :
        {sessions sessions' : List (Session p.Float)}
        → Written p floats (λ result. Unit) sessions sessions'
        → P sessions
        → P sessions'
    Written-kept unchanged h = h
    Written-kept (turned id run_created result why cost now fits) h = appended _ _ _ h
    Written-kept (submitted id payload) h = appended _ _ _ h

    Created-kept :
        (arguments : Fields p.Float) (w : World p.Float)
        {sessions sessions' : List (Session p.Float)}
        → Created p floats arguments w sessions sessions'
        → Allowed w
        → P sessions
        → P sessions'
    Created-kept arguments w not_created allowed h = h
    Created-kept arguments w (opened free) allowed h = added arguments w _ allowed h
    Created-kept arguments w (event_added e sessions' c) allowed h =
        appended _ _ _ (Created-kept arguments w c allowed h)

    step-kept :
        (s : Step p.Float) (svc : Service p.Float)
        → Creates Allowed s
        → P svc.sessions
        → P (step p floats s svc).sessions
    unfolding step
    step-kept (creating arguments binding w) svc allowed h =
        Created-kept arguments w (create_run-Created p floats arguments binding w svc) allowed h
    step-kept (working n w b) svc allowed h = worked (take_worker n svc.workers)
      where
        worked :
            (o : Option (Worker p.Float × List (Worker p.Float)))
            → P (work p floats o w b svc).sessions
        worked none = h
        worked (some found) =
            Written-kept
              (worker_turn-Written p floats _ found.0 w b w.invocation
                (record svc { workers = found.1 }) (any_result w.invocation))
              h
    step-kept (resuming arguments binding w) svc allowed h =
        Written-kept
          (resume_run-Written p floats _ arguments binding w svc (any_result w.invocation)) h
    step-kept (submitting arguments binding w) svc allowed h =
        Written-kept (submit_for_review-Written p floats _ arguments binding w svc) h

    pub run-kept :
        (steps : List (Step p.Float)) (svc : Service p.Float)
        → All (Creates Allowed) steps
        → P svc.sessions
        → P (run p floats steps svc).sessions
    unfolding run
    run-kept [] svc allowed h = h
    run-kept (s ∷ steps) svc (first, rest) h =
        run-kept steps (step p floats s svc) rest (step-kept s svc first h)

module _ {F : Type 0} where
  abbrev pub extended : List (Event F) → Session F → Session F
  extended newer s = record s { events = newer ++ s.events }

  -- The old sessions in their order, each with newer events in front of its own, and other sessions
  -- between and in front of them.
  pub data Grown : List (Session F) → List (Session F) → Type 0 where
    no_session : Grown [] []
    events_added :
        (newer : List (Event F)) (s : Session F) {old new : List (Session F)}
        → Grown old new
        → Grown (s ∷ old) (extended newer s ∷ new)
    session_added :
        (s : Session F) {old new : List (Session F)} → Grown old new → Grown old (s ∷ new)

  Grown-refl : (sessions : List (Session F)) → Grown sessions sessions
  Grown-refl [] = no_session
  Grown-refl (s ∷ sessions) = events_added [] s (Grown-refl sessions)

  event_in_front :
      (e : Event F) (newer : List (Event F)) (s : Session F) (b : Bool) {old new : List (Session F)}
      → Grown old new
      → Grown
          (s ∷ old)
          (if b then with_event e (extended newer s) ∷ new else extended newer s ∷ new)
  event_in_front e newer s true g = events_added (e ∷ newer) s g
  event_in_front e newer s false g = events_added newer s g

  session_in_front :
      (e : Event F) (s : Session F) (b : Bool) {old new : List (Session F)}
      → Grown old new
      → Grown old (if b then with_event e s ∷ new else s ∷ new)
  session_in_front e s true g = session_added (with_event e s) g
  session_in_front e s false g = session_added s g

  Grown-append_event :
      (id : String) (e : Event F) {old new : List (Session F)}
      → Grown old new
      → Grown old (append_event id e new)
  unfolding append_event
  Grown-append_event id e no_session = no_session
  Grown-append_event id e (events_added newer s g) =
      event_in_front e newer s (s.session_id == id) (Grown-append_event id e g)
  Grown-append_event id e (session_added s g) =
      session_in_front e s (s.session_id == id) (Grown-append_event id e g)

module _ (p : Platform) (floats : Floats p.Float) where
  anything : (steps : List (Step p.Float)) → All (Creates p floats (λ w. Unit)) steps
  anything [] = tt
  anything (creating arguments binding w ∷ steps) = (tt, anything steps)
  anything (working n w b ∷ steps) = (tt, anything steps)
  anything (resuming arguments binding w ∷ steps) = (tt, anything steps)
  anything (submitting arguments binding w ∷ steps) = (tt, anything steps)

  -- Whatever calls and worker's turns follow one another, and whatever the engines return and the
  -- writes that fail, the sessions stay, in their order, with the payload of their creation and with
  -- every event that they have: a call only puts new events in front of them, and new sessions.
  pub run-Grown :
      (steps : List (Step p.Float)) (svc : Service p.Float)
      → Grown svc.sessions (run p floats steps svc).sessions
  run-Grown steps svc =
      run-kept p floats (λ sessions. Grown svc.sessions sessions)
        (λ id e sessions g. Grown-append_event id e g) (λ w. Unit)
        (λ arguments w sessions allowed g. session_added _ g) steps svc (anything steps)
        (Grown-refl svc.sessions)
