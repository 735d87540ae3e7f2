-- ===== src/Lifecycle/History/Release.antt =====
-- What may be written to the sessions of agent-platform/cortxt_mcp/run_lifecycle.py without a second
-- claim on an issue.
use cortxt.Prelude.{
  ◌+◌, ◌≤◌, String, Bool, true, false, ◌≡◌, refl, ap, ◌⊎◌, inl, inr, ◌&&◌, Option, none, some, List,
  [], ◌∷◌, ◌==◌, ==_true, ==_refl, Bool-cases, arith, not, if◌then◌else◌,
}
use cortxt.Value.{Value, Fields, str, get, has, lookup}
use cortxt.Platform.{Platform}
use cortxt.Lifecycle.Schema.{Floats}
use cortxt.Lifecycle.Runs.{
  Event, Session, is_text, last_run_status, holds_claim, active_run_for_issue,
}
use cortxt.Lifecycle.Turns.{
  Worker, Service, with_event, append_event, Failure, as_returned, as_failed, turn_payload,
}
use cortxt.Lifecycle.Service.{World, text_at, new_session}
use cortxt.Lifecycle.Writes.{
  Recordable, Returns, Written, unchanged, turned, submitted, worker_turn-Written,
  resume_run-Written, submit_for_review-Written,
}
use cortxt.Lifecycle.Writes.Creation.{Created, not_created, opened, event_added, create_run-Created}
use cortxt.Lifecycle.History.{
  Step, creating, working, resuming, submitting, take_worker, work, step, run,
}
use cortxt.Lifecycle.History.Claims.{
  one_if, claims, Ends, unused, Releases, free-claims, claims-append_event,
}

one_if_lem : (b : Bool) → one_if b ≤ 1
one_if_lem true = omega arith
one_if_lem false = omega arith

-- At most one run holds an issue.
abbrev pub IsExclusive : {F : Type 0} → List (Session F) → Type 0
IsExclusive sessions = (issue : String) → claims issue sessions ≤ 1

module _ (p : Platform) (floats : Floats p.Float) where
  abbrev pub turn : Fields p.Float → Fields p.Float → Failure → p.Float → String → Event p.Float
  turn run_created result why cost now = record {
    event_type = "run.engine_turn";
    payload = turn_payload p floats run_created result why cost now;
  }

  -- After a turn that ends, and after a submission, a run holds nothing.
  pub turn-Releases :
      (run_created result : Fields p.Float) (why : Failure) (cost : p.Float) (now : String)
      → Recordable p floats Ends why result
      → Releases (turn run_created result why cost now)
  unfolding turn_payload holds_claim last_run_status lookup
  turn-Releases run_created result as_returned cost now ends s = rw (holds_claim, ends) refl
  turn-Releases run_created result (as_failed message) cost now ends s = refl

  submission-Releases :
      (payload : Fields p.Float)
      → Releases (record { event_type = "run.review_submitted"; payload = payload })
  unfolding holds_claim last_run_status
  submission-Releases payload s = refl

  Written-IsExclusive :
      {sessions sessions' : List (Session p.Float)}
      → Written p floats Ends sessions sessions'
      → IsExclusive sessions
      → IsExclusive sessions'
  Written-IsExclusive unchanged h issue = h issue
  Written-IsExclusive (turned id run_created result why cost now ends) h issue = omega (
    arith,
    h issue,
    claims-append_event issue id _ _ (turn-Releases run_created result why cost now ends),
  )
  Written-IsExclusive (submitted id payload) h issue =
      omega (arith, h issue, claims-append_event issue id _ _ (submission-Releases payload))

  -- The session of a new run, with some events, in front of the others.
  data Opened (arguments : Fields p.Float) (w : World p.Float) (sessions : List (Session p.Float))
      : List (Session p.Float) → Type 0 where
    opened_with :
        (events : List (Event p.Float))
        → Opened arguments w sessions
            (record (new_session p floats arguments w) { events = events } ∷ sessions)

  append_event-unused :
      (id : String) (e : Event p.Float) (sessions : List (Session p.Float))
      → unused id sessions ≡ true
      → append_event id e sessions ≡ sessions
  unfolding append_event
  append_event-unused id e [] h = refl
  append_event-unused id e (s ∷ sessions) h =
      choose (s.session_id == id) h (append_event-unused id e sessions)
    where
      choose :
          (b : Bool)
          → (not b && unused id sessions) ≡ true
          → (unused id sessions ≡ true → append_event id e sessions ≡ sessions)
          → (if b
              then with_event e s ∷ append_event id e sessions
              else s ∷ append_event id e sessions)
            ≡ s ∷ sessions
      choose false h rest = ap (λ x. s ∷ x) (rest h)
      choose true h rest = absurd (ground arith)

  Opened-append_event :
      (arguments : Fields p.Float) (w : World p.Float) (e : Event p.Float)
      {sessions sessions' : List (Session p.Float)}
      → unused w.session_id sessions ≡ true
      → Opened arguments w sessions sessions'
      → Opened arguments w sessions (append_event w.session_id e sessions')
  unfolding append_event
  Opened-append_event arguments w e {sessions} h (opened_with events) =
      rw (==_refl w.session_id, append_event-unused w.session_id e sessions h)
        (opened_with (e ∷ events))

  Created-Opened :
      (arguments : Fields p.Float) (w : World p.Float) {sessions sessions' : List (Session p.Float)}
      → unused w.session_id sessions ≡ true
      → Created p floats arguments w sessions sessions'
      → (sessions' ≡ sessions)
        ⊎ ((active_run_for_issue sessions (text_at p floats arguments "issue_ref") ≡ some none)
            × Opened arguments w sessions sessions')
  Created-Opened arguments w h not_created = inl refl
  Created-Opened arguments w h (opened free) = inr (free, opened_with [])
  Created-Opened arguments w h (event_added e sessions' c) = elim (Created-Opened arguments w h c) [
    | inl same ↦ inl (rw same (append_event-unused w.session_id e _ h))
    | inr (free, o) ↦ inr (free, Opened-append_event arguments w e h o)
  ]

  Opened-IsExclusive :
      (arguments : Fields p.Float) (w : World p.Float) {sessions sessions' : List (Session p.Float)}
      → active_run_for_issue sessions (text_at p floats arguments "issue_ref") ≡ some none
      → Opened arguments w sessions sessions'
      → IsExclusive sessions
      → IsExclusive sessions'
  unfolding claims has get lookup
  Opened-IsExclusive arguments w {sessions} free (opened_with events) h issue =
      weigh (get arguments "issue_ref") _ free
    where
      weigh :
          (v : Value p.Float) (b : Bool)
          → active_run_for_issue sessions (elim v [ str s ↦ s | _ ↦ "" ]) ≡ some none
          → one_if (is_text v issue && b) + claims issue sessions ≤ 1
      weigh (str t) b free = elim (Bool-cases (t == issue)) [
        | inl same ↦
            let t_free : active_run_for_issue sessions issue ≡ some none =
              rw (==_true t issue same) at free in
            omega (arith, free-claims sessions issue t_free, one_if_lem ((t == issue) && b))
        | inr other ↦ rw other (omega (arith, h issue))
      ]
      weigh v b free = omega (arith, h issue)

  -- What is assumed of a step: a session id that no session has, and results with a terminal status.
  abbrev pub Sound : Step p.Float → Service p.Float → Type 0
  Sound (creating arguments binding w) svc = unused w.session_id svc.sessions ≡ true
  Sound (working n w b) svc = Returns p floats Ends w.invocation
  Sound (resuming arguments binding w) svc = Returns p floats Ends w.invocation
  Sound (submitting arguments binding w) svc = Unit

  abbrev pub AllSound : List (Step p.Float) → Service p.Float → Type 0
  AllSound [] svc = Unit
  AllSound (s ∷ steps) svc = Sound s svc × AllSound steps (step p floats s svc)

  step-IsExclusive :
      (s : Step p.Float) (svc : Service p.Float)
      → Sound s svc
      → IsExclusive svc.sessions
      → IsExclusive (step p floats s svc).sessions
  unfolding step
  step-IsExclusive (creating arguments binding w) svc fresh h =
      elim (Created-Opened arguments w fresh
        (create_run-Created p floats arguments binding w svc)) [
          | inl same ↦ rw same h
          | inr (free, o) ↦ Opened-IsExclusive arguments w free o h
        ]
  step-IsExclusive (working n w b) svc ends h = worked (take_worker n svc.workers)
    where
      worked :
          (o : Option (Worker p.Float × List (Worker p.Float)))
          → IsExclusive (work p floats o w b svc).sessions
      worked none = h
      worked (some found) =
          Written-IsExclusive
            (worker_turn-Written p floats Ends found.0 w b w.invocation
              (record svc { workers = found.1 }) ends)
            h
  step-IsExclusive (resuming arguments binding w) svc ends h =
      Written-IsExclusive (resume_run-Written p floats Ends arguments binding w svc ends) h
  step-IsExclusive (submitting arguments binding w) svc ends h =
      Written-IsExclusive (submit_for_review-Written p floats Ends arguments binding w svc) h

  -- While at most one run holds each issue, it stays so through any creations, worker's turns,
  -- resumptions and submissions, where each new session has an id that no session has, and the
  -- results of the engines have a terminal status or none.
  pub run-IsExclusive :
      (steps : List (Step p.Float)) (svc : Service p.Float)
      → AllSound steps svc
      → IsExclusive svc.sessions
      → IsExclusive (run p floats steps svc).sessions
  unfolding run
  run-IsExclusive [] svc sound h = h
  run-IsExclusive (s ∷ steps) svc (first, rest) h =
      run-IsExclusive steps (step p floats s svc) rest (step-IsExclusive s svc first h)
