-- ===== src/Lifecycle/History/Named.antt =====
-- The run that a run id names, and its submissions, through the histories of
-- agent-platform/cortxt_mcp/run_lifecycle.py.
use cortxt.Prelude.{
  String, Bool, true, false, ◌≡◌, refl, ap, ◌∙◌, ◌&&◌, some, List, [], ◌∷◌, ◌++◌, ◌==◌, All, arith,
  if◌then◌else◌,
}
use mathlib.Core.Option.{some-injective}
use cortxt.Value.{Fields, get, has, lookup}
use cortxt.Platform.{Platform}
use cortxt.Lifecycle.Schema.{Floats}
use cortxt.Lifecycle.Runs.{Event, Session, is_text, find_run, find_review_submission}
use cortxt.Lifecycle.Turns.{Service, with_event, append_event}
use cortxt.Lifecycle.Service.{World, new_session}
use cortxt.Lifecycle.History.{Step, run}
use cortxt.Lifecycle.History.Growth.{Creates, extended, run-kept}

module _ {F : Type 0} where
  -- whether a session is the run that is looked for
  abbrev is_run : String → Session F → Bool
  is_run r s = has s.created "run_id" && is_text (get s.created "run_id") r

  find_run-front :
      (e : Event F) (r : String) (x : Session F) (rest : List (Session F)) (b : Bool)
      → find_run (if b then with_event e x ∷ rest else x ∷ rest) r
        ≡ (if is_run r x then some (if b then with_event e x else x) else find_run rest r)
  unfolding find_run
  find_run-front e r x rest true = refl
  find_run-front e r x rest false = refl

  -- An event more in a session leaves it the run that the run id names.
  pub find_run-append_event :
      (id : String) (e : Event F) (r : String) (sessions : List (Session F)) (s : Session F)
      → find_run sessions r ≡ some s
      → find_run (append_event id e sessions) r
        ≡ some (if s.session_id == id then with_event e s else s)
  unfolding find_run append_event
  find_run-append_event id e r [] s h = absurd (ground arith)
  find_run-append_event id e r (x ∷ sessions) s h =
      find_run-front e r x (append_event id e sessions) (x.session_id == id)
      ∙ choose (is_run r x) h (find_run-append_event id e r sessions s)
    where
      choose :
          (t : Bool)
          → (if t then some x else find_run sessions r) ≡ some s
          → (find_run sessions r ≡ some s
              → find_run (append_event id e sessions) r
                ≡ some (if s.session_id == id then with_event e s else s))
          → (if t
              then some (if x.session_id == id then with_event e x else x)
              else find_run (append_event id e sessions) r)
            ≡ some (if s.session_id == id then with_event e s else s)
      choose true same rest =
          ap (λ y. some (if y.session_id == id then with_event e y else y))
            (some-injective _ _ same)
      choose false same rest = rest same

  -- The oldest submission of a key stays the oldest.
  pub find_review_submission-append :
      (key : String) (newer events : List (Event F)) (prior : Fields F)
      → find_review_submission key events ≡ some prior
      → find_review_submission key (newer ++ events) ≡ some prior
  unfolding find_review_submission
  find_review_submission-append key [] events prior h = h
  find_review_submission-append key (e ∷ newer) events prior h =
      rw (find_review_submission-append key newer events prior h) refl

module _ (p : Platform) (floats : Floats p.Float) where
  -- A session under its run id, with newer events.
  abbrev pub Named : String → Session p.Float → List (Session p.Float) → Type 0
  Named r s sessions =
      (newer : List (Event p.Float)) × (find_run sessions r ≡ some (extended newer s))

  pub Named-append_event :
      (r : String) (s : Session p.Float) (id : String) (e : Event p.Float)
      (sessions : List (Session p.Float))
      → Named r s sessions
      → Named r s (append_event id e sessions)
  Named-append_event r s id e sessions (newer, h) =
      choose (s.session_id == id) (find_run-append_event id e r sessions (extended newer s) h)
    where
      choose :
          (b : Bool)
          → find_run (append_event id e sessions) r
            ≡ some (if b then with_event e (extended newer s) else extended newer s)
          → Named r s (append_event id e sessions)
      choose true found = (e ∷ newer, found)
      choose false found = (newer, found)

  Named-new_session :
      (r : String) (s : Session p.Float) (arguments : Fields p.Float) (w : World p.Float)
      (sessions : List (Session p.Float))
      → (w.run_id == r) ≡ false
      → Named r s sessions
      → Named r s (new_session p floats arguments w ∷ sessions)
  unfolding find_run has get lookup
  Named-new_session r s arguments w sessions other (newer, h) = (newer, rw other h)

  -- Steps that make no run of that run id leave it the run that it names.
  pub run-Named :
      (r : String) (s : Session p.Float) (steps : List (Step p.Float)) (svc : Service p.Float)
      → All (Creates p floats (λ w. (w.run_id == r) ≡ false)) steps
      → find_run svc.sessions r ≡ some s
      → Named r s (run p floats steps svc).sessions
  run-Named r s steps svc others found =
      run-kept p floats (Named r s) (Named-append_event r s) _ (Named-new_session r s) steps svc
        others ([], found)
