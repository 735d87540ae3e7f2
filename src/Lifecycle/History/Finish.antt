-- ===== src/Lifecycle/History/Finish.antt =====
-- That the turn of the worker that create_run of agent-platform/cortxt_mcp/run_lifecycle.py starts ends
-- the claim of its run.
use cortxt.Prelude.{
  String, Bool, true, false, ◌≡◌, refl, ap, ◌∙◌, Option, none, some, List, [], ◌∷◌, ◌==◌, ==_refl,
  All, arith,
}
use cortxt.Value.{Fields, obj, end, get, has, lookup}
use cortxt.Platform.{Platform}
use cortxt.Lifecycle.Schema.{Floats}
use cortxt.Lifecycle.Runs.{Event, Session, find_run, holds_claim}
use cortxt.Lifecycle.Envelope.{Envelope, safe_cost}
use cortxt.Lifecycle.Turns.{
  Invocation, returned, failed, Worker, Service, with_event, append_event, as_returned, as_failed,
  append_engine_turn,
}
use cortxt.Lifecycle.Service.{
  Refusal, done, World, new_session, run_created, guarded, create_guard, start_run, create_run,
}
use cortxt.Lifecycle.Resume.{worker_turn}
use cortxt.Lifecycle.Writes.{Returns}
use cortxt.Lifecycle.History.{Step, run}
use cortxt.Lifecycle.History.Growth.{Creates, extended}
use cortxt.Lifecycle.History.Named.{Named, find_run-append_event, Named-append_event, run-Named}
use cortxt.Lifecycle.History.Claims.{Ends, Releases}
use cortxt.Lifecycle.History.Release.{turn, turn-Releases}

module _ (p : Platform) (floats : Floats p.Float) where
  -- the event of a turn that failed
  abbrev failed_turn : Worker p.Float → String → String → Event p.Float
  failed_turn worker message now =
      turn p floats worker.run_created end (as_failed message) p.zero_float now

  failed_turn-Releases :
      (worker : Worker p.Float) (message now : String) → Releases (failed_turn worker message now)
  failed_turn-Releases worker message now =
      turn-Releases p floats worker.run_created end (as_failed message) p.zero_float now tt

  -- A turn of a worker whose writes succeed.
  turned_lem :
      (worker : Worker p.Float) (w : World p.Float) (i : Invocation p.Float) (svc : Service p.Float)
      → Returns p floats Ends i
      → (e : Event p.Float) × Releases e
        × ((worker_turn p floats worker (record w { event_written = true }) true i svc).sessions
            ≡ append_event worker.session_id e svc.sessions)
  unfolding worker_turn append_engine_turn safe_cost get lookup
  turned_lem worker w (failed message) svc ends =
      (failed_turn worker message w.now, failed_turn-Releases worker message w.now, refl)
  turned_lem worker w (returned (obj result)) svc ends =
      recorded (safe_cost p floats (get result "cost")) refl
    where
      recorded :
          (cost : Option p.Float)
          → safe_cost p floats (get result "cost") ≡ cost
          → (e : Event p.Float) × Releases e
            × ((worker_turn p floats worker
                  (record w { event_written = true })
                  true
                  (returned (obj result))
                  svc).sessions
                ≡ append_event worker.session_id e svc.sessions)
      recorded none h = (
        failed_turn worker w.error_text w.now,
        failed_turn-Releases worker w.error_text w.now,
        rw h refl,
      )
      recorded (some c) h = (
        turn p floats worker.run_created result as_returned c w.now,
        turn-Releases p floats worker.run_created result as_returned c w.now ends,
        rw h refl,
      )
  turned_lem worker w (returned v) svc ends =
      let message : String = "adapter returned a non-dict result" in
      (failed_turn worker message w.now, failed_turn-Releases worker message w.now, refl)

  -- What a creation that is done has started.
  start_run-done :
      (arguments binding : Fields p.Float) (w : World p.Float) (svc : Service p.Float)
      (e : Envelope p.Float)
      → (start_run p floats arguments binding w svc).0 ≡ done e
      → ((start_run p floats arguments binding w svc).1.workers
          ≡ record {
            session_id = w.session_id;
            run_created = run_created p floats arguments binding w;
          }
            ∷ svc.workers)
        × Named p floats w.run_id
            (new_session p floats arguments w)
            (start_run p floats arguments binding w svc).1.sessions
  unfolding start_run run_created find_run has get lookup
  start_run-done arguments binding w svc e h =
      started w.session_written w.created_written w.running_written h
    where
      opened :
          Named p floats w.run_id
            (new_session p floats arguments w)
            (new_session p floats arguments w ∷ svc.sessions)
      opened = ([], rw (==_refl w.run_id) refl)

      started :
          (a b c : Bool)
          → (start_run p floats arguments binding
              (record w { session_written = a; created_written = b; running_written = c })
              svc).0
            ≡ done e
          → ((start_run p floats arguments binding
                (record w { session_written = a; created_written = b; running_written = c })
                svc).1.workers
              ≡ record {
                session_id = w.session_id;
                run_created = run_created p floats arguments binding w;
              }
                ∷ svc.workers)
            × Named p floats w.run_id
                (new_session p floats arguments w)
                (start_run p floats arguments binding
                  (record w { session_written = a; created_written = b; running_written = c })
                  svc).1.sessions
      started false b c h = absurd (ground arith)
      started true false c h = absurd (ground arith)
      started true true false h = absurd (ground arith)
      started true true true h = (
        refl,
        Named-append_event p floats w.run_id (new_session p floats arguments w) _ _ _
            (Named-append_event p floats w.run_id (new_session p floats arguments w) _ _ _ opened),
      )

  create_run-done :
      (arguments binding : Fields p.Float) (w : World p.Float) (svc : Service p.Float)
      (e : Envelope p.Float) (o : Option Refusal)
      → (guarded p floats o (start_run p floats arguments binding w svc) svc).0 ≡ done e
      → (start_run p floats arguments binding w svc).0 ≡ done e
        × (guarded p floats o (start_run p floats arguments binding w svc) svc
            ≡ start_run p floats arguments binding w svc)
  create_run-done arguments binding w svc e none h = (h, refl)
  create_run-done arguments binding w svc e (some r) h = absurd (ground arith)

  -- the run of a session, after an event that releases in it
  released_lem :
      (r : String) (s : Session p.Float) (e : Event p.Float) (sessions : List (Session p.Float))
      → Releases e
      → Named p floats r s sessions
      → (s' : Session p.Float) × (find_run (append_event s.session_id e sessions) r ≡ some s')
        × (holds_claim s' ≡ some false)
  released_lem r s e sessions releases (newer, found) =
      let found' = find_run-append_event s.session_id e r sessions (extended newer s) found in
      (
        with_event e (extended newer s),
        rw (==_refl s.session_id) at found',
        releases (extended newer s),
      )

  -- A creation that is done puts a worker in front of the others, and whatever follows that makes no
  -- new run of its run id: once the turn of that worker is recorded, with a terminal status, none, or
  -- a failure, the run no longer holds its issue.
  pub worker_turn-released :
      (arguments binding : Fields p.Float) (w w' : World p.Float) (svc : Service p.Float)
      (e : Envelope p.Float) (steps : List (Step p.Float)) (i : Invocation p.Float)
      → (create_run p floats arguments binding w svc).0 ≡ done e
      → All (Creates p floats (λ other. (other.run_id == w.run_id) ≡ false)) steps
      → Returns p floats Ends i
      → (worker : Worker p.Float) × ((create_run p floats arguments binding w svc).1.workers
          ≡ worker ∷ svc.workers)
        × (s : Session p.Float) × (find_run
              (worker_turn p floats worker
                (record w' { event_written = true })
                true
                i
                (run p floats steps (create_run p floats arguments binding w svc).1)).sessions
              w.run_id
            ≡ some s)
        × (holds_claim s ≡ some false)
  unfolding create_run
  worker_turn-released arguments binding w w' svc e steps i h others ends =
      let (started, same) =
        create_run-done arguments binding w svc e (create_guard p floats arguments binding w svc)
          h in
      let (workers, (events, named)) = start_run-done arguments binding w svc e started in
      let worker : Worker p.Float = record {
        session_id = w.session_id;
        run_created = run_created p floats arguments binding w;
      } in
      let svc1 = (create_run p floats arguments binding w svc).1 in
      let named1 : find_run svc1.sessions w.run_id
          ≡ some (extended events (new_session p floats arguments w)) =
        ap (λ x. find_run x.1.sessions w.run_id) same ∙ named in
      let later = run p floats steps svc1 in
      let (turn_event, releases, turned) = turned_lem worker w' i later ends in
      let (s, found, free) =
        released_lem w.run_id (extended events (new_session p floats arguments w)) turn_event
          later.sessions releases
          (run-Named p floats w.run_id (extended events (new_session p floats arguments w)) steps
            svc1 others named1) in
      (
        worker,
        ap (λ x. x.1.workers) same ∙ workers,
        s,
        ap (λ sessions. find_run sessions w.run_id) turned ∙ found,
        free,
      )
