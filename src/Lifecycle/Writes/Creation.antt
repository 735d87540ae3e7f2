-- ===== src/Lifecycle/Writes/Creation.antt =====
-- What create_run of agent-platform/cortxt_mcp/run_lifecycle.py may write.
use cortxt.Prelude.{Bool, true, false, ◌≡◌, refl, Option, none, some, List, ◌∷◌, arith, not}
use cortxt.Value.{Fields, get}
use cortxt.Platform.{Platform}
use cortxt.Lifecycle.Schema.{Floats, run_create, validate_schema, matches_issue_ref}
use cortxt.Lifecycle.Runs.{Event, Session, active_run_for_issue}
use cortxt.Lifecycle.Turns.{Service, append_event}
use cortxt.Lifecycle.Service.{
  orelse_none, World, Refusal, lifecycle, invalid_arguments, engine_not_registered, ◌orelse◌,
  refuse_if, check_binding, scope_fingerprint, claim_refusal, text_at, new_session, guarded,
  create_guard, start_run, create_run,
}

module _ (p : Platform) (floats : Floats p.Float) where
  -- What a creation may do: nothing, or the session of a new run for an issue that no active run
  -- holds, then events of that session.
  pub data Created (arguments : Fields p.Float) (w : World p.Float)
      (sessions : List (Session p.Float)) : List (Session p.Float) → Type 0 where
    not_created : Created arguments w sessions sessions
    opened :
        active_run_for_issue sessions (text_at p floats arguments "issue_ref") ≡ some none
        → Created arguments w sessions (new_session p floats arguments w ∷ sessions)
    event_added :
        (e : Event p.Float) (sessions' : List (Session p.Float))
        → Created arguments w sessions sessions'
        → Created arguments w sessions (append_event w.session_id e sessions')

  create_guard-free :
      (arguments binding : Fields p.Float) (w : World p.Float) (svc : Service p.Float)
      → create_guard p floats arguments binding w svc ≡ none
      → active_run_for_issue svc.sessions (text_at p floats arguments "issue_ref") ≡ some none
  unfolding create_guard
  create_guard-free arguments binding w svc h =
      let issue_ref = text_at p floats arguments "issue_ref" in
      let provider : Option Refusal =
        refuse_if (not (w.has_provider (get arguments "engine_id")))
          (lifecycle engine_not_registered) in
      let claim = claim_refusal p floats (active_run_for_issue svc.sessions issue_ref) in
      let bound =
        check_binding p floats binding issue_ref
          (some (scope_fingerprint p floats (text_at p floats arguments "scope"))) in
      let named : Option Refusal =
        refuse_if (not (matches_issue_ref issue_ref)) invalid_arguments in
      let valid : Option Refusal =
        refuse_if (not (validate_schema p floats run_create arguments)) invalid_arguments in
      let h1 = (orelse_none valid (named orelse bound orelse claim orelse provider) h).1 in
      let h2 = (orelse_none named (bound orelse claim orelse provider) h1).1 in
      let h3 = (orelse_none bound (claim orelse provider) h2).1 in
      free (active_run_for_issue svc.sessions issue_ref) (orelse_none claim provider h3).0
    where
      free :
          (o : Option (Option (Session p.Float))) → claim_refusal p floats o ≡ none → o ≡ some none
      free none e = absurd (ground arith)
      free (some none) e = refl
      free (some (some s)) e = absurd (ground arith)

  start_run-Created :
      (arguments binding : Fields p.Float) (w : World p.Float) (svc : Service p.Float)
      → active_run_for_issue svc.sessions (text_at p floats arguments "issue_ref") ≡ some none
      → Created arguments w svc.sessions (start_run p floats arguments binding w svc).1.sessions
  unfolding start_run
  start_run-Created arguments binding w svc free =
      start w.session_written w.created_written w.running_written
    where
      start :
          (a b c : Bool)
          → Created arguments w svc.sessions
              (start_run p floats arguments binding
                (record w { session_written = a; created_written = b; running_written = c })
                svc).1.sessions
      start false b c = not_created
      start true false c = opened free
      start true true false = event_added _ _ (opened free)
      start true true true = event_added _ _ (event_added _ _ (opened free))

  pub create_run-Created :
      (arguments binding : Fields p.Float) (w : World p.Float) (svc : Service p.Float)
      → Created arguments w svc.sessions (create_run p floats arguments binding w svc).1.sessions
  unfolding create_run
  create_run-Created arguments binding w svc =
      after (create_guard p floats arguments binding w svc) refl
    where
      after :
          (o : Option Refusal)
          → create_guard p floats arguments binding w svc ≡ o
          → Created arguments w svc.sessions
              (guarded p floats o (start_run p floats arguments binding w svc) svc).1.sessions
      after none e =
          start_run-Created arguments binding w svc (create_guard-free arguments binding w svc e)
      after (some r) e = not_created
