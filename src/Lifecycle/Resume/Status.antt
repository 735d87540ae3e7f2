-- ===== src/Lifecycle/Resume/Status.antt =====
-- The status of a run in its history, for resume_run of agent-platform/cortxt_mcp/run_lifecycle.py, and
-- the run that a run id names.
use cortxt.Prelude.{
  String, Bool, true, false, ◌≡◌, ◌≢◌, refl, some, List, [], ◌∷◌, ◌==◌, ◌&&◌, ==_true, unequal,
  &&_elim, subst, In, here, there, arith, if◌then◌else◌,
}
use cortxt.Value.{Value, str, get, has}
use cortxt.Lifecycle.Runs.{Event, Session, get_or, is_text, last_run_status, find_run}
use mathlib.Core.Option.{some-injective}

-- The newest event that is a submission, a turn or a start gives the status; the newest stand first.
pub data IsStatus {F : Type 0} : List (Event F) → Value F → Type 0 where
  is_fresh : IsStatus [] (str "created")
  is_submitted :
      (e : Event F) {older : List (Event F)}
      → e.event_type ≡ "run.review_submitted"
      → IsStatus (e ∷ older) (str "review_submitted")
  is_turn :
      (e : Event F) {older : List (Event F)}
      → e.event_type ≡ "run.engine_turn"
      → IsStatus (e ∷ older) (get_or e.payload "status" (str "failed"))
  is_running :
      (e : Event F) {older : List (Event F)}
      → e.event_type ≡ "run.running"
      → IsStatus (e ∷ older) (str "running")
  is_unrelated :
      (e : Event F) {older : List (Event F)} {v : Value F}
      → e.event_type ≢ "run.review_submitted"
      → e.event_type ≢ "run.engine_turn"
      → e.event_type ≢ "run.running"
      → IsStatus older v
      → IsStatus (e ∷ older) v

module _ {F : Type 0} where
  pub last_run_status-IsStatus :
      (events : List (Event F)) → IsStatus events (last_run_status events)
  unfolding last_run_status
  last_run_status-IsStatus [] = is_fresh
  last_run_status-IsStatus (e ∷ older) =
      choose (e.event_type == "run.review_submitted") (e.event_type == "run.engine_turn")
        (e.event_type == "run.running") refl refl refl (last_run_status-IsStatus older)
    where
      choose :
          (submitted turned running : Bool)
          → (e.event_type == "run.review_submitted") ≡ submitted
          → (e.event_type == "run.engine_turn") ≡ turned
          → (e.event_type == "run.running") ≡ running
          → IsStatus older (last_run_status older)
          → IsStatus (e ∷ older) (
              if submitted
              then str "review_submitted"
              else if turned
              then get_or e.payload "status" (str "failed")
              else if running
              then str "running"
              else last_run_status older)
      choose true t r x y z rest = is_submitted e (==_true e.event_type "run.review_submitted" x)
      choose false true r x y z rest = is_turn e (==_true e.event_type "run.engine_turn" y)
      choose false false true x y z rest = is_running e (==_true e.event_type "run.running" z)
      choose false false false x y z rest =
          is_unrelated e (unequal e.event_type "run.review_submitted" x)
            (unequal e.event_type "run.engine_turn" y) (unequal e.event_type "run.running" z) rest

  -- The session is one of the sessions, and its run has the run id.
  pub record IsNamed (sessions : List (Session F)) (run_id : String) (s : Session F) : Type 0 where
    pub stored : In s sessions
    pub of_run : is_text (get s.created "run_id") run_id ≡ true

  pub find_run-IsNamed :
      (sessions : List (Session F)) (r : String) (s : Session F)
      → find_run sessions r ≡ some s
      → IsNamed sessions r s
  unfolding find_run
  find_run-IsNamed [] r s h = absurd (ground arith)
  find_run-IsNamed (x ∷ sessions) r s h =
      choose (has x.created "run_id" && is_text (get x.created "run_id") r) refl h
        (find_run-IsNamed sessions r s)
    where
      choose :
          (b : Bool)
          → (has x.created "run_id" && is_text (get x.created "run_id") r) ≡ b
          → (if b then some x else find_run sessions r) ≡ some s
          → (find_run sessions r ≡ some s → IsNamed sessions r s)
          → IsNamed (x ∷ sessions) r s
      choose true e k rest =
          subst (IsNamed (x ∷ sessions) r) (some-injective _ _ k)
            (record { stored = here; of_run = (&&_elim _ _ e).1 })
      choose false e k rest =
          let later = rest k in record { stored = there later.stored; of_run = later.of_run }
