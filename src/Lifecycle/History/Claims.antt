-- ===== src/Lifecycle/History/Claims.antt =====
-- The claims on issues through the histories of agent-platform/cortxt_mcp/run_lifecycle.py.
use cortxt.Prelude.{
  ℕ, ◌+◌, ◌≤◌, String, Bool, true, false, ◌≡◌, refl, ◌&&◌, Option, none, some, List, [], ◌∷◌, ◌==◌,
  all, arith, not, if◌then◌else◌,
}
use cortxt.Value.{Fields, str, get, has}
use cortxt.Lifecycle.Runs.{
  Event, Session, terminal_statuses, get_or, is_text, in_statuses, holds_claim, after_claim,
  active_run_for_issue,
}
use cortxt.Lifecycle.Turns.{with_event, append_event}

abbrev pub held : Option Bool → Bool
held (some b) = b
held none = false

abbrev pub one_if : Bool → ℕ
one_if true = 1
one_if false = 0

module _ {F : Type 0} where
  -- the session is of a run of the issue
  abbrev pub of_issue : String → Session F → Bool
  of_issue issue s = has s.created "run_id" && is_text (get s.created "issue_id") issue

  -- the number of runs that hold an issue
  unfoldable pub claims : String → List (Session F) → ℕ
  unfolding holds_claim
  claims issue [] = 0
  claims issue (s ∷ sessions) =
      one_if (of_issue issue s && held (holds_claim s)) + claims issue sessions

  -- A result with a terminal status, or with none.
  abbrev pub Ends : Fields F → Type 0
  Ends result = in_statuses (get_or result "status" (str "failed")) terminal_statuses ≡ some true

  -- no session has the id
  abbrev pub unused : String → List (Session F) → Bool
  unused id sessions = all (λ s. not (s.session_id == id)) sessions

  pub free-claims :
      (sessions : List (Session F)) (issue : String)
      → active_run_for_issue sessions issue ≡ some none
      → claims issue sessions ≡ 0
  unfolding active_run_for_issue claims
  free-claims [] issue h = refl
  free-claims (s ∷ sessions) issue h =
      choose (of_issue issue s) (holds_claim s) h (free-claims sessions issue)
    where
      choose :
          (b : Bool) (o : Option Bool)
          → (if b
              then after_claim s o (active_run_for_issue sessions issue)
              else active_run_for_issue sessions issue)
            ≡ some none
          → (active_run_for_issue sessions issue ≡ some none → claims issue sessions ≡ 0)
          → one_if (b && held o) + claims issue sessions ≡ 0
      choose false o h rest = omega (arith, rest h)
      choose true none h rest = absurd (ground arith)
      choose true (some true) h rest = absurd (ground arith)
      choose true (some false) h rest = omega (arith, rest h)

  -- an event after which a run holds nothing
  abbrev pub Releases : Event F → Type 0
  Releases e = (s : Session F) → holds_claim (with_event e s) ≡ some false

  claims-front :
      (issue : String) (e : Event F) (s : Session F) (rest : List (Session F)) (b : Bool)
      → Releases e
      → claims issue (if b then with_event e s ∷ rest else s ∷ rest)
        ≤ one_if (of_issue issue s && held (holds_claim s)) + claims issue rest
  unfolding claims
  claims-front issue e s rest false released = omega arith
  claims-front issue e s rest true released = choose (of_issue issue s)
    where
      choose :
          (b : Bool)
          → one_if (b && held (holds_claim (with_event e s))) + claims issue rest
            ≤ one_if (b && held (holds_claim s)) + claims issue rest
      choose false = omega arith
      choose true = rw (released s) (omega arith)

  pub claims-append_event :
      (issue id : String) (e : Event F) (sessions : List (Session F))
      → Releases e
      → claims issue (append_event id e sessions) ≤ claims issue sessions
  unfolding append_event claims
  claims-append_event issue id e [] released = omega arith
  claims-append_event issue id e (s ∷ sessions) released = omega (
    arith,
    claims-front issue e s (append_event id e sessions) (s.session_id == id) released,
    claims-append_event issue id e sessions released,
  )
