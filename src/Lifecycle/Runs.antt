-- ===== src/Lifecycle/Runs.antt =====
-- The sessions of runs, and what agent-platform/cortxt_mcp/run_lifecycle.py reads of them. A session is
-- what `load` of session_state.py returns: the payload of its first event, and the later events with
-- the newest first. The glob gives the sessions in no set order; here the newest stand first. The order
-- matters where two sessions have one run id, which is fresh, or where an issue has two active runs,
-- for which of them is found.
use cortxt.Prelude.{
  String, Bool, true, false, ◌&&◌, not, Option, none, some, List, [], ◌∷◌, ◌==◌, contains,
  if◌then◌else◌,
}
use cortxt.Value.{Value, Fields, str, end, get, lookup, has, is_hashable}
use cortxt.Platform.{Platform, truthy}

pub record Event (F : Type 0) : Type 0 where
  pub event_type : String
  pub payload : Fields F

pub record Session (F : Type 0) : Type 0 where
  pub session_id : String
  pub created : Fields F
  pub events : List (Event F)

abbrev pub terminal_statuses : List String
terminal_statuses =
    "succeeded" ∷ "failed" ∷ "timed_out" ∷ "budget_exceeded" ∷ "blocked" ∷ "cancelled" ∷ []

abbrev pub resumable_statuses : List String
resumable_statuses = "blocked" ∷ "failed" ∷ "timed_out" ∷ []

module _ {F : Type 0} where
  -- `d.get(key, default)`
  abbrev pub get_or : Fields F → String → Value F → Value F
  get_or d key default = elim (lookup key d) [ none ↦ default | some v ↦ v ]

  -- `v == s` of a text
  abbrev pub is_text : Value F → String → Bool
  is_text (str t) s = t == s
  is_text v s = false

  -- `v in statuses`: `none` is TypeError
  abbrev pub in_statuses : Value F → List String → Option Bool
  in_statuses (str s) statuses = some (contains s statuses)
  in_statuses v statuses = if is_hashable v then some false else none

  -- `_last_run_status`
  unfoldable pub last_run_status : List (Event F) → Value F
  last_run_status [] = str "created"
  last_run_status (e ∷ older) =
      let rest = last_run_status older in
      if e.event_type == "run.review_submitted"
      then str "review_submitted"
      else if e.event_type == "run.engine_turn"
      then get_or e.payload "status" (str "failed")
      else if e.event_type == "run.running"
      then str "running"
      else rest

  -- `_last_engine_turn`
  unfoldable pub last_engine_turn : List (Event F) → Option (Fields F)
  last_engine_turn [] = none
  last_engine_turn (e ∷ older) =
      let rest = last_engine_turn older in
      if e.event_type == "run.engine_turn" then some e.payload else rest

  abbrev pub or_newer : Option (Fields F) → Option (Fields F) → Option (Fields F)
  or_newer none newer = newer
  or_newer (some payload) newer = some payload

  -- the payload of the oldest event of a type
  unfoldable pub first_of : String → List (Event F) → Option (Fields F)
  first_of type [] = none
  first_of type (e ∷ older) =
      or_newer (first_of type older) (if e.event_type == type then some e.payload else none)

  -- the payload of the newest event of a type
  unfoldable pub newest_of : String → List (Event F) → Option (Fields F)
  newest_of type [] = none
  newest_of type (e ∷ older) =
      let rest = newest_of type older in if e.event_type == type then some e.payload else rest

  -- `_find_review_submission`
  unfoldable pub find_review_submission : String → List (Event F) → Option (Fields F)
  find_review_submission key [] = none
  find_review_submission key (e ∷ older) = or_newer (find_review_submission key older) (
      if e.event_type == "run.review_submitted" && is_text (get e.payload "idempotency_key") key
      then some e.payload
      else none)

  abbrev pub or_empty : Option (Fields F) → Fields F
  or_empty none = end
  or_empty (some d) = d

  -- `_find_run`, among the sessions that have a run id
  unfoldable pub find_run : List (Session F) → String → Option (Session F)
  unfolding has
  find_run [] run_id = none
  find_run (s ∷ sessions) run_id =
      let rest = find_run sessions run_id in
      if has s.created "run_id" && is_text (get s.created "run_id") run_id then some s else rest

  -- the run of a session holds its issue: `none` is TypeError
  unfoldable pub holds_claim : Session F → Option Bool
  unfolding last_run_status
  holds_claim s =
      let status = last_run_status s.events in
      elim (in_statuses status terminal_statuses) [
        | none ↦ none
        | some ended ↦ some (not ended && not (is_text status "review_submitted"))
      ]

  abbrev pub after_claim :
      Session F → Option Bool → Option (Option (Session F)) → Option (Option (Session F))
  after_claim s none rest = none
  after_claim s (some true) rest = some (some s)
  after_claim s (some false) rest = rest

  -- `_active_run_for_issue`: the outer `none` is TypeError
  unfoldable pub active_run_for_issue : List (Session F) → String → Option (Option (Session F))
  unfolding holds_claim has
  active_run_for_issue [] issue_ref = some none
  active_run_for_issue (s ∷ sessions) issue_ref =
      let rest = active_run_for_issue sessions issue_ref in
      if has s.created "run_id" && is_text (get s.created "issue_id") issue_ref
      then after_claim s (holds_claim s) rest
      else rest

pub record Identity (F : Type 0) : Type 0 where
  pub run_id : Value F
  pub issue_ref : Value F
  pub engine_id : Value F
  pub profile : Value F
  pub session_id : Value F
  pub scope_fingerprint : Value F
  pub worktree : Value F
  pub status : Value F
  pub max_runtime_seconds : Value F
  pub max_cost_usd : Value F
  pub worker_role : Value F

module _ (p : Platform) where
  -- `a or b`
  abbrev pub or_value : Value p.Float → Value p.Float → Value p.Float
  or_value a b = if truthy p a then a else b

  -- `_run_identity`
  unfoldable pub run_identity : Session p.Float → Identity p.Float
  unfolding last_engine_turn first_of last_run_status
  run_identity s =
      let run_created = or_empty (first_of "run.created" s.events) in
      let turn = or_empty (last_engine_turn s.events) in
      record {
        run_id = get s.created "run_id";
        issue_ref = get s.created "issue_id";
        engine_id =
            or_value (or_value (get turn "engine_id") (get s.created "runtime")) (str "hermes");
        profile =
            or_value (or_value (get turn "profile") (get run_created "profile")) (str "builder");
        session_id = get turn "session_id";
        scope_fingerprint = get run_created "scope_fingerprint";
        worktree = get run_created "worktree";
        status = last_run_status s.events;
        max_runtime_seconds = get run_created "max_runtime_seconds";
        max_cost_usd = get run_created "max_cost_usd";
        worker_role = get s.created "worker_role";
      }
