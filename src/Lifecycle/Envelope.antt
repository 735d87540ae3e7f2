-- ===== src/Lifecycle/Envelope.antt =====
-- The result envelopes of agent-platform/cortxt_mcp/run_lifecycle.py, and what it keeps of an engine's
-- result. A cost is a float, and an artifact a reference with an optional digest.
use cortxt.Prelude.{String, ◌&&◌, not, Option, none, some, List, [], ◌∷◌, contains, if◌then◌else◌}
use cortxt.Value.{
  Value, Items, Fields, null, int, float, str, arr, obj, nil, cons, end, get, as_str,
}
use cortxt.Platform.{Platform}
use cortxt.Lifecycle.Schema.{Floats}
use cortxt.Lifecycle.Runs.{terminal_statuses, get_or, or_value, Identity}

pub record Artifact : Type 0 where
  pub ref : String
  pub sha256 : Option String

abbrev add_artifact : Option Artifact → List Artifact → List Artifact
add_artifact none artifacts = artifacts
add_artifact (some a) artifacts = a ∷ artifacts

abbrev pub shown_statuses : List String
shown_statuses = "created" ∷ "running" ∷ terminal_statuses

module _ {F : Type 0} where
  -- `_normalize_artifact`: `none` is InvalidArgumentsError
  unfoldable normalize_artifact : Value F → Option Artifact
  normalize_artifact (str s) = some record { ref = s; sha256 = none }
  normalize_artifact (obj d) = elim (as_str (get d "ref")) [
    | none ↦ none
    | some ref ↦ some record { ref = ref; sha256 = as_str (get d "sha256") }
  ]
  normalize_artifact v = none

  unfoldable artifacts_of : Items F → List Artifact
  unfolding normalize_artifact
  artifacts_of nil = []
  artifacts_of (cons v items) = add_artifact (normalize_artifact v) (artifacts_of items)

  -- `_safe_artifacts`
  unfoldable pub safe_artifacts : Value F → List Artifact
  unfolding artifacts_of
  safe_artifacts (arr items) = artifacts_of items
  safe_artifacts v = []

  -- `v if isinstance(v, dict) else {}`, and the same of a list and of None
  abbrev pub dict_or_empty : Value F → Value F
  dict_or_empty (obj d) = obj d
  dict_or_empty v = obj end

  abbrev pub list_or_empty : Value F → Value F
  list_or_empty (arr items) = arr items
  list_or_empty v = arr nil

  abbrev pub dict_or_none : Value F → Value F
  dict_or_none (obj d) = obj d
  dict_or_none v = null

  -- `_result_status`: `none` is InvalidArgumentsError
  unfoldable pub result_status : Fields F → Option String
  result_status result = elim (as_str (get result "status")) [
    | none ↦ none
    | some status ↦ if contains status terminal_statuses then some status else none
  ]

  -- the status of an envelope
  unfoldable pub shown_status : Value F → String
  shown_status (str s) = if contains s shown_statuses then s else "failed"
  shown_status v = "failed"

pub record Review (F : Type 0) : Type 0 where
  pub review_id : Value F
  pub kind : String
  pub status : String
  pub submitted_at : Value F

-- The envelope; `issue_id`, `worker_role` and the like are what the stored payloads hold.
pub record Envelope (F : Type 0) : Type 0 where
  pub issue_id : Value F
  pub run_id : Value F
  pub status : String
  pub runtime : Value F
  pub worker_role : Value F
  pub started_at : Value F
  pub finished_at : Value F
  pub model : Value F
  pub usage : Value F
  pub cost : F
  pub cost_currency : String
  pub cost_status : Value F
  pub artifacts : List Artifact
  pub evidence : Value F
  pub error : Value F
  pub session_id : Value F
  pub review : Option (Review F)

abbrev append_text : String → String → String
append_text String.[] t = t
append_text (String.◌∷◌ c s) t = String.◌∷◌ c (append_text s t)

-- `f"{engine_id}/v0.1"` of an engine id, which is a text
abbrev pub runtime_of : {F : Type 0} → Value F → Value F
runtime_of (str s) = str (append_text s "/v0.1")
runtime_of v = v

module _ (p : Platform) (floats : Floats p.Float) where
  abbrev finite_or_zero : p.Float → p.Float
  finite_or_zero x = if floats.is_finite x then x else p.zero_float

  -- `_safe_cost`: `none` is OverflowError
  unfoldable pub safe_cost : Value p.Float → Option p.Float
  safe_cost (int i) = elim (p.of_int i) [ none ↦ none | some x ↦ some (finite_or_zero x) ]
  safe_cost (float x) = some (finite_or_zero x)
  safe_cost v = some p.zero_float

  abbrev checked_cost : Option p.Float → Option p.Float
  checked_cost none = none
  checked_cost (some x) =
      if floats.is_finite x && not (p.lt_float x p.zero_float) then some x else none

  -- `_result_cost`: `none` is InvalidArgumentsError, or OverflowError
  unfoldable pub result_cost : Fields p.Float → Option p.Float
  result_cost result = elim (get_or result "cost" (float p.zero_float)) [
    | int i ↦ checked_cost (p.of_int i)
    | float x ↦ checked_cost (some x)
    | _ ↦ none
  ]

  -- what `_envelope` is given beside the result; `runtime` is `f"{engine_id}/v0.1"`
  pub record Shown : Type 0 where
    pub issue_ref : Value p.Float
    pub run_id : Value p.Float
    pub session_id : Value p.Float
    pub runtime : Value p.Float
    pub profile : Value p.Float
    pub worker_role : Value p.Float
    pub started_at : Value p.Float
    pub model : Value p.Float
    pub finished_at : Value p.Float

  -- `_envelope` with a cost that could be read
  unfoldable pub envelope_of : Shown → Fields p.Float → p.Float → Envelope p.Float
  unfolding shown_status safe_artifacts
  envelope_of s result cost = record {
    issue_id = s.issue_ref;
    run_id = s.run_id;
    status = shown_status (get result "status");
    runtime = s.runtime;
    worker_role = or_value p s.profile s.worker_role;
    started_at = s.started_at;
    finished_at = s.finished_at;
    model = or_value p (get result "model") s.model;
    usage = dict_or_empty (get result "usage");
    cost = cost;
    cost_currency = "USD";
    cost_status = get_or result "cost_status" (str "unknown");
    artifacts = safe_artifacts (get result "artifacts");
    evidence = list_or_empty (get result "evidence");
    error = dict_or_none (get result "error");
    session_id = s.session_id;
    review = none;
  }

  -- `_envelope`: `none` is OverflowError
  unfoldable pub envelope : Shown → Fields p.Float → Option (Envelope p.Float)
  unfolding safe_cost envelope_of
  envelope s result = elim (safe_cost (get result "cost")) [
    | none ↦ none
    | some cost ↦ some (envelope_of s result cost)
  ]

  -- `_review_envelope`, at the time `now`
  unfoldable pub review_envelope :
      Identity p.Float → Value p.Float → Value p.Float → String → Envelope p.Float
  review_envelope identity submission_id submitted_at now = record {
    issue_id = identity.issue_ref;
    run_id = identity.run_id;
    status = "succeeded";
    runtime = str "cortxt-mcp/v0.1";
    worker_role = or_value p identity.worker_role (str "coordinator");
    started_at = null;
    finished_at = str now;
    model = null;
    usage = obj end;
    cost = p.zero_float;
    cost_currency = "USD";
    cost_status = str "unknown";
    artifacts = [];
    evidence = arr nil;
    error = null;
    session_id = identity.session_id;
    review = some record {
      review_id = submission_id;
      kind = "independent";
      status = "submitted";
      submitted_at = submitted_at;
    };
  }
