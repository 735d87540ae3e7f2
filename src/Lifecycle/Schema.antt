-- ===== src/Lifecycle/Schema.antt =====
-- The argument schemas of agent-platform/cortxt_mcp/run_lifecycle.py, and its identifiers.
pub mod Types
use cortxt.Prelude.{
  ℕ, zero, suc, ℤ, pos, String, Bool, true, false, ◌&&◌, ◌||◌, not, Option, none, some, List, [],
  ◌∷◌, ◌==◌, leb, ltb, eqb, length, codes, all, any, contains, map, is_some, if◌then◌else◌,
}
use cortxt.Value.{
  Value, Items, Fields, null, bool, int, float, str, arr, obj, nil, cons, end, field, keys_within,
  has_all,
}
use cortxt.Platform.{Platform}

-- What the schemas use of floats beside the platform.
pub record Floats (F : Type 0) : Type 0 where
  pub is_integer : F → Bool
  pub is_finite : F → Bool

pub data Shape : Type 0 where
  object array string integer number : Shape

-- a property of a schema; `nullable` is a list of types with "null"
pub record Property : Type 0 where
  pub shape : Shape
  pub nullable : Bool
  pub string_items : Bool
  pub min_items : ℕ
  pub min_length : ℕ
  pub pattern : Option String
  pub enum : Option (List String)
  pub minimum : Option ℕ

pub record Schema : Type 0 where
  pub properties : List (String × Property)
  pub required : List String

abbrev pub plain : Shape → Property
plain shape = record {
  shape = shape;
  nullable = false;
  string_items = false;
  min_items = 0;
  min_length = 0;
  pattern = none;
  enum = none;
  minimum = none;
}

abbrev nonempty_text : Property
nonempty_text = record (plain string) { min_length = 1 }

abbrev optional_text : Property
optional_text = record (plain string) { nullable = true }

abbrev at_least : Shape → ℕ → Property
at_least shape n = record (plain shape) { minimum = some n }

abbrev run_id_text : Property
run_id_text = record (plain string) { pattern = some "^[0-9]{8}T[0-9]{6}Z_[0-9a-f]{8}$" }

abbrev pub create_schema : Schema
create_schema = record {
  properties =
      ("issue_ref", plain string)
      ∷ ("task_id", plain string)
      ∷ ("workflow", plain string)
      ∷ ("worker_role", plain string)
      ∷ ("scope", nonempty_text)
      ∷ ("acceptance_criteria", record (plain array) { string_items = true; min_items = 1 })
      ∷ ("engine_id", plain string)
      ∷ ("profile", plain string)
      ∷ ("max_runtime_seconds", at_least integer 1)
      ∷ ("max_cost_usd", at_least number 0)
      ∷ ("max_parallel_workers", at_least integer 1)
      ∷ ("delegation_depth", at_least integer 0)
      ∷ ("artifact_policy", plain object)
      ∷ ("approval_ref", plain string)
      ∷ ("data_class", plain string)
      ∷ ("estimated_cost_usd", at_least number 0)
      ∷ ("prompt", nonempty_text)
      ∷ ("model", optional_text)
      ∷ ("provider", optional_text)
      ∷ ("worktree", optional_text)
      ∷ [];
  required =
      "issue_ref" ∷ "task_id" ∷ "workflow" ∷ "worker_role" ∷ "scope" ∷ "acceptance_criteria"
      ∷ "engine_id" ∷ "profile" ∷ "max_runtime_seconds" ∷ "max_cost_usd" ∷ "max_parallel_workers"
      ∷ "delegation_depth" ∷ "artifact_policy" ∷ "approval_ref" ∷ "data_class"
      ∷ "estimated_cost_usd" ∷ "prompt" ∷ [];
}

abbrev pub resume_schema : Schema
resume_schema = record {
  properties =
      ("run_id", run_id_text)
      ∷ ("issue_ref", plain string)
      ∷ ("prompt", nonempty_text)
      ∷ ("max_runtime_seconds", at_least integer 1)
      ∷ ("data_class", plain string)
      ∷ ("estimated_cost_usd", at_least number 0)
      ∷ ("model", optional_text)
      ∷ ("provider", optional_text)
      ∷ [];
  required =
      "run_id" ∷ "issue_ref" ∷ "prompt" ∷ "max_runtime_seconds" ∷ "data_class"
      ∷ "estimated_cost_usd" ∷ [];
}

abbrev pub review_schema : Schema
review_schema = record {
  properties =
      ("run_id", run_id_text)
      ∷ ("issue_ref", plain string)
      ∷ ("result", plain object)
      ∷ ("review_kind", record (plain string) { enum = some ("independent" ∷ []) })
      ∷ ("idempotency_key", nonempty_text)
      ∷ ("data_class", plain string)
      ∷ ("estimated_cost_usd", at_least number 0)
      ∷ ("max_runtime_seconds", at_least integer 0)
      ∷ [];
  required =
      "run_id" ∷ "issue_ref" ∷ "result" ∷ "review_kind" ∷ "idempotency_key" ∷ "data_class" ∷ [];
}

abbrev pub status_schema : Schema
status_schema = record {
  properties = ("run_id", run_id_text) ∷ ("issue_ref", plain string) ∷ [];
  required = "run_id" ∷ [];
}

pub data Tool : Type 0 where
  run_create run_resume run_submit_for_review run_status : Tool

-- `TOOL_SCHEMAS`
abbrev pub tool_schema : Tool → Schema
tool_schema run_create = create_schema
tool_schema run_resume = resume_schema
tool_schema run_submit_for_review = review_schema
tool_schema run_status = status_schema

unfoldable pub property_of : String → List (String × Property) → Option Property
property_of key [] = none
property_of key ((name, property) ∷ properties) =
    if name == key then some property else property_of key properties

abbrev pub given : {A : Type 0} → Option A → (A → Bool) → Bool
given none test = true
given (some a) test = test a

module _ (p : Platform) (floats : Floats p.Float) where
  abbrev texts_only : Items p.Float → Bool
  texts_only nil = true
  texts_only (cons (str s) items) = texts_only items
  texts_only (cons v items) = false

  abbrev count : Items p.Float → ℕ
  count nil = 0
  count (cons v items) = suc (count items)

  -- a number that `float` takes, finite and not below the minimum
  abbrev valid_float : Property → Option p.Float → Bool
  valid_float property none = false
  valid_float property (some x) =
      floats.is_finite x && given property.minimum (λ n. not (p.below x (pos n)))

  abbrev valid_array : Property → Items p.Float → Bool
  valid_array property items =
      (not property.string_items || texts_only items) && leb property.min_items (count items)

  abbrev valid_string : Property → String → Bool
  valid_string property s =
      leb property.min_length (length (codes s))
      && given property.pattern (λ pattern. p.regex_search pattern s)
      && given property.enum (contains s)

  -- `_validate_value` of a value that is not None
  abbrev valid_shape : Shape → Property → Value p.Float → Bool
  valid_shape object property (obj d) = true
  valid_shape array property (arr items) = valid_array property items
  valid_shape string property (str s) = valid_string property s
  valid_shape integer property (int i) = valid_float property (p.of_int i)
  valid_shape integer property (float x) = floats.is_integer x && valid_float property (some x)
  valid_shape number property (int i) = valid_float property (p.of_int i)
  valid_shape number property (float x) = valid_float property (some x)
  valid_shape _ property v = false

  -- `_validate_value`: whether it does not raise
  unfoldable pub valid_value : Property → Value p.Float → Bool
  valid_value property null = property.nullable
  valid_value property v = valid_shape property.shape property v

  -- the loop over the arguments, whose keys are all properties
  unfoldable pub valid_values : List (String × Property) → Fields p.Float → Bool
  unfolding property_of valid_value
  valid_values properties end = true
  valid_values properties (field key v d) =
      given (property_of key properties) (λ property. valid_value property v)
      && valid_values properties d

  -- `validate_schema` of a dictionary: whether it does not raise InvalidArgumentsError
  unfoldable pub validate_schema : Tool → Fields p.Float → Bool
  unfolding valid_values
  validate_schema tool arguments =
      let schema = tool_schema tool in
      keys_within (map (λ entry. entry.0) schema.properties) arguments
      && has_all schema.required arguments
      && valid_values schema.properties arguments

abbrev is_digit : ℕ → Bool
is_digit c = leb b'0' c && leb c b'9'

abbrev is_hex : ℕ → Bool
is_hex c = is_digit c || leb b'a' c && leb c b'f'

abbrev is_name_char : ℕ → Bool
is_name_char c =
    leb b'A' c && leb c b'Z'
    || leb b'a' c && leb c b'z'
    || is_digit c
    || eqb c b'_'
    || eqb c b'.'
    || eqb c b'-'

-- the first `n` characters, all of the class, and what follows
abbrev skip : (ℕ → Bool) → ℕ → List ℕ → Option (List ℕ)
skip test zero cs = some cs
skip test (suc n) [] = none
skip test (suc n) (c ∷ cs) = let rest = skip test n cs in if test c then rest else none

abbrev and_then : Option (List ℕ) → (List ℕ → Option (List ℕ)) → Option (List ℕ)
and_then none next = none
and_then (some cs) next = next cs

abbrev at_end : Option (List ℕ) → Bool
at_end (some []) = true
at_end _ = false

-- `RUN_ID_RE.fullmatch`
unfoldable pub matches_run_id : String → Bool
matches_run_id s = at_end (
    and_then
      (and_then
        (and_then (and_then (skip is_digit 8 (codes s)) (skip (eqb b'T') 1)) (skip is_digit 6))
        (skip (eqb b'Z') 1))
      (λ cs. and_then (skip (eqb b'_') 1 cs) (skip is_hex 8)))

-- `[…]+` up to a separator, which is not of the class
abbrev name_until : ℕ → Bool → List ℕ → Option (List ℕ)
name_until separator started [] = none
name_until separator started (c ∷ cs) =
    let rest = name_until separator true cs in
    if is_name_char c then rest else if started && eqb c separator then some cs else none

abbrev digits : List ℕ → Bool
digits [] = false
digits (c ∷ cs) = all is_digit (c ∷ cs)

abbrev ends_in_digits : Option (List ℕ) → Bool
ends_in_digits none = false
ends_in_digits (some cs) = digits cs

-- `ISSUE_REF_RE.fullmatch`
unfoldable pub matches_issue_ref : String → Bool
matches_issue_ref s =
    ends_in_digits (and_then (name_until b'/' false (codes s)) (name_until b'#' false))
