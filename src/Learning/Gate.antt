-- ===== src/Learning/Gate.antt =====
-- `PromotionGate` of agent-platform/learning/promotion_gate.py and `AddonReviewGate` of
-- agent-platform/learning/addon_review.py. An exception that leaves a method is a result.
pub mod Verdicts
use Prim.Native.Char.{code}
use cortxt.Prelude.{
  ℕ, zero, ℤ, pos, String, Bool, true, false, ◌&&◌, ◌||◌, not, Option, none, some, List, [], ◌∷◌,
  ◌++◌, ltb_ℤ, eqb, ◌==◌, contains, any, strip_text, lstrip_text, rstrip_text, if◌then◌else◌,
}
use cortxt.Value.{
  Value, Fields, Items, null, bool, int, float, str, arr, obj, nil, cons, end, field, lookup, get,
}
use cortxt.Platform.{Platform}
use cortxt.Dict as Dict

pub record Rule (F : Type 0) : Type 0 where
  pub candidate_type : String
  pub kind : String
  pub metric : Option String
  pub threshold : Option F
  pub comparator : String
  pub operator_scope : Option String

pub data Verdict : Type 0 where
  promote await_operator reject raises : Verdict

abbrev pub mandatory_operator_gates : List String
mandatory_operator_gates = "tool" ∷ "addon" ∷ []

-- `text.split("@", 1)[0]`
unfoldable pub before_at : String → String
before_at String.[] = String.[]
before_at (String.◌∷◌ c s) =
    let rest = before_at s in if eqb (code c) b'@' then "" else String.◌∷◌ c rest

-- the three results of a comparison: Python's answer, TypeError, ValueError
pub data Comparison : Type 0 where
  answers : Bool → Comparison
  type_error value_error : Comparison

-- `candidate_id.split("@", 1)[0].strip().lower()`
unfoldable pub candidate_type_of : (String → String) → String → String
candidate_type_of to_lower id = to_lower (strip_text (before_at id))

module _ (p : Platform) where
  open p use {Float, zero_float, eq_float, le_float, lt_float, eq_int, exceeds, below}

  -- `bool(v)`
  abbrev pub truthy : Value Float → Bool
  truthy null = false
  truthy (bool b) = b
  truthy (int (pos zero)) = false
  truthy (int n) = true
  truthy (float x) = not (eq_float x zero_float)
  truthy (str s) = not (s == "")
  truthy (arr nil) = false
  truthy (arr xs) = true
  truthy (obj end) = false
  truthy (obj d) = true

  -- `i >= x`, `i > x`, `i <= x`, `i == x` of an int and a float
  abbrev compare_int : ℤ → Float → String → Comparison
  compare_int i x op =
      if op == "gte"
      then answers (below x i || eq_int i x)
      else if op == "gt"
      then answers (below x i)
      else if op == "lte"
      then answers (exceeds x i || eq_int i x)
      else if op == "eq"
      then answers (eq_int i x)
      else value_error

  abbrev compare_float : Float → Float → String → Comparison
  compare_float y x op =
      if op == "gte"
      then answers (le_float x y)
      else if op == "gt"
      then answers (lt_float x y)
      else if op == "lte"
      then answers (le_float y x)
      else if op == "eq"
      then answers (eq_float y x)
      else value_error

  -- of a value that no number is compared with
  abbrev compare_other : String → Comparison
  compare_other op =
      if op == "gte" || op == "gt" || op == "lte"
      then type_error
      else if op == "eq"
      then answers false
      else value_error

  -- `_compare`
  unfoldable pub compare : Value Float → Float → String → Comparison
  compare (bool b) x op = compare_int (pos (if b then 1 else 0)) x op
  compare (int i) x op = compare_int i x op
  compare (float y) x op = compare_float y x op
  compare v x op = compare_other op

  -- `v == x`
  unfoldable pub equals : Value Float → Float → Bool
  equals (bool b) x = eq_int (pos (if b then 1 else 0)) x
  equals (int i) x = eq_int i x
  equals (float y) x = eq_float y x
  equals v x = false

  -- `rule.threshold or 0.0`
  abbrev pub threshold_of : Option Float → Float
  threshold_of none = zero_float
  threshold_of (some x) = if eq_float x zero_float then zero_float else x

  -- `matrix.get(rule.metric)`: no key is None
  abbrev pub metric_value : Fields Float → Option String → Value Float
  metric_value matrix none = null
  metric_value matrix (some name) = get matrix name

  abbrev pub is_null : Value Float → Bool
  is_null null = true
  is_null v = false

  abbrev pub is_bool : Bool → Value Float → Bool
  is_bool true (bool b) = b
  is_bool false (bool b) = not b
  is_bool b v = false

  -- `none`: the rule passes and the loop goes on
  unfoldable pub eval_rule : Value Float → Float → String → Option Verdict
  unfolding compare equals
  eval_rule v x op = if is_null v then some reject else elim (compare v x op) [
    | type_error ↦ some raises
    | value_error ↦ some reject
    | answers true ↦ none
    | answers false ↦ if equals v x then some await_operator else some reject
  ]

  abbrev pub named : Option String → Option String
  named none = none
  named (some s) = if s == "" then none else some s

  unfoldable pub safety_rule : Fields Float → Option String → Option Verdict
  safety_rule matrix metric = elim (named metric) [
    | some name ↦ if is_bool false (get matrix name) then some reject else none
    | none ↦ if is_bool true (get matrix "no_regression") then none else some reject
  ]

  unfoldable pub check_rule : Fields Float → Rule Float → Option Verdict
  check_rule matrix rule =
      if rule.kind == "eval"
      then eval_rule (metric_value matrix rule.metric) (threshold_of rule.threshold) rule.comparator
      else if rule.kind == "safety"
      then safety_rule matrix rule.metric
      else some reject

  -- the loop
  unfoldable pub check_rules : Fields Float → List (Rule Float) → Verdict
  check_rules matrix [] = promote
  check_rules matrix (rule ∷ rules) =
      let rest = check_rules matrix rules in
      elim (check_rule matrix rule) [ none ↦ rest | some verdict ↦ verdict ]

  abbrev pub operator_gate : String → Rule Float
  operator_gate type = record {
    candidate_type = type;
    kind = "operator_gate";
    metric = none;
    threshold = none;
    comparator = "gt";
    operator_scope = some type;
  }

  abbrev pub own_rules : Dict.Dict (List (Rule Float)) → String → List (Rule Float)
  own_rules registry type = elim (Dict.lookup type registry) [ none ↦ [] | some rules ↦ rules ]

  -- the registry's rules and the gate that no registry removes
  unfoldable pub rules_for : Dict.Dict (List (Rule Float)) → String → List (Rule Float)
  rules_for registry type =
      if contains type mandatory_operator_gates
      then own_rules registry type ++ (operator_gate type ∷ [])
      else own_rules registry type

  abbrev pub is_complete : Fields Float → Bool
  is_complete matrix = elim (lookup "complete" matrix) [ none ↦ true | some v ↦ truthy v ]

  unfoldable pub decide : Fields Float → List (Rule Float) → Verdict
  unfolding lookup
  decide matrix rules = if not (is_complete matrix) then reject else elim rules [
    | [] ↦ await_operator
    | r ∷ rs ↦
        if any (λ rule. rule.kind == "operator_gate") (r ∷ rs)
        then await_operator
        else check_rules matrix (r ∷ rs)
  ]

  -- `PromotionGate.evaluate`
  unfoldable pub evaluate : Dict.Dict (List (Rule Float)) → Fields Float → String → Verdict
  evaluate registry matrix id = decide matrix (rules_for registry (candidate_type_of p.lower id))

  -- `AddonReviewGate.submit`
  unfoldable pub submit : Dict.Dict (List (Rule Float)) → Fields Float → String → Verdict
  unfolding candidate_type_of get
  submit registry matrix id =
      if candidate_type_of p.lower id == "addon"
        && not (is_bool true (get matrix "codex_security_passed"))
      then reject
      else evaluate registry matrix id
