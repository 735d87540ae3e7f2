-- ===== src/Inference/BudgetGate.antt =====
-- `BudgetGate` of agent-platform/adapters/inference/budget_gate.py: the spend table as a list of rows,
-- newest first. A reading or a writing of the database may fail.
pub mod Ceiling
use cortxt.Prelude.{
  ℕ, suc, ◌+◌, ◌-◌, ℤ, pos, pos_part, neg_part, String, Bool, true, false, Option, none, some, List,
  [], ◌∷◌, ◌==◌, leb, if◌then◌else◌,
}

-- a row of `fas2a_inference_spend`, without its time stamp
pub record SpendRow : Type 0 where
  pub task_id : String
  pub cost_status : String
  pub latency_ms : ℕ
  pub route_id : String
  pub selected_route_id : Option String

pub record Gate : Type 0 where
  pub max_calls : ℤ
  pub last_task_id : Option String
  pub route_id : String

-- The ceiling: the argument, or the environment's digits, over `str.isdigit` and `int`. `none` is
-- ValueError.
unfoldable pub ceiling : (String → Bool) → (String → Option ℤ) → Option ℤ → Option String → Option ℤ
ceiling is_digits int_of (some max_calls) raw = some max_calls
ceiling is_digits int_of none none = some (pos 0)
ceiling is_digits int_of none (some raw) = if is_digits raw then int_of raw else some (pos 0)

-- `__init__`
abbrev pub open_gate : ℤ → Gate
open_gate max_calls = record { max_calls = max_calls; last_task_id = none; route_id = "l0-default" }

abbrev pub set_task_id : String → Gate → Gate
set_task_id task_id gate = record gate { last_task_id = some task_id }

abbrev pub set_route_id : String → Gate → Gate
set_route_id route_id gate = record gate { route_id = route_id }

-- the rows of started attempts
unfoldable pub attempts : List SpendRow → ℕ
attempts [] = 0
attempts (row ∷ rows) =
    let rest = attempts rows in if row.cost_status == "attempt_started" then suc rest else rest

-- `_count_spend`: what cannot be read counts as the ceiling
abbrev pub count_spend : Bool → Gate → List SpendRow → ℤ
count_spend true gate rows = pos (attempts rows)
count_spend false gate rows = gate.max_calls

-- `remaining`: the difference, or 0 below it
unfoldable pub remaining : Bool → Gate → List SpendRow → ℕ
unfolding attempts
remaining readable gate rows =
    let spent = count_spend readable gate rows in
    (pos_part gate.max_calls + neg_part spent) - (pos_part spent + neg_part gate.max_calls)

-- `task_id or self._last_task_id or ""`
abbrev first_named : Option String → String
first_named none = ""
first_named (some s) = s

-- `record` for the gate's own route
abbrev pub spend_row : Gate → String → ℕ → SpendRow
spend_row gate cost_status latency_ms = record {
  task_id = first_named gate.last_task_id;
  cost_status = cost_status;
  latency_ms = latency_ms;
  route_id = gate.route_id;
  selected_route_id = some gate.route_id;
}

-- What one call meets: whether the spend can be read, whether each of the two rows can be written,
-- what `invoke` returns, where `none` is an exception, and how long it takes.
pub record Call (A : Type 0) : Type 0 where
  pub readable : Bool
  pub start_written : Bool
  pub result : Option A
  pub latency_ms : ℕ
  pub end_written : Bool

-- BudgetExhausted, a failure of the database before or after `invoke`, the exception of `invoke`,
-- or the result
pub data Outcome (A : Type 0) : Type 0 where
  budget_exhausted : Outcome A
  start_failed : Outcome A
  end_failed : Outcome A
  invoke_failed : Outcome A
  returned : A → Outcome A

-- what `invoke` gives, and its row when that can be written
unfoldable pub finish :
    {A : Type 0} → Gate → Option A → ℕ → Bool → List SpendRow → Outcome A × List SpendRow
finish gate result latency_ms false rows = (end_failed, rows)
finish gate none latency_ms true rows = (invoke_failed, spend_row gate "failed" latency_ms ∷ rows)
finish gate (some a) latency_ms true rows = (returned a, spend_row gate "success" latency_ms ∷ rows)

-- the row of the attempt, when that can be written, then `invoke`
unfoldable pub attempt :
    {A : Type 0} → Gate → Call A → Bool → List SpendRow → Outcome A × List SpendRow
unfolding finish
attempt gate call false rows = (start_failed, rows)
attempt gate call true rows =
    finish gate call.result call.latency_ms call.end_written
      (spend_row gate "attempt_started" 0 ∷ rows)

-- `__call__`
unfoldable pub call_gate : {A : Type 0} → Gate → Call A → List SpendRow → Outcome A × List SpendRow
unfolding remaining attempt
call_gate gate call rows =
    if leb 1 (remaining call.readable gate rows)
    then attempt gate call call.start_written rows
    else (budget_exhausted, rows)
