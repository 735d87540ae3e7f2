-- ===== src/Reasoning/Examples.antt =====
-- A run over a nested list, for agent-platform/reasoning/recursive/rlm_engine.py, with the theorems
-- at it.
use cortxt.Prelude.{ℕ, ◌≤◌, ◌<◌, ◌+◌, pos, ◌≡◌, ◌⊎◌, refl, true, none, some, arith}
use cortxt.Value.{Value, int, arr, nil, cons, lookup}
use cortxt.Supervisor.Budget.{RlmConfig}
use cortxt.Mandate.Samples.{whole}
use cortxt.Reasoning.Engine.{
  accepted, Port, RlmRun, new_run, branches, decompose_state, integrate_results, challenge,
  spent_out, answered, leaf, judge, integrate, after_child, solve_children, expand, spend, solve,
  close, rlm_run,
}
use cortxt.Reasoning.Bounds.{rlm_run-IsWithin}
use cortxt.Reasoning.Ends.{solve-Ends, ends}

-- every call answers 1 and advances the clock by 2
abbrev port : Port ℕ ℕ
port = record { elapsed = λ w. (w, w + 2); infer = λ content w. (some (pos 1), w); width = λ v. 1 }

abbrev config : RlmConfig whole
config = record {
  max_depth = 2;
  max_branches_per_node = 3;
  max_total_children = 6;
  max_model_invocations = 20;
  max_context_reads = 30;
  max_runtime_seconds = 60;
  max_cost = 10;
  max_output_size = 4096;
  explicit_stop_policy = true;
}

-- two lists of numbers
abbrev nested : Value ℕ
nested = arr (cons (arr (cons (int (pos 1)) nil)) (cons (arr (cons (int (pos 2)) nil)) nil))

abbrev outcome : RlmRun whole
outcome = record {
  value = some (pos 2);
  run = record {
    stop_reason = accepted;
    model_invocations = 2;
    context_reads = 4;
    total_children = 2;
    cost = 2;
    output_length = 3;
  };
  elapsed_seconds = 6;
  output_length = 1;
}

outcome_reached : rlm_run whole port config 1 nested (some (pos 2)) 0 ≡ some outcome
unfolding rlm_run solve spend expand solve_children integrate judge after_child leaf answered
    spent_out decompose_state branches integrate_results challenge close lookup
outcome_reached = refl

rlm_run-IsWithin_example : (2 ≤ 20) × (2 ≤ 6) × ((outcome.value ≡ none) ⊎ (2 < 6))
rlm_run-IsWithin_example =
    rlm_run-IsWithin whole port config 1 nested (some (pos 2)) 0 outcome outcome_reached

solve-Ends_example :
    ends (solve whole port config 1 4 nested (some (pos 2)) 0 (new_run whole) 0).0 ≡ true
solve-Ends_example =
    solve-Ends whole port config 1 4 nested (some (pos 2)) 0 (new_run whole) 0 (omega arith)
      (omega arith)
