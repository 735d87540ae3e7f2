-- ===== src/Supervisor/Examples.antt =====
-- Concrete runs of the budget arithmetic.
use cortxt.Prelude.{ℕ, ◌-◌, ◌≡◌, true, arith}
use cortxt.Mandate.Samples.{whole}
use cortxt.Supervisor.Budget.{RlmConfig}
use cortxt.Supervisor.Budget.Shares.{total_of, split_disjoint}

abbrev config : RlmConfig whole
config = record {
  max_depth = 2;
  max_branches_per_node = 3;
  max_total_children = 6;
  max_model_invocations = 20;
  max_context_reads = 30;
  max_runtime_seconds = 60;
  max_cost = 1;
  max_output_size = 4096;
  explicit_stop_policy = true;
}

split_disjoint_example :
    (total_of whole (λ c. c.max_model_invocations) config 3 ≡ 20)
    × (total_of whole (λ c. c.max_context_reads) config 3 ≡ 30)
    × (total_of whole (λ c. c.max_output_size) config 3 ≡ 4096)
    × (total_of whole (λ c. c.max_total_children) config 3 ≡ 6 - 3)
split_disjoint_example = split_disjoint whole config 3 (omega arith)

-- what the first child spends
abbrev spent : ℕ
spent = 4
