-- ===== src/Supervisor/Budget.antt =====
-- agent-platform/supervisor/budget.py, and `RLMConfig` of
-- agent-platform/reasoning/recursive/bounds.py with the bounds that `validate` lets pass, which
-- are not negative. The number of children is at least 1: for 0 the code raises.
pub mod Shares
use cortxt.Prelude.{ℕ, zero, suc, ◌+◌, ◌-◌, ◌/◌, ◌%◌, Bool, List, [], ◌∷◌, ltb, leb, if◌then◌else◌}
use cortxt.Platform.{Platform}

-- `reclaimable_surplus`
unfoldable pub reclaimable_surplus : ℕ → ℕ → ℕ
reclaimable_surplus child_allocated child_spent =
    if leb child_allocated child_spent then 0 else child_allocated - child_spent

-- `next_child_budget`
unfoldable pub next_child_budget : ℕ → ℕ → ℕ
next_child_budget base_allocation reclaimed_surplus = base_allocation + reclaimed_surplus

-- `[f(i) for i in range(first, first + count)]`
unfoldable pub for_range {ℓ} : {A : Type ℓ} → (ℕ → A) → ℕ → ℕ → List A
for_range f first zero = []
for_range f first (suc count) = f first ∷ for_range f (suc first) count

abbrev pub share : ℕ → ℕ → ℕ → ℕ
share base remainder i = base + (if ltb i remainder then 1 else 0)

-- `_split_int`
unfoldable pub split_int : ℕ → ℕ → List ℕ
split_int total n = for_range (share (total / n) (total % n)) 0 n

-- the entry at an index that is in range
unfoldable pub item {ℓ} : {A : Type ℓ} → A → List A → ℕ → A
item default [] i = default
item default (x ∷ xs) zero = x
item default (x ∷ xs) (suc i) = item default xs i

module _ (p : Platform) where
  open p use {Float, add, sub, div_int, zero_float}

  -- `sum(xs)` after the first addends
  unfoldable pub sum_float : Float → List Float → Float
  sum_float acc [] = acc
  sum_float acc (x ∷ xs) = sum_float (add acc x) xs

  abbrev add_first : Float → List Float → List Float
  add_first d [] = []
  add_first d (x ∷ xs) = add x d ∷ xs

  -- `_split_float`
  unfoldable pub split_float : Float → ℕ → List Float
  unfolding for_range sum_float
  split_float total n =
      let shares = for_range (λ i. div_int total n) 0 n in
      add_first (sub total (sum_float zero_float shares)) shares

  pub record RlmConfig : Type 0 where
    pub max_depth : ℕ
    pub max_branches_per_node : ℕ
    pub max_total_children : ℕ
    pub max_model_invocations : ℕ
    pub max_context_reads : ℕ
    pub max_runtime_seconds : Float
    pub max_cost : Float
    pub max_output_size : ℕ
    pub explicit_stop_policy : Bool

  -- `split_rlm_config`
  unfoldable pub split_rlm_config : RlmConfig → ℕ → List RlmConfig
  split_rlm_config config n =
      let total_children = split_int (config.max_total_children - n) n in
      let model_invocations = split_int config.max_model_invocations n in
      let context_reads = split_int config.max_context_reads n in
      let runtime_seconds = split_float config.max_runtime_seconds n in
      let cost = split_float config.max_cost n in
      let output_size = split_int config.max_output_size n in
      for_range
        (λ i. record {
          max_depth = config.max_depth;
          max_branches_per_node = config.max_branches_per_node;
          max_total_children = item 0 total_children i;
          max_model_invocations = item 0 model_invocations i;
          max_context_reads = item 0 context_reads i;
          max_runtime_seconds = item zero_float runtime_seconds i;
          max_cost = item zero_float cost i;
          max_output_size = item 0 output_size i;
          explicit_stop_policy = config.explicit_stop_policy;
        })
        0 n
