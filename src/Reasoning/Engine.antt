-- ===== src/Reasoning/Engine.antt =====
-- agent-platform/reasoning/recursive/: decomposer.py, integrator.py, challenger.py and rlm_engine.py.
-- Contents are JSON values that share no part. The log of a run is left out.
use cortxt.Prelude.{
  ℕ, zero, suc, ◌+◌, ◌-◌, ℤ, pos, ◌+ℤ◌, eqb_ℤ, String, Bool, true, false, ◌||◌, ◌&&◌, not, Option,
  none, some, List, [], ◌∷◌, ◌++◌, any, length, leb, ltb, is_some, if◌then◌else◌,
}
use cortxt.Value.{Value, Items, str, arr, obj, nil, cons, lookup}
use cortxt.Platform.{Platform}
use cortxt.Supervisor.Budget.{RlmConfig}

pub data StopReason : Type 0 where
  accepted low_info_gain budget_exhausted all_integrated contradiction policy_stop : StopReason

-- `items[:n]`
abbrev pub take {ℓ} : {A : Type ℓ} → ℕ → List A → List A
take zero xs = []
take (suc n) [] = []
take (suc n) (x ∷ xs) = x ∷ take n xs

module _ {F : Type 0} where
  abbrev is_structural : Value F → Bool
  is_structural (arr items) = true
  is_structural (obj d) = true
  is_structural v = false

  abbrev elements : Items F → List (Value F)
  elements nil = []
  elements (cons v items) = v ∷ elements items

  -- the characters of a text, each a text
  abbrev characters : String → List (Value F)
  characters String.[] = []
  characters (String.◌∷◌ c s) = str (String.◌∷◌ c String.[]) ∷ characters s

  -- what can be sliced: `none` is an exception
  abbrev sequence : Value F → Option (List (Value F))
  sequence (arr items) = some (elements items)
  sequence (str s) = some (characters s)
  sequence v = none

  -- the branches of a content before the caps: `none` is an exception
  unfoldable pub branches : Value F → Option (List (Value F))
  branches (obj d) = elim (lookup "branches" d) [ none ↦ some [] | some v ↦ sequence v ]
  branches (arr items) = some (if any is_structural (elements items) then elements items else [])
  branches v = some []

  -- `decompose_state`, for its children's contents
  unfoldable pub decompose_state : Value F → ℕ → ℕ → Option (List (Value F))
  unfolding branches
  decompose_state content max_branches_per_node max_children = elim (branches content) [
    | none ↦ none
    | some bs ↦ some (take max_children (take max_branches_per_node bs))
  ]

-- `integrate_results` of children that are lost or have a computed value: the total, and whether
-- it is incomplete
unfoldable pub integrate_results : List (Bool × ℤ) → ℤ × Bool
integrate_results [] = (pos 0, false)
integrate_results ((lost, value) ∷ children) =
    let (total, incomplete) = integrate_results children in
    if lost then (total, true) else (value +ℤ total, incomplete)

pub record ChallengeResult : Type 0 where
  pub ok : Bool
  pub contradicts : Bool

-- `challenge` of a computed value, whether it is incomplete, and what is expected
unfoldable pub challenge : Option ℤ → Bool → Option ℤ → ChallengeResult
challenge none incomplete expected = record { ok = false; contradicts = false }
challenge (some value) true expected = record { ok = false; contradicts = false }
challenge (some value) false none = record { ok = true; contradicts = false }
challenge (some value) false (some e) = record {
  ok = eqb_ℤ value e;
  contradicts = not (eqb_ℤ value e);
}

-- How one call of `_solve` ends: with the computed value, by BudgetExhausted, by
-- ContradictionError after the value was computed, or by another exception.
pub data Answer : Type 0 where
  solved : ℤ → Answer
  out_of_budget : Answer
  contradicted : ℤ → Answer
  raised : Answer
  out_of_fuel : Answer

-- The clock and the inference port, each with a state of its own; `infer` is the port's `invoke`, which may raise. `width v` is
-- `len(str(v))`.
pub record Port (F W : Type 0) : Type 0 where
  pub elapsed : W → F × W
  pub infer : Value F → W → Option ℤ × W
  pub width : ℤ → ℕ

module _ (p : Platform) where
  -- `RLMRun` while the engine runs
  pub record Run : Type 0 where
    pub stop_reason : StopReason
    pub model_invocations : ℕ
    pub context_reads : ℕ
    pub total_children : ℕ
    pub cost : p.Float
    pub output_length : ℕ

  -- `RLMRun`; the log is left out
  pub record RlmRun : Type 0 where
    pub value : Option ℤ
    pub run : Run
    pub elapsed_seconds : p.Float
    pub output_length : ℕ

  -- `RLMRun()`
  abbrev pub new_run : Run
  new_run = record {
    stop_reason = all_integrated;
    model_invocations = 0;
    context_reads = 0;
    total_children = 0;
    cost = p.zero_float;
    output_length = 0;
  }

  module _ {W : Type 0} (port : Port p.Float W) (c : RlmConfig p) (base_cost : p.Float) where
    abbrev pub Outcome : Type 0
    Outcome = Answer × Run × W

    -- a resource that is used up
    unfoldable pub spent_out : Run → p.Float → Bool
    spent_out run elapsed =
        p.le_float c.max_runtime_seconds elapsed
        || (leb c.max_model_invocations run.model_invocations
            || (leb c.max_context_reads run.context_reads
                || (p.le_float c.max_cost run.cost
                    || (leb c.max_total_children run.total_children
                        || leb c.max_output_size run.output_length))))

    abbrev meets : Option ℤ → ℤ → Bool
    meets none value = false
    meets (some e) value = eqb_ℤ value e

    abbrev pub accept_if : Bool → Run → Run
    accept_if met run = record run { stop_reason = if met then accepted else run.stop_reason }

    -- what the inference call of a leaf returns, or its exception
    unfoldable pub answered : Option ℤ → Option ℤ → Run → W → Outcome
    answered none expected run w = (raised, run, w)
    answered (some value) expected run w = (
      solved value,
      accept_if (meets expected value)
          (record run { output_length = run.output_length + port.width value }),
      w,
    )

    -- the usage of a leaf, then its inference call
    unfoldable pub leaf : Value p.Float → Option ℤ → Run → W → Outcome
    unfolding answered
    leaf content expected run w =
        let used = record run {
          model_invocations = run.model_invocations + 1;
          context_reads = run.context_reads + 1;
          cost = p.add run.cost base_cost;
        } in
        let (answer, w') = port.infer content w in answered answer expected used w'

    -- the challenger's verdict on an integrated value
    unfoldable pub judge : Option ℤ → ℤ → ChallengeResult → Run → W → Outcome
    judge expected value result run w =
        if result.contradicts && c.explicit_stop_policy
        then (contradicted value, run, w)
        else (solved value, accept_if (is_some expected && result.ok) run, w)

    -- the integration of a node's children
    unfoldable pub integrate : Option ℤ → List (Bool × ℤ) → Run → W → Outcome
    unfolding integrate_results challenge judge
    integrate expected results run w =
        let (value, incomplete) = integrate_results results in
        judge expected value (challenge (some value) incomplete expected)
          (record run { output_length = run.output_length + port.width value }) w

    -- an exception of a child ends its parent's call
    unfoldable pub after_child : Outcome → (ℤ → Run → W → Outcome) → Outcome
    after_child (solved value, run, w) next = next value run w
    after_child (other, run, w) next = (other, run, w)

    -- the children one after another, and what follows the last
    unfoldable pub solve_children :
        (Value p.Float → Run → W → Outcome)
        → (List (Bool × ℤ) → Run → W → Outcome)
        → List (Value p.Float)
        → List (Bool × ℤ)
        → Run
        → W
        → Outcome
    unfolding after_child
    solve_children solve finish [] results run w = finish results run w
    solve_children solve finish (child ∷ children) results run w =
        after_child (solve child run w) λ value run' w'.
          solve_children solve finish children (results ++ ((false, value) ∷ []))
            (record run' { context_reads = run'.context_reads + 1 }) w'

    -- the part of `_solve` after the decomposition
    unfoldable pub expand :
        (Value p.Float → Run → W → Outcome)
        → Option (List (Value p.Float))
        → Value p.Float
        → Option ℤ
        → Run
        → W
        → Outcome
    unfolding leaf integrate solve_children
    expand solve none content expected run w = (raised, run, w)
    expand solve (some []) content expected run w = leaf content expected run w
    expand solve (some (child ∷ children)) content expected run w =
        solve_children solve (integrate expected) (child ∷ children) []
          (record run { total_children = run.total_children + length (child ∷ children) }) w

    -- the part of `_solve` after the check of the depth
    unfoldable pub spend :
        (Value p.Float → Run → W → Outcome) → Value p.Float → Option ℤ → Run → W → Outcome
    unfolding spent_out expand decompose_state
    spend solve content expected run w =
        let (seconds, w') = port.elapsed w in
        if spent_out run seconds
        then (out_of_budget, run, w')
        else expand solve
            (decompose_state content c.max_branches_per_node
              (c.max_total_children - run.total_children))
            content expected run w'

    -- `_solve`, on fuel
    unfoldable pub solve : ℕ → Value p.Float → Option ℤ → ℕ → Run → W → Outcome
    unfolding spend
    solve zero content expected depth run w = (out_of_fuel, run, w)
    solve (suc fuel) content expected depth run w =
        if ltb c.max_depth depth
        then (out_of_budget, run, w)
        else spend (λ child. solve fuel child none (suc depth)) content expected run w

    -- the result of a run: `none` is an exception that `run` does not catch
    unfoldable pub close : Answer → Run → p.Float → Option RlmRun
    close (solved v) run seconds = some record {
      value = some v;
      run = run;
      elapsed_seconds = seconds;
      output_length = port.width v;
    }
    close out_of_budget run seconds = some record {
      value = none;
      run = record run { stop_reason = budget_exhausted };
      elapsed_seconds = seconds;
      output_length = port.width (pos 0);
    }
    close (contradicted v) run seconds = some record {
      value = some v;
      run = record run { stop_reason = contradiction };
      elapsed_seconds = seconds;
      output_length = port.width v;
    }
    close raised run seconds = none
    close out_of_fuel run seconds = none

    -- `RLMEngine.run`
    unfoldable pub rlm_run : Value p.Float → Option ℤ → W → Option RlmRun
    unfolding solve close
    rlm_run content expected w =
        let (answer, run, w') = solve (c.max_depth + 2) content expected 0 new_run w in
        let (seconds, w'') = port.elapsed w' in close answer run seconds
