-- ===== src/Reasoning/Bounds.antt =====
-- The resources of a run of agent-platform/reasoning/recursive/rlm_engine.py against the bounds of
-- its configuration, and the end of the recursion.
use cortxt.Prelude.{
  ℕ, zero, suc, ◌+◌, ◌-◌, ◌≤◌, ◌<◌, ℤ, ◌≡◌, refl, Bool, true, false, ◌&&◌, Option, none, some, List,
  [], ◌∷◌, arith, length, ltb, is_some, inl, inr, ◌⊎◌, subst, if◌then◌else◌,
}
use mathlib.Core.Option.{some-injective}
use cortxt.Value.{Value}
use cortxt.Platform.{Platform}
use cortxt.Supervisor.Budget.{RlmConfig}
use cortxt.Reasoning.Engine.{
  take, branches, decompose_state, ChallengeResult, Answer, solved, out_of_budget, contradicted,
  raised, out_of_fuel, Port, Run, RlmRun, new_run, spent_out, accept_if, answered, leaf, judge,
  integrate, after_child, solve_children, expand, spend, solve, close, rlm_run,
}

length-take : {A : Type 0} (n : ℕ) (xs : List A) → length (take n xs) ≤ n
length-take zero xs = omega arith
length-take (suc n) [] = omega arith
length-take (suc n) (x ∷ xs) = omega (arith, length-take n xs)

-- No more children than the remaining ones.
decompose_state-length :
    {F : Type 0} (content : Value F) (n m : ℕ) (bs : List (Value F))
    → decompose_state content n m ≡ some bs
    → length bs ≤ m
unfolding decompose_state
decompose_state-length {F = F} content n m bs h = cut (branches content) h
  where
    cut :
        (o : Option (List (Value F)))
        → (elim o [ none ↦ none | some xs ↦ some (take m (take n xs)) ]) ≡ some bs
        → length bs ≤ m
    cut none e = absurd (ground arith)
    cut (some xs) e =
        let k = length-take m (take n xs) in
        let same : take m (take n xs) ≡ bs = some-injective _ _ e in rw same at k

module _ (p : Platform) {W : Type 0} (port : Port p.Float W) (c : RlmConfig p)
    (base_cost : p.Float) where
  abbrev Kept : Run p → Type 0
  Kept run =
      (run.model_invocations ≤ c.max_model_invocations)
      × (run.total_children ≤ c.max_total_children)

  abbrev Open : Run p → Type 0
  Open run =
      (run.model_invocations ≤ c.max_model_invocations)
      × (run.total_children < c.max_total_children)

  -- The bounds hold, strictly for the children when a value was computed.
  abbrev Fine : Answer × Run p × W → Type 0
  Fine (solved v, run, w) = Open run
  Fine (contradicted v, run, w) = Open run
  Fine (out_of_budget, run, w) = Kept run
  Fine (raised, run, w) = Kept run
  Fine (out_of_fuel, run, w) = Kept run

  answered-Fine :
      (o expected : Option ℤ) (run : Run p) (w : W)
      → Open run
      → Fine (answered p port c base_cost o expected run w)
  unfolding answered
  answered-Fine none expected run w h = omega arith
  answered-Fine (some v) expected run w h = h

  judge-Fine :
      (expected : Option ℤ) (v : ℤ) (result : ChallengeResult) (run : Run p) (w : W)
      → Open run
      → Fine (judge p port c base_cost expected v result run w)
  unfolding judge
  judge-Fine expected v result run w h = verdict (result.contradicts && c.explicit_stop_policy)
    where
      verdict :
          (b : Bool)
          → Fine (
              if b
              then (contradicted v, run, w)
              else (solved v, accept_if p port c base_cost (is_some expected && result.ok) run, w))
      verdict true = h
      verdict false = h

  unspent :
      (run : Run p) (seconds : p.Float)
      → spent_out p port c base_cost run seconds ≡ false
      → (run.model_invocations < c.max_model_invocations)
        × (run.total_children < c.max_total_children)
  unfolding spent_out
  unspent run seconds h = (ground arith, ground arith)

  module _ (f : Value p.Float → Run p → W → Answer × Run p × W)
      (f-Fine : (child : Value p.Float) (run : Run p) (w : W)
        → Kept run
        → Fine (f child run w)) where
    after_child-Fine :
        (o : Answer × Run p × W) (next : ℤ → Run p → W → Answer × Run p × W)
        → Fine o
        → ((v : ℤ) (run : Run p) (w : W) → Open run → Fine (next v run w))
        → Fine (after_child p port c base_cost o next)
    unfolding after_child
    after_child-Fine (solved v, run, w) next h k = k v run w h
    after_child-Fine (contradicted v, run, w) next h k = h
    after_child-Fine (out_of_budget, run, w) next h k = h
    after_child-Fine (raised, run, w) next h k = h
    after_child-Fine (out_of_fuel, run, w) next h k = h

    -- A node with children may have used up the children; one with none left has not.
    solve_children-Fine :
        (finish : List (Bool × ℤ) → Run p → W → Answer × Run p × W)
        (finish-Fine : (results : List (Bool × ℤ)) (run : Run p) (w : W)
          → Open run
          → Fine (finish results run w))
        (child : Value p.Float) (children : List (Value p.Float)) (results : List (Bool × ℤ))
        (run : Run p) (w : W)
        → Kept run
        → Fine (solve_children p port c base_cost f finish (child ∷ children) results run w)
    unfolding solve_children
    solve_children-Fine finish finish-Fine child [] results run w h =
        after_child-Fine (f child run w) _ (f-Fine child run w h)
          (λ v run' w' k. finish-Fine _ _ w' k)
    solve_children-Fine finish finish-Fine child (next ∷ children) results run w h =
        after_child-Fine (f child run w) _ (f-Fine child run w h) (λ v run' w' k.
          solve_children-Fine finish finish-Fine next children _ _ w' (k.0, omega (arith, k.1)))

    integrate-Fine :
        (expected : Option ℤ) (results : List (Bool × ℤ)) (run : Run p) (w : W)
        → Open run
        → Fine (integrate p port c base_cost expected results run w)
    unfolding integrate
    integrate-Fine expected results run w h = judge-Fine expected _ _ _ w h

    leaf-Fine :
        (content : Value p.Float) (expected : Option ℤ) (run : Run p) (w : W)
        → run.model_invocations < c.max_model_invocations
        → run.total_children < c.max_total_children
        → Fine (leaf p port c base_cost content expected run w)
    unfolding leaf
    leaf-Fine content expected run w a b = answered-Fine _ expected _ _ (omega (arith, a), b)

    expand-Fine :
        (o : Option (List (Value p.Float))) (content : Value p.Float) (expected : Option ℤ)
        (run : Run p) (w : W)
        → run.model_invocations < c.max_model_invocations
        → run.total_children < c.max_total_children
        → ((bs : List (Value p.Float))
            → o ≡ some bs
            → length bs ≤ c.max_total_children - run.total_children)
        → Fine (expand p port c base_cost f o content expected run w)
    unfolding expand
    expand-Fine none content expected run w a b few = (omega (arith, a), omega (arith, b))
    expand-Fine (some []) content expected run w a b few = leaf-Fine content expected run w a b
    expand-Fine (some (child ∷ children)) content expected run w a b few =
        let k = few (child ∷ children) refl in
        solve_children-Fine _ (integrate-Fine expected) child children [] _ w
          (omega (arith, a), omega (arith, b, k))

    spend-Fine :
        (content : Value p.Float) (expected : Option ℤ) (run : Run p) (w : W)
        → Kept run
        → Fine (spend p port c base_cost f content expected run w)
    unfolding spend
    spend-Fine content expected run w h = gate _ refl
      where
        gate :
            (b : Bool)
            → spent_out p port c base_cost run (port.elapsed w).0 ≡ b
            → Fine (
                if b
                then (out_of_budget, run, (port.elapsed w).1)
                else expand p port c base_cost f
                    (decompose_state content c.max_branches_per_node
                      (c.max_total_children - run.total_children))
                    content
                    expected
                    run
                    (port.elapsed w).1)
        gate true e = h
        gate false e =
            let left = unspent run (port.elapsed w).0 e in
            expand-Fine _ content expected run _ left.0 left.1
              (decompose_state-length content c.max_branches_per_node _)

  solve-Fine :
      (fuel : ℕ) (content : Value p.Float) (expected : Option ℤ) (depth : ℕ) (run : Run p) (w : W)
      → Kept run
      → Fine (solve p port c base_cost fuel content expected depth run w)
  unfolding solve
  solve-Fine zero content expected depth run w h = h
  solve-Fine (suc fuel) content expected depth run w h = gate _ (ltb c.max_depth depth) (
      spend-Fine _ (λ child run w k. solve-Fine fuel child none (suc depth) run w k) content
        expected run w h)
    where
      gate :
          (o : Answer × Run p × W) (b : Bool)
          → Fine o
          → Fine (if b then (out_of_budget, run, w) else o)
      gate o true k = h
      gate o false k = k

  -- What the result of a run shows of its bounds.
  abbrev IsWithin : RlmRun p → Type 0
  IsWithin r =
      (r.run.model_invocations ≤ c.max_model_invocations)
      × (r.run.total_children ≤ c.max_total_children)
      × ((r.value ≡ none) ⊎ (r.run.total_children < c.max_total_children))

  close-IsWithin :
      (o : Answer × Run p × W) (seconds : p.Float) (r : RlmRun p)
      → Fine o
      → close p port c base_cost o.0 o.1 seconds ≡ some r
      → IsWithin r
  unfolding close
  close-IsWithin (solved v, run, w) seconds r h e =
      subst IsWithin (some-injective _ _ e) (h.0, omega (arith, h.1), inr h.1)
  close-IsWithin (contradicted v, run, w) seconds r h e =
      subst IsWithin (some-injective _ _ e) (h.0, omega (arith, h.1), inr h.1)
  close-IsWithin (out_of_budget, run, w) seconds r h e =
      subst IsWithin (some-injective _ _ e) (h.0, h.1, inl refl)
  close-IsWithin (raised, run, w) seconds r h e = absurd (ground arith)
  close-IsWithin (out_of_fuel, run, w) seconds r h e = absurd (ground arith)

  -- In the result of a run, whatever the clock and the inference port answer, the model calls are at
  -- most max_model_invocations and the children at most max_total_children; a run that has a value
  -- has fewer children than max_total_children.
  pub rlm_run-IsWithin :
      (content : Value p.Float) (expected : Option ℤ) (w : W) (r : RlmRun p)
      → rlm_run p port c base_cost content expected w ≡ some r
      → IsWithin r
  unfolding rlm_run
  rlm_run-IsWithin content expected w r h =
      close-IsWithin _ _ r
        (solve-Fine (c.max_depth + 2) content expected 0 (new_run p) w (omega arith, omega arith)) h
