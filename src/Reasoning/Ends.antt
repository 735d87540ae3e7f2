-- ===== src/Reasoning/Ends.antt =====
-- The recursion of agent-platform/reasoning/recursive/rlm_engine.py ends: the depth bound is fuel
-- enough.
use cortxt.Prelude.{
  ℕ, zero, suc, ◌+◌, ◌-◌, ◌≤◌, ℤ, ◌≡◌, refl, Bool, true, false, ◌&&◌, Option, none, some, List, [],
  ◌∷◌, arith, ltb, is_some, if◌then◌else◌,
}
use cortxt.Value.{Value}
use cortxt.Platform.{Platform}
use cortxt.Supervisor.Budget.{RlmConfig}
use cortxt.Reasoning.Engine.{
  decompose_state, ChallengeResult, Answer, solved, out_of_budget, contradicted, raised,
  out_of_fuel, Port, Run, spent_out, accept_if, answered, leaf, judge, integrate, after_child,
  solve_children, expand, spend, solve,
}

abbrev pub ends : Answer → Bool
ends out_of_fuel = false
ends _ = true

module _ (p : Platform) {W : Type 0} (port : Port p.Float W) (c : RlmConfig p)
    (base_cost : p.Float) where
  abbrev Ends : Answer × Run p × W → Type 0
  Ends o = ends o.0 ≡ true

  if-Ends : (b : Bool) (o o' : Answer × Run p × W) → Ends o → Ends o' → Ends (if b then o else o')
  if-Ends true o o' h k = h
  if-Ends false o o' h k = k

  answered-Ends :
      (o expected : Option ℤ) (run : Run p) (w : W)
      → Ends (answered p port c base_cost o expected run w)
  unfolding answered
  answered-Ends none expected run w = refl
  answered-Ends (some v) expected run w = refl

  judge-Ends :
      (expected : Option ℤ) (v : ℤ) (result : ChallengeResult) (run : Run p) (w : W)
      → Ends (judge p port c base_cost expected v result run w)
  unfolding judge
  judge-Ends expected v result run w =
      if-Ends (result.contradicts && c.explicit_stop_policy) (contradicted v, run, w)
        (solved v, accept_if p port c base_cost (is_some expected && result.ok) run, w) refl refl

  integrate-Ends :
      (expected : Option ℤ) (results : List (Bool × ℤ)) (run : Run p) (w : W)
      → Ends (integrate p port c base_cost expected results run w)
  unfolding integrate
  integrate-Ends expected results run w = judge-Ends expected _ _ _ w

  module _ (f : Value p.Float → Run p → W → Answer × Run p × W)
      (f-Ends : (child : Value p.Float) (run : Run p) (w : W) → Ends (f child run w)) where
    after_child-Ends :
        (o : Answer × Run p × W) (next : ℤ → Run p → W → Answer × Run p × W)
        → Ends o
        → ((v : ℤ) (run : Run p) (w : W) → Ends (next v run w))
        → Ends (after_child p port c base_cost o next)
    unfolding after_child
    after_child-Ends (solved v, run, w) next h k = k v run w
    after_child-Ends (contradicted v, run, w) next h k = h
    after_child-Ends (out_of_budget, run, w) next h k = h
    after_child-Ends (raised, run, w) next h k = h
    after_child-Ends (out_of_fuel, run, w) next h k = h

    solve_children-Ends :
        (expected : Option ℤ) (children : List (Value p.Float)) (results : List (Bool × ℤ))
        (run : Run p) (w : W)
        → Ends (
            solve_children p port c base_cost f
              (integrate p port c base_cost expected)
              children
              results
              run
              w)
    unfolding solve_children
    solve_children-Ends expected [] results run w = integrate-Ends expected results run w
    solve_children-Ends expected (child ∷ children) results run w =
        after_child-Ends (f child run w) _ (f-Ends child run w)
          (λ v run' w'. solve_children-Ends expected children _ _ w')

    expand-Ends :
        (o : Option (List (Value p.Float))) (content : Value p.Float) (expected : Option ℤ)
        (run : Run p) (w : W)
        → Ends (expand p port c base_cost f o content expected run w)
    unfolding expand leaf
    expand-Ends none content expected run w = refl
    expand-Ends (some []) content expected run w = answered-Ends _ expected _ _
    expand-Ends (some (child ∷ children)) content expected run w =
        solve_children-Ends expected (child ∷ children) [] _ w

    spend-Ends :
        (content : Value p.Float) (expected : Option ℤ) (run : Run p) (w : W)
        → Ends (spend p port c base_cost f content expected run w)
    unfolding spend
    spend-Ends content expected run w =
        if-Ends (spent_out p port c base_cost run (port.elapsed w).0)
          (out_of_budget, run, (port.elapsed w).1)
          (expand p port c base_cost f
            (decompose_state content c.max_branches_per_node
              (c.max_total_children - run.total_children))
            content expected run (port.elapsed w).1)
          refl (expand-Ends _ content expected run _)

  -- A call of `_solve` at most one deeper than the depth bound ends, on fuel for each depth from its
  -- own to that one, whatever the clock and the inference port answer.
  pub solve-Ends :
      (fuel : ℕ) (content : Value p.Float) (expected : Option ℤ) (depth : ℕ) (run : Run p) (w : W)
      → depth ≤ c.max_depth + 1
      → c.max_depth + 2 ≤ fuel + depth
      → Ends (solve p port c base_cost fuel content expected depth run w)
  unfolding solve
  solve-Ends zero content expected depth run w top h = absurd (omega (arith, top, h))
  solve-Ends (suc fuel) content expected depth run w top h =
      gate (ltb c.max_depth depth) refl (λ low.
        spend-Ends (λ child. solve p port c base_cost fuel child none (suc depth))
          (λ child run w.
            solve-Ends fuel child none (suc depth) run w (ground arith) (omega (arith, h)))
          content expected run w)
    where
      gate :
          (b : Bool)
          → ltb c.max_depth depth ≡ b
          → (ltb c.max_depth depth ≡ false
              → Ends (
                  spend p port c base_cost
                    (λ child. solve p port c base_cost fuel child none (suc depth))
                    content
                    expected
                    run
                    w))
          → Ends (
              if b
              then (out_of_budget, run, w)
              else spend p port c base_cost
                  (λ child. solve p port c base_cost fuel child none (suc depth))
                  content
                  expected
                  run
                  w)
      gate true e k = refl
      gate false e k = k e
