-- ===== src/Daemon/Loop/Forever.antt =====
-- `run_forever` of agent-platform/daemon/loop.py with `SessionBudget` of daemon/budget.py. The
-- answers of the stop file, the clock and the world come one after another; a list that is used up
-- stands for a loop that is still running.
use cortxt.Prelude.{
  ℕ, ◌+◌, ◌≤◌, ◌<◌, ◌≡◌, refl, ap, ◌∙◌, Bool, true, false, ◌||◌, Option, none, some, List, [], ◌∷◌,
  arith, leb, length, Bool-cases, Option-cases, inl, inr, if◌then◌else◌,
}
use cortxt.Platform.{Platform}
use cortxt.Daemon.Gate.{pause, GateOutcome}
use cortxt.Daemon.Loop.{
  World, Setup, Daemon, Outcome, finished, raised, Candidate, Invocation, returned, could_not_start,
  other_error, write_status, sync_reviews, claim, conclude, called, invoke, dispatch, run_once,
  first_candidate,
}
use cortxt.Daemon.Loop.Claims.{dispatch-made, dispatch-failed}

pub data Reason : Type 0 where
  stop_requested budget_exhausted paused_for_review max_iterations : Reason

module _ (p : Platform) where
  open p use {Float, le_float, add, lt_float, zero_float}

  pub record SessionBudget : Type 0 where
    pub max_cost_usd : Float
    pub max_wall_clock_seconds : Float
    pub spent_usd : Float

  -- `record_cost`; `none` is ValueError
  unfoldable pub record_cost : Float → SessionBudget → Option SessionBudget
  record_cost cost b =
      if lt_float cost zero_float
      then none
      else some (record b { spent_usd = add b.spent_usd cost })

  -- `exhausted`, with the seconds since the start
  unfoldable pub exhausted : Float → SessionBudget → Bool
  exhausted elapsed b =
      le_float b.max_cost_usd b.spent_usd || le_float b.max_wall_clock_seconds elapsed

  -- what one round of the loop finds
  pub record Tick : Type 0 where
    pub stop : Bool
    pub elapsed : Float
    pub world : World

  abbrev reached : Option ℕ → ℕ → Bool
  reached none iterations = false
  reached (some n) iterations = leb n iterations

  -- whether the results of an iteration end the loop
  abbrev pub pauses : Outcome → Bool
  pauses (finished (some r)) = elim r.gate_outcome.decision [ pause ↦ true | _ ↦ false ]
  pauses o = false

  -- the `try` of the loop
  unfoldable pub iterate : Setup → World → Daemon → Outcome × Daemon
  unfolding run_once write_status
  iterate setup w d =
      let (o, d') = run_once setup w d in
      elim o [ raised ↦ (finished none, write_status none true d') | finished r ↦ (finished r, d') ]

  unfoldable pub run_forever :
      Setup → SessionBudget → Option ℕ → ℕ → List Tick → Daemon → Option Reason × Daemon
  run_forever setup budget limit iterations [] d = (none, d)
  run_forever setup budget limit iterations (t ∷ ticks) d =
      let (o, d') = iterate setup t.world d in
      let rest = run_forever setup budget limit (iterations + 1) ticks d' in
      if t.stop
      then (some stop_requested, d)
      else if exhausted t.elapsed budget
      then (some budget_exhausted, d)
      else if pauses o
      then (some paused_for_review, d')
      else if reached limit (iterations + 1)
      then (some max_iterations, d')
      else rest

calls-sync_reviews : (w : World) (d : Daemon) → (sync_reviews w d).calls ≡ d.calls
unfolding sync_reviews write_status
calls-sync_reviews w d = ground arith

calls-conclude : (c : Candidate) (g : GateOutcome) (d : Daemon) → (conclude c g d).1.calls ≡ d.calls
unfolding conclude write_status
calls-conclude c g d = refl

calls-invoke :
    (setup : Setup) (w : World) (c : Candidate) (d : Daemon) (i : Invocation)
    → w.invocation ≡ i
    → (invoke setup w c d).1.calls ≡ (called c d).calls
unfolding invoke conclude write_status
calls-invoke setup w c d (returned status) e = rw (invoke, e) refl
calls-invoke setup w c d could_not_start e = rw (invoke, e) refl
calls-invoke setup w c d other_error e = rw (invoke, e) refl

length-dispatch :
    (setup : Setup) (w : World) (c : Candidate) (d : Daemon)
    → length (dispatch setup w c d).1.calls ≤ length d.calls + 1
unfolding claim conclude
length-dispatch setup w c d = elim (Bool-cases w.worktree_created) [
  | inl made ↦
      let e =
        ap (λ (x : Outcome × Daemon). x.1.calls) (dispatch-made setup w c d made)
        ∙ calls-invoke setup w c (claim c.issue_id d) w.invocation refl in
      rw e (omega arith)
  | inr failed ↦
      let e = ap (λ (x : Outcome × Daemon). x.1.calls) (dispatch-failed setup w c d failed) in
      rw e (omega arith)
]

length-run_once :
    (setup : Setup) (w : World) (d : Daemon)
    → length (run_once setup w d).1.calls ≤ length d.calls + 1
unfolding run_once
length-run_once setup w d = elim (Option-cases w.issues) [
  | inl n ↦ ground (arith, n, calls-sync_reviews w d)
  | inr (issues, e) ↦
      elim (Option-cases (first_candidate setup w (sync_reviews w d).claimed issues)) [
        | inl n ↦ ground (arith, e, n, calls-sync_reviews w d)
        | inr (c, found) ↦
            ground (
              arith,
              e,
              found,
              calls-sync_reviews w d,
              length-dispatch setup w c (sync_reviews w d),
            )
      ]
]

module _ (p : Platform) where
  length-iterate :
      (setup : Setup) (w : World) (d : Daemon)
      → length (iterate p setup w d).1.calls ≤ length d.calls + 1
  unfolding iterate write_status
  length-iterate setup w d = ground (arith, length-run_once setup w d)

  stops :
      (setup : Setup) (budget : SessionBudget p) (n iterations : ℕ) (ticks : List (Tick p))
      (d : Daemon)
      → iterations < n
      → n ≤ iterations + length ticks
      → (reason : Reason) × ((run_forever p setup budget (some n) iterations ticks d).0
          ≡ some reason)
        × (length (run_forever p setup budget (some n) iterations ticks d).1.calls + iterations
            ≤ length d.calls + n)
  unfolding run_forever
  stops setup budget n iterations [] d less enough = absurd (omega (arith, less, enough))
  stops setup budget n iterations (t ∷ ticks) d less enough =
      let one = length-iterate setup t.world d in
      let o = iterate p setup t.world d in
      elim (Bool-cases t.stop) [
        | inl s ↦ (stop_requested, ground (arith, s), ground (arith, s, less))
        | inr s ↦ elim (Bool-cases (exhausted p t.elapsed budget)) [
          | inl x ↦ (budget_exhausted, ground (arith, s, x), ground (arith, s, x, less))
          | inr x ↦ elim (Bool-cases (pauses p o.0)) [
            | inl e ↦
                (paused_for_review, ground (arith, s, x, e), ground (arith, s, x, e, less, one))
            | inr e ↦ elim (Bool-cases (leb n (iterations + 1))) [
              | inl last ↦ (
                max_iterations,
                ground (arith, s, x, e, last),
                ground (arith, s, x, e, last, less, one),
              )
              | inr more ↦
                  let (reason, ended, few) =
                    stops setup budget n (iterations + 1) ticks o.1 (ground (arith, more))
                      (omega (arith, enough)) in
                  (
                    reason,
                    ground (arith, s, x, e, more, ended),
                    ground (arith, s, x, e, more, few, one),
                  )
            ]
          ]
        ]
      ]

  -- With a limit of at least one iteration the loop ends, within as many rounds as the limit, with
  -- one of its four reasons, and calls the engines at most once a round.
  pub run_forever-stops :
      (setup : Setup) (budget : SessionBudget p) (limit : ℕ) (ticks : List (Tick p)) (d : Daemon)
      → 0 < limit
      → limit ≤ length ticks
      → (reason : Reason) × ((run_forever p setup budget (some limit) 0 ticks d).0 ≡ some reason)
        × (length (run_forever p setup budget (some limit) 0 ticks d).1.calls
            ≤ length d.calls + limit)
  run_forever-stops setup budget limit ticks d least enough =
      let (reason, ended, few) = stops setup budget limit 0 ticks d least (omega (arith, enough)) in
      (reason, ended, omega (arith, few))
