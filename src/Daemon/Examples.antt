-- ===== src/Daemon/Examples.antt =====
-- Concrete runs of the daemon: one issue is dispatched, and the loop ends.
use cortxt.Prelude.{◌+◌, ◌≤◌, ◌≡◌, refl, true, false, none, some, List, [], ◌∷◌, arith, length}
use cortxt.Mandate.Samples.{whole}
use cortxt.Daemon.Gate.{
  proceed, outcome, clean, ResultEnvelope, engine_result, in_scope, starts_with, first_outside,
  evaluate_gate,
}
use cortxt.Daemon.Autonomy.{Class, Pass, is_unlocked, streak, same_class}
use cortxt.Daemon.Loop.{
  World, Setup, Daemon, Result, returned, write_status, sync_reviews, task_tags, consider,
  first_candidate, claim, conclude, invoke, dispatch, run_once,
}
use cortxt.Daemon.Loop.Claims.{iteration, restarted, run, Distinct, Safe, run-Safe}
use cortxt.Daemon.Loop.Unattended.{IsEarned, proceed-IsEarned}
use cortxt.Daemon.Loop.Forever.{Tick, SessionBudget, Reason, run_forever, run_forever-stops}

abbrev envelope : ResultEnvelope
envelope = record {
  status = "succeeded";
  evidence = engine_result "succeeded" ∷ [];
  artifacts = "issue:1" ∷ [];
}

abbrev key : Class
key = record { engine_id = "hermes"; task_shape = some "research" }

abbrev good : Pass
good = record { key = key; clean = true }

abbrev setup : Setup
setup = record {
  repo = "acme/app";
  supervised = false;
  shapes = "research" ∷ [];
  route = λ tags. record {
    engine_id = "hermes";
    matched_tag = some "research";
    checkpoint_required = false;
  };
}

abbrev world : World
world = record {
  review = some (0, 0, 0);
  issues =
      some (record { number = "7"; title = "look"; body = none; labels = "research" ∷ [] } ∷ []);
  has_provider = λ engine. true;
  worktree_created = true;
  head_before = some "a";
  head_after = some "b";
  invocation = returned "succeeded";
}

abbrev start : Daemon
start = record {
  claimed = [];
  autonomy = record { unlock_threshold = 1; streaks = (key, 1) ∷ [] };
  last_review_sync = (0, 0, 0);
  saved_claimed = [];
  saved_autonomy = none;
  snapshot = none;
  calls = [];
}

run-Safe_example : Safe (run setup (iteration world ∷ restarted ∷ iteration world ∷ []) start)
unfolding Distinct
run-Safe_example =
    run-Safe setup (iteration world ∷ restarted ∷ iteration world ∷ []) start
      (record { persisted = refl; backed = tt; distinct = tt })

abbrev result : Result
result = record {
  issue_id = "acme/app#7";
  engine_id = "hermes";
  gate_outcome = outcome proceed clean;
}

proceed-IsEarned_example : IsEarned setup world start result
unfolding run_once sync_reviews write_status first_candidate consider task_tags dispatch claim
    invoke conclude evaluate_gate first_outside in_scope starts_with is_unlocked streak same_class
proceed-IsEarned_example = proceed-IsEarned setup world start result refl refl

abbrev budget : SessionBudget whole
budget = record { max_cost_usd = 10; max_wall_clock_seconds = 100; spent_usd = 0 }

abbrev ticks : List (Tick whole)
ticks = record { stop = false; elapsed = 1; world = world } ∷ []

run_forever-stops_example :
    (reason : Reason) × ((run_forever whole setup budget (some 1) 0 ticks start).0 ≡ some reason)
    × (length (run_forever whole setup budget (some 1) 0 ticks start).1.calls
        ≤ length start.calls + 1)
run_forever-stops_example =
    run_forever-stops whole setup budget 1 ticks start (omega arith) (omega arith)
