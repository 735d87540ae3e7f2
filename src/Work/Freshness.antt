-- ===== src/Work/Freshness.antt =====
-- The freshness of an issue's correlated runs: `compute_run_freshness` of
-- agent-platform/widget_contract/run_authority.py.
use cortxt.Prelude.{
  ℤ, pos, pos_part, ltb_ℤ, String, Bool, true, false, ◌||◌, not, Option, none, some, List, [], ◌∷◌,
  any, contains, is_some, if◌then◌else◌,
}
use cortxt.Platform.{Platform}
use cortxt.Work.Moments.{Readers, ◌>>=◌, or_else, epoch, epoch_of}
use cortxt.Work.Summary.{Summary}

pub record Freshness : Type 0 where
  pub status : String
  pub age_seconds : ℤ
  pub complete : Bool

-- a status that says nothing of the run, or a recorded conflict
abbrev pub is_unresolved : {F : Type 0} → Summary F → Bool
is_unresolved s = contains s.status ("conflict" ∷ "unknown" ∷ []) || is_some s.conflict

abbrev pub is_active : {F : Type 0} → Summary F → Bool
is_active s = contains s.status ("in_progress" ∷ [])

module _ (p : Platform) (r : Readers p.Float) where
  -- the largest of the numbers, the first of equal ones
  abbrev largest : p.Float → List p.Float → p.Float
  largest best [] = best
  largest best (x ∷ xs) = largest (if p.lt_float best x then x else best) xs

  abbrev add_known : Option p.Float → List p.Float → List p.Float
  add_known none xs = xs
  add_known (some x) xs = x ∷ xs

  -- the first readable signal of each active run
  unfoldable pub signals : List (Summary p.Float) → List p.Float
  signals [] = []
  signals (s ∷ runs) =
      let rest = signals runs in
      if is_active s
      then add_known (or_else (epoch_of p r s.heartbeat_at) (epoch_of p r s.started_at)) rest
      else rest

  -- the readable ends of all runs
  unfoldable pub finishes : List (Summary p.Float) → List p.Float
  finishes [] = []
  finishes (s ∷ runs) = add_known (epoch_of p r s.finished_at) (finishes runs)

  -- `max(0, int(now - then))`: `none` is an exception of `int`
  unfoldable pub age : p.Float → p.Float → Option ℤ
  age now moment = do seconds ← p.truncate (p.sub now moment); some (pos (pos_part seconds))

  -- the bound that the age of the newest signal keeps
  unfoldable pub running_status : ℤ → ℤ → ℤ → String
  running_status stale stranded seconds =
      if not (ltb_ℤ stale seconds)
      then "fresh"
      else if not (ltb_ℤ stranded seconds)
      then "stale"
      else "stranded_running"

  unfoldable pub active_freshness : p.Float → ℤ → ℤ → List p.Float → Option Freshness
  unfolding age running_status
  active_freshness now stale stranded [] =
      some record { status = "stranded_running"; age_seconds = pos 0; complete = false }
  active_freshness now stale stranded (x ∷ xs) = do
    seconds ← age now (largest x xs)
    let status = running_status stale stranded seconds
    some record { status = status; age_seconds = seconds; complete = false }

  unfoldable pub terminal_freshness : p.Float → List p.Float → Option Freshness
  unfolding age
  terminal_freshness now [] =
      some record { status = "terminal"; age_seconds = pos 0; complete = true }
  terminal_freshness now (x ∷ xs) = do
    seconds ← age now (largest x xs)
    some record { status = "terminal"; age_seconds = seconds; complete = true }

  -- the branches of runs that there are, at a time that could be read
  unfoldable pub runs_freshness : List (Summary p.Float) → p.Float → ℤ → ℤ → Option Freshness
  unfolding signals finishes active_freshness terminal_freshness
  runs_freshness runs now stale stranded =
      if any is_unresolved runs
      then some record { status = "indeterminate"; age_seconds = pos 0; complete = false }
      else if any is_active runs
      then active_freshness now stale stranded (signals runs)
      else terminal_freshness now (finishes runs)

  -- the branches, from the time that `_epoch` reads
  unfoldable pub freshness_at : Option p.Float → List (Summary p.Float) → ℤ → ℤ → Option Freshness
  unfolding runs_freshness
  freshness_at none runs stale stranded =
      some record { status = "unavailable"; age_seconds = pos 0; complete = false }
  freshness_at (some now) [] stale stranded =
      some record { status = "fresh"; age_seconds = pos 0; complete = true }
  freshness_at (some now) (s ∷ runs) stale stranded = runs_freshness (s ∷ runs) now stale stranded

  unfoldable pub compute_run_freshness : List (Summary p.Float) → String → ℤ → ℤ → Option Freshness
  unfolding epoch freshness_at
  compute_run_freshness runs now_iso stale stranded =
      freshness_at (epoch p r now_iso) runs stale stranded
