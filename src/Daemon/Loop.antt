-- ===== src/Daemon/Loop.antt =====
-- `DaemonLoop` of agent-platform/daemon/loop.py. What the injected functions return in one
-- iteration is a `World`; the engines' record of the calls they got is part of the state. The set
-- of claimed issues is its sorted list. Writes of the state files succeed.
pub mod Claims
pub mod Selection
pub mod Unattended
pub mod Forever
use Prim.Native.String.{◌++◌}
use cortxt.Prelude.{
  ℕ, zero, suc, ◌+◌, String, Bool, true, false, ◌&&◌, ◌||◌, not, Option, none, some, List, [], ◌∷◌,
  leb, ltb, ◌==◌, contains, is_some, if◌then◌else◌,
}
use cortxt.Platform.{Platform}
use cortxt.Mandate.Nonces.{insert_sorted}
use cortxt.Daemon.Gate.{
  Decision, proceed, pause, freeze, Cause, no_worktree, no_start, GateOutcome, outcome,
  engine_result, git_commit_check, ResultEnvelope, evaluate_gate,
}
use cortxt.Daemon.Autonomy.{Class, AutonomyTracker, record_pass, is_unlocked}

-- an issue, with its number as it is printed
pub record Issue : Type 0 where
  pub number : String
  pub title : String
  pub body : Option String
  pub labels : List String

-- what the loop reads of `EngineChoice`
pub record Choice : Type 0 where
  pub engine_id : String
  pub matched_tag : Option String
  pub checkpoint_required : Bool

-- `broker.invoke` returns a status, raises one of the two invocation errors, or anything else
pub data Invocation : Type 0 where
  returned : String → Invocation
  could_not_start other_error : Invocation

pub record World : Type 0 where
  -- `none` is an exception
  pub review : Option (ℕ × ℕ × ℕ)
  pub issues : Option (List Issue)
  pub has_provider : String → Bool
  pub worktree_created : Bool
  pub head_before : Option String
  pub head_after : Option String
  pub invocation : Invocation

-- one call of an engine; its working directory is the issue's worktree
pub record Call : Type 0 where
  pub issue_id : String
  pub engine_id : String
  pub profile : Option String
  pub prompt : String

-- what `_write_status` writes, less the entries that are the same in every snapshot
pub record Status : Type 0 where
  pub claimed : List String
  pub lane_status : String
  pub last_gate_outcome : Option GateOutcome
  pub has_error : Bool
  pub review_sync : ℕ × ℕ × ℕ

-- the fields that do not change
pub record Setup : Type 0 where
  pub repo : String
  pub supervised : Bool
  -- `_known_task_shapes(self.manifests)`, sorted
  pub shapes : List String
  pub route : List String → Choice

pub record Daemon : Type 0 where
  pub claimed : List String
  pub autonomy : AutonomyTracker
  pub last_review_sync : ℕ × ℕ × ℕ
  -- claimed.json and autonomy.json
  pub saved_claimed : List String
  pub saved_autonomy : Option AutonomyTracker
  pub snapshot : Option Status
  pub calls : List Call

pub record Result : Type 0 where
  pub issue_id : String
  pub engine_id : String
  pub gate_outcome : GateOutcome

-- `run_once` returns or raises
pub data Outcome : Type 0 where
  finished : Option Result → Outcome
  raised : Outcome

-- `__post_init__` on the files that a daemon left
unfoldable pub restart : Daemon → Daemon
restart d = record d {
  claimed = d.saved_claimed;
  autonomy = elim d.saved_autonomy [ none ↦ d.autonomy | some a ↦ a ];
  last_review_sync = (0, 0, 0);
}

abbrev pub lane_of : Option GateOutcome → String
lane_of none = "running"
lane_of (some g) = elim g.decision [ pause ↦ "review" | freeze ↦ "blocked" | proceed ↦ "done" ]

-- `_write_status`
unfoldable pub write_status : Option GateOutcome → Bool → Daemon → Daemon
write_status gate error d = record d {
  snapshot = some (record {
    claimed = d.claimed;
    lane_status = lane_of gate;
    last_gate_outcome = gate;
    has_error = error;
    review_sync = d.last_review_sync;
  });
}

-- the first `try` of `run_once`
unfoldable pub sync_reviews : World → Daemon → Daemon
unfolding write_status
sync_reviews w d = elim w.review [
  | none ↦ write_status none true (record d { last_review_sync = (0, 0, 1) })
  | some report ↦ write_status none false (record d { last_review_sync = report })
]

-- `sorted(label_names & shapes)`
unfoldable pub task_tags : List String → List String → List String
task_tags labels [] = []
task_tags labels (s ∷ shapes) =
    let rest = task_tags labels shapes in if contains s labels then s ∷ rest else rest

abbrev pub issue_id_of : Setup → Issue → String
issue_id_of setup issue = setup.repo ++ ("#" ++ issue.number)

pub record Candidate : Type 0 where
  pub issue : Issue
  pub issue_id : String
  pub tags : List String
  pub choice : Choice

abbrev pub when_provided : World → Candidate → Option Candidate
when_provided w c = if w.has_provider c.choice.engine_id then some c else none

-- the `continue` lines: an issue that is claimed, has no tag, or whose engine has no adapter
unfoldable pub consider : Setup → World → List String → Issue → Option Candidate
unfolding task_tags
consider setup w claimed issue =
    if contains (issue_id_of setup issue) claimed
    then none
    else elim (task_tags issue.labels setup.shapes) [
      | [] ↦ none
      | t ∷ ts ↦ when_provided w (record {
        issue = issue;
        issue_id = issue_id_of setup issue;
        tags = t ∷ ts;
        choice = setup.route (t ∷ ts);
      })
    ]

-- the first issue that is not passed over
unfoldable pub first_candidate : Setup → World → List String → List Issue → Option Candidate
first_candidate setup w claimed [] = none
first_candidate setup w claimed (i ∷ issues) =
    let rest = first_candidate setup w claimed issues in
    elim (consider setup w claimed i) [ none ↦ rest | some c ↦ some c ]

-- the claim, persisted before anything is dispatched
unfoldable pub claim : String → Daemon → Daemon
unfolding insert_sorted
claim issue_id d =
    let claimed =
      if contains issue_id d.claimed then d.claimed else insert_sorted issue_id d.claimed in
    record d { claimed = claimed; saved_claimed = claimed }

abbrev pub class_of : Candidate → Class
class_of c = record { engine_id = c.choice.engine_id; task_shape = c.choice.matched_tag }

-- record the pass, persist it, write the status, and return
unfoldable pub conclude : Candidate → GateOutcome → Daemon → Outcome × Daemon
unfolding write_status
conclude c gate d =
    let autonomy =
      record_pass (class_of c) (elim gate.decision [ freeze ↦ false | _ ↦ true ]) d.autonomy in
    (
      finished (
          some (record {
            issue_id = c.issue_id;
            engine_id = c.choice.engine_id;
            gate_outcome = gate;
          })),
      write_status (some gate) false
          (record d { autonomy = autonomy; saved_autonomy = some autonomy }),
    )

abbrev pub prompt_of : Issue → String
prompt_of i = elim i.body [
  | none ↦ i.title
  | some b ↦ if b == "" then i.title else i.title ++ ("\n\n" ++ b)
]

abbrev pub profile_of : Candidate → Option String
profile_of c =
    if contains c.choice.engine_id ("hermes" ∷ "hermes-free" ∷ [])
    then some (if contains "research" c.tags then "researcher" else "builder")
    else none

abbrev pub commit_landed : Option String → Option String → Bool
commit_landed (some a) (some b) = not (a == b)
commit_landed _ _ = false

abbrev pub envelope_of : Candidate → World → String → ResultEnvelope
envelope_of c w status =
    let landed = commit_landed w.head_before w.head_after in
    record {
      status = if status == "succeeded" && landed then "succeeded" else "failed";
      evidence = engine_result status ∷ git_commit_check w.head_before w.head_after landed ∷ [];
      artifacts = ("issue:" ++ c.issue_id) ∷ ("engine:" ++ c.choice.engine_id) ∷ [];
    }

abbrev pub needs_checkpoint : Setup → Candidate → Daemon → Bool
needs_checkpoint setup c d =
    setup.supervised || c.choice.checkpoint_required || not (is_unlocked (class_of c) d.autonomy)

abbrev pub called : Candidate → Daemon → Daemon
called c d = record d {
  calls =
      record {
        issue_id = c.issue_id;
        engine_id = c.choice.engine_id;
        profile = profile_of c;
        prompt = prompt_of c.issue;
      }
      ∷ d.calls;
}

-- the call of the engine and the gate
unfoldable pub invoke : Setup → World → Candidate → Daemon → Outcome × Daemon
unfolding conclude
invoke setup w c d = elim w.invocation [
  | could_not_start ↦ conclude c (outcome freeze no_start) (called c d)
  | other_error ↦ (raised, called c d)
  | returned status ↦
      conclude c
        (evaluate_gate (envelope_of c w status) (needs_checkpoint setup c d)
          ("issue:" ∷ "engine:" ∷ []))
        (called c d)
]

-- from the claim on
unfoldable pub dispatch : Setup → World → Candidate → Daemon → Outcome × Daemon
unfolding invoke claim conclude
dispatch setup w c d =
    if w.worktree_created
    then invoke setup w c (claim c.issue_id d)
    else conclude c (outcome freeze no_worktree) (claim c.issue_id d)

-- `run_once`
unfoldable pub run_once : Setup → World → Daemon → Outcome × Daemon
unfolding sync_reviews first_candidate dispatch
run_once setup w d =
    let synced = sync_reviews w d in
    elim w.issues [
      | none ↦ (raised, synced)
      | some issues ↦ elim (first_candidate setup w synced.claimed issues) [
        | none ↦ (finished none, synced)
        | some c ↦ dispatch setup w c synced
      ]
    ]
