-- ===== src/Daemon/Loop/Unattended.antt =====
-- What an unattended run has to show before the daemon goes on without a review.
use cortxt.Prelude.{
  String, ◌≡◌, ◌≢◌, refl, sym, ap, ◌∙◌, Bool, true, false, ◌&&◌, Option, none, some, List, [], ◌∷◌,
  arith, ◌==◌, subst, unequal, not, ==_true, Bool-cases, Option-cases, inl, inr, if◌then◌else◌,
}
use cortxt.Daemon.Gate.{
  proceed, freeze, GateOutcome, outcome, no_worktree, no_start, evaluate_gate, evaluate_gate_lem,
}
use cortxt.Daemon.Autonomy.{is_unlocked, IsUnlocked, is_unlocked-IsUnlocked}
use cortxt.Daemon.Loop.{
  World, Invocation, returned, could_not_start, other_error, Setup, Daemon, Outcome, finished,
  Result, Issue, Choice, Candidate, write_status, sync_reviews, claim, conclude, called, invoke,
  dispatch, run_once, first_candidate, class_of, commit_landed, envelope_of, needs_checkpoint,
}
use cortxt.Daemon.Loop.Selection.{IsFirst, first_candidate-IsFirst, IsFirst-route}
use cortxt.Daemon.Loop.Claims.{dispatch-made, dispatch-failed}

-- What stands behind the result of a candidate that needs no review.
record IsClean (setup : Setup) (w : World) (d : Daemon) (c : Candidate) (r : Result) : Type 0 where
  unsupervised : setup.supervised ≡ false
  same_issue : r.issue_id ≡ c.issue_id
  same_engine : r.engine_id ≡ c.choice.engine_id
  no_checkpoint : c.choice.checkpoint_required ≡ false
  unlocked : is_unlocked (class_of c) d.autonomy ≡ true
  reported : w.invocation ≡ returned "succeeded"
  landed : commit_landed w.head_before w.head_after ≡ true

-- What stands behind a result that needs no review. The candidate is the one that the tracker's
-- issues and the claims before the run determine.
pub record IsEarned (setup : Setup) (w : World) (d : Daemon) (r : Result) : Type 0 where
  pub issues : List Issue
  pub tracked : w.issues ≡ some issues
  pub c : Candidate
  pub chosen : IsFirst setup w d.claimed c issues
  pub unsupervised : setup.supervised ≡ false
  pub same_issue : r.issue_id ≡ c.issue_id
  pub same_engine : r.engine_id ≡ c.choice.engine_id
  pub no_checkpoint : (setup.route c.tags).checkpoint_required ≡ false
  pub unlocked :
      IsUnlocked
        (record {
          engine_id = (setup.route c.tags).engine_id;
          task_shape = (setup.route c.tags).matched_tag;
        })
        d.autonomy
  pub reported : w.invocation ≡ returned "succeeded"
  pub before : String
  pub after : String
  pub head_before : w.head_before ≡ some before
  pub head_after : w.head_after ≡ some after
  pub moved : before ≢ after

conclude-result :
    (c : Candidate) (g : GateOutcome) (d : Daemon) (r : Result)
    → (conclude c g d).0 ≡ finished (some r)
    → (r.gate_outcome ≡ g) × (r.issue_id ≡ c.issue_id) × (r.engine_id ≡ c.choice.engine_id)
unfolding conclude
conclude-result c g d r h = (ground arith, ground arith, ground arith)

abbrev effective : Bool → String
effective b = if b then "succeeded" else "failed"

if_succeeded : (b : Bool) → effective b ≡ "succeeded" → b ≡ true
if_succeeded true h = refl
if_succeeded false h = ap (λ (s : String). s == "succeeded") h

frozen : proceed ≢ freeze
frozen h = ground arith

invoke-IsClean :
    (setup : Setup) (w : World) (c : Candidate) (d : Daemon) (r : Result) (i : Invocation)
    → w.invocation ≡ i
    → (invoke setup w c d).0 ≡ finished (some r)
    → r.gate_outcome.decision ≡ proceed
    → IsClean setup w d c r
unfolding invoke
invoke-IsClean setup w c d r (returned status) e h p =
    let gate =
      evaluate_gate (envelope_of c w status) (needs_checkpoint setup c d)
        ("issue:" ∷ "engine:" ∷ []) in
    let (same, id, engine) = conclude-result c gate (called c d) r (rw (invoke, e) at h) in
    let goes : gate.decision ≡ proceed = ap (λ (g : GateOutcome). g.decision) (sym same) ∙ p in
    let (free, go) =
      evaluate_gate_lem (envelope_of c w status) (needs_checkpoint setup c d) "issue:"
        ("engine:" ∷ []) in
    let open_gate : gate.decision ≢ freeze = λ f. frozen (sym goes ∙ f) in
    let both =
      if_succeeded ((status == "succeeded") && commit_landed w.head_before w.head_after)
        (free.0 open_gate).0 in
    let unneeded = (go open_gate).0 goes in
    record {
      unsupervised = ground (arith, unneeded);
      same_issue = id;
      same_engine = engine;
      no_checkpoint = ground (arith, unneeded);
      unlocked = ground (arith, unneeded);
      reported = e ∙ ap returned (==_true status "succeeded" (ground (arith, both)));
      landed = ground (arith, both);
    }
invoke-IsClean setup w c d r could_not_start e h p =
    let (same, id, engine) =
      conclude-result c (outcome freeze no_start) (called c d) r (rw (invoke, e) at h) in
    absurd (frozen (sym p ∙ ap (λ (g : GateOutcome). g.decision) same))
invoke-IsClean setup w c d r other_error e h p = absurd (ground arith)

dispatch-IsClean :
    (setup : Setup) (w : World) (c : Candidate) (d : Daemon) (r : Result)
    → (dispatch setup w c d).0 ≡ finished (some r)
    → r.gate_outcome.decision ≡ proceed
    → IsClean setup w d c r
unfolding claim
dispatch-IsClean setup w c d r h p = elim (Bool-cases w.worktree_created) [
  | inl made ↦
      let e =
        invoke-IsClean setup w c (claim c.issue_id d) r w.invocation refl
          (ap (λ (x : Outcome × Daemon). x.0) (sym (dispatch-made setup w c d made)) ∙ h) p in
      record {
        unsupervised = e.unsupervised;
        same_issue = e.same_issue;
        same_engine = e.same_engine;
        no_checkpoint = e.no_checkpoint;
        unlocked = e.unlocked;
        reported = e.reported;
        landed = e.landed;
      }
  | inr failed ↦
      let (same, id, engine) =
        conclude-result c (outcome freeze no_worktree) (claim c.issue_id d) r
          (ap (λ (x : Outcome × Daemon). x.0) (sym (dispatch-failed setup w c d failed)) ∙ h) in
      absurd (frozen (sym p ∙ ap (λ (g : GateOutcome). g.decision) same))
]

sync_reviews-autonomy : (w : World) (d : Daemon) → (sync_reviews w d).autonomy ≡ d.autonomy
unfolding sync_reviews write_status
sync_reviews-autonomy w d = ground arith

sync_reviews-claimed : (w : World) (d : Daemon) → (sync_reviews w d).claimed ≡ d.claimed
unfolding sync_reviews write_status
sync_reviews-claimed w d = ground arith

landed_lem :
    (x y : Option String)
    → commit_landed x y ≡ true
    → (a : String) × (b : String) × (x ≡ some a) × (y ≡ some b) × (a ≢ b)
landed_lem none y h = absurd (ground arith)
landed_lem (some a) none h = absurd (ground arith)
landed_lem (some a) (some b) h = (a, b, refl, refl, unequal a b (differ (a == b) h))
  where
    differ : (b : Bool) → not b ≡ true → b ≡ false
    differ true h = absurd (ground arith)
    differ false h = refl

-- A run goes on without a review only where the daemon is not supervised, the result is of the first
-- issue of the tracker that was not claimed, has a task shape and is routed to an engine with an
-- adapter, the router asks for no checkpoint, the count kept for the class of the task had reached the
-- threshold before the run, the engine reported success, and a commit landed in the run's worktree.
pub proceed-IsEarned :
    (setup : Setup) (w : World) (d : Daemon) (r : Result)
    → (run_once setup w d).0 ≡ finished (some r)
    → r.gate_outcome.decision ≡ proceed
    → IsEarned setup w d r
unfolding run_once
proceed-IsEarned setup w d r h p = elim (Option-cases w.issues) [
  | inl n ↦ absurd (ground arith)
  | inr (issues, e) ↦
      elim (Option-cases (first_candidate setup w (sync_reviews w d).claimed issues)) [
        | inl n ↦ absurd (ground arith)
        | inr (c, found) ↦
            let x =
              dispatch-IsClean setup w c (sync_reviews w d) r (rw (run_once, e, found) at h) p in
            let chosen =
              subst (λ claimed. first_candidate setup w claimed issues ≡ some c)
                (sync_reviews-claimed w d) found in
            let heads = landed_lem w.head_before w.head_after x.landed in
            let first = first_candidate-IsFirst setup w d.claimed issues c chosen in
            let routed = IsFirst-route setup w d.claimed first in
            record {
              issues = issues;
              tracked = e;
              c = c;
              chosen = first;
              unsupervised = x.unsupervised;
              same_issue = x.same_issue;
              same_engine = x.same_engine;
              no_checkpoint =
                  ap (λ (x : Choice). x.checkpoint_required) (sym routed) ∙ x.no_checkpoint;
              unlocked =
                  subst
                    (λ (choice : Choice).
                      IsUnlocked
                        (record { engine_id = choice.engine_id; task_shape = choice.matched_tag })
                        d.autonomy)
                    routed
                    (is_unlocked-IsUnlocked (class_of c) d.autonomy (
                      ap (λ a. is_unlocked (class_of c) a) (sym (sync_reviews-autonomy w d))
                      ∙ x.unlocked));
              reported = x.reported;
              before = heads.0;
              after = heads.1;
              head_before = heads.2;
              head_after = heads.3;
              moved = heads.4;
            }
      ]
]
