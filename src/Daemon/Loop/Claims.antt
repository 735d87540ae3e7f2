-- ===== src/Daemon/Loop/Claims.antt =====
-- No issue is dispatched twice, over any iterations and restarts.
use cortxt.Prelude.{
  String, ◌≡◌, refl, sym, ap, subst, ◌∙◌, true, false, some, List, [], ◌∷◌, arith, contains, ◌==◌,
  ==_true, ==_refl, All, Bool-cases, Option-cases, inl, inr, if◌then◌else◌,
}
use cortxt.Mandate.Nonces.{insert_sorted, contains-insert_sorted}
use cortxt.Daemon.Gate.{GateOutcome, outcome, freeze, no_worktree, no_start, evaluate_gate}
use cortxt.Daemon.Loop.{
  Issue, World, Call, Invocation, Setup, Daemon, Candidate, restart, write_status, sync_reviews,
  consider, first_candidate, claim, conclude, called, invoke, dispatch, run_once, returned,
  could_not_start, other_error, envelope_of, needs_checkpoint,
}

-- What happens to a daemon: an iteration, or an end of the process and a new start.
pub data Event : Type 0 where
  iteration : World → Event
  restarted : Event

unfoldable pub step : Setup → Event → Daemon → Daemon
step setup (iteration w) d = (run_once setup w d).1
step setup restarted d = restart d

unfoldable pub run : Setup → List Event → Daemon → Daemon
run setup [] d = d
run setup (e ∷ events) d = run setup events (step setup e d)

-- no two calls are about one issue
unfoldable pub Distinct : List Call → Type 0
Distinct [] = Unit
Distinct (c ∷ calls) = All (λ (e : Call). (e.issue_id == c.issue_id) ≡ false) calls × Distinct calls

-- The claims are on disk, every call is about a claimed issue, and no two about the same.
pub record IsSafe (claimed saved : List String) (calls : List Call) : Type 0 where
  pub persisted : claimed ≡ saved
  pub backed : All (λ (c : Call). contains c.issue_id saved ≡ true) calls
  pub distinct : Distinct calls

abbrev pub Safe : Daemon → Type 0
Safe d = IsSafe d.claimed d.saved_claimed d.calls

sync_reviews-Safe : (w : World) (d : Daemon) → Safe d → Safe (sync_reviews w d)
unfolding sync_reviews write_status
sync_reviews-Safe w d s = elim (Option-cases w.review) [ inl n ↦ rw n s | inr (r, e) ↦ rw e s ]

conclude-Safe : (c : Candidate) (g : GateOutcome) (d : Daemon) → Safe d → Safe (conclude c g d).1
unfolding conclude write_status
conclude-Safe c g d s = s

-- a claimed issue is in no call so far
fresh_call :
    (id : String) (saved : List String) (calls : List Call)
    → contains id saved ≡ false
    → All (λ (c : Call). contains c.issue_id saved ≡ true) calls
    → All (λ (e : Call). (e.issue_id == id) ≡ false) calls
fresh_call id saved [] h b = tt
fresh_call id saved (c ∷ calls) h b = (
  elim (Bool-cases (c.issue_id == id)) [
    | inr other ↦ other
    | inl same ↦
        absurd (
          ground
            (arith, ap (λ (s : String). contains s saved) (==_true c.issue_id id same), h, b.0))
  ],
  fresh_call id saved calls h b.1,
)

still_backed :
    (id : String) (saved : List String) (calls : List Call)
    → All (λ (c : Call). contains c.issue_id saved ≡ true) calls
    → All (λ (c : Call). contains c.issue_id (insert_sorted id saved) ≡ true) calls
still_backed id saved [] b = tt
still_backed id saved (c ∷ calls) b = (
  ground (arith, contains-insert_sorted c.issue_id id saved, b.0),
  still_backed id saved calls b.1,
)

consider-fresh :
    (setup : Setup) (w : World) (claimed : List String) (i : Issue) (c : Candidate)
    → consider setup w claimed i ≡ some c
    → contains c.issue_id claimed ≡ false
unfolding consider
consider-fresh setup w claimed i c h = ground arith

first_candidate-fresh :
    (setup : Setup) (w : World) (claimed : List String) (issues : List Issue) (c : Candidate)
    → first_candidate setup w claimed issues ≡ some c
    → contains c.issue_id claimed ≡ false
unfolding first_candidate
first_candidate-fresh setup w claimed [] c h = absurd (ground arith)
first_candidate-fresh setup w claimed (i ∷ issues) c h =
    elim (Option-cases (consider setup w claimed i)) [
      | inl n ↦ first_candidate-fresh setup w claimed issues c (rw (first_candidate, n) at h)
      | inr (x, e) ↦ consider-fresh setup w claimed i c (e ∙ (rw (first_candidate, e) at h))
    ]

claim-Safe :
    (id : String) (d : Daemon)
    → contains id d.claimed ≡ false
    → Safe d
    → Safe (claim id d)
      × (contains id (claim id d).saved_claimed ≡ true)
      × All (λ (e : Call). (e.issue_id == id) ≡ false) (claim id d).calls
unfolding claim
claim-Safe id d new s =
    let old : contains id d.saved_claimed ≡ false =
      subst (λ (x : List String). contains id x ≡ false) s.persisted new in
    (
      record {
        persisted = refl;
        backed =
            subst (λ (x : List String). All (λ (e : Call). contains e.issue_id x ≡ true) d.calls)
              (sym claimed_now)
              (still_backed id d.claimed d.calls (
                subst
                  (λ (x : List String). All (λ (e : Call). contains e.issue_id x ≡ true) d.calls)
                  (sym s.persisted) s.backed));
        distinct = s.distinct;
      },
      ground (arith, new, contains-insert_sorted id id d.claimed, ==_refl id),
      fresh_call id d.saved_claimed d.calls old s.backed,
    )
  where
    claimed_now : (claim id d).saved_claimed ≡ insert_sorted id d.claimed
    claimed_now = rw new refl

called-Safe :
    (c : Candidate) (d : Daemon)
    → Safe d
    → contains c.issue_id d.saved_claimed ≡ true
    → All (λ (e : Call). (e.issue_id == c.issue_id) ≡ false) d.calls
    → Safe (called c d)
unfolding Distinct
called-Safe c d s claimed new = record {
  persisted = s.persisted;
  backed = (claimed, s.backed);
  distinct = (new, s.distinct);
}

invoke-Safe :
    (setup : Setup) (w : World) (c : Candidate) (d : Daemon) (i : Invocation)
    → w.invocation ≡ i
    → Safe (called c d)
    → Safe (invoke setup w c d).1
unfolding invoke
invoke-Safe setup w c d (returned status) e s =
    rw (invoke, e)
      (conclude-Safe c
        (evaluate_gate (envelope_of c w status) (needs_checkpoint setup c d)
          ("issue:" ∷ "engine:" ∷ []))
        (called c d) s)
invoke-Safe setup w c d could_not_start e s =
    rw (invoke, e) (conclude-Safe c (outcome freeze no_start) (called c d) s)
invoke-Safe setup w c d other_error e s = rw (invoke, e) s

pub dispatch-made :
    (setup : Setup) (w : World) (c : Candidate) (d : Daemon)
    → w.worktree_created ≡ true
    → dispatch setup w c d ≡ invoke setup w c (claim c.issue_id d)
unfolding dispatch
dispatch-made setup w c d made =
    ap
      (λ b.
        if b
        then invoke setup w c (claim c.issue_id d)
        else conclude c (outcome freeze no_worktree) (claim c.issue_id d))
      made

pub dispatch-failed :
    (setup : Setup) (w : World) (c : Candidate) (d : Daemon)
    → w.worktree_created ≡ false
    → dispatch setup w c d ≡ conclude c (outcome freeze no_worktree) (claim c.issue_id d)
unfolding dispatch
dispatch-failed setup w c d failed =
    ap
      (λ b.
        if b
        then invoke setup w c (claim c.issue_id d)
        else conclude c (outcome freeze no_worktree) (claim c.issue_id d))
      failed

dispatch-Safe :
    (setup : Setup) (w : World) (c : Candidate) (d : Daemon)
    → Safe d
    → contains c.issue_id d.claimed ≡ false
    → Safe (dispatch setup w c d).1
dispatch-Safe setup w c d s new =
    let (safe, claimed, none_yet) = claim-Safe c.issue_id d new s in
    elim (Bool-cases w.worktree_created) [
      | inl made ↦ rw (dispatch-made setup w c d made) (
          invoke-Safe setup w c (claim c.issue_id d) w.invocation refl
            (called-Safe c (claim c.issue_id d) safe claimed none_yet))
      | inr failed ↦
          rw (dispatch-failed setup w c d failed)
            (conclude-Safe c (outcome freeze no_worktree) (claim c.issue_id d) safe)
    ]

run_once-Safe : (setup : Setup) (w : World) (d : Daemon) → Safe d → Safe (run_once setup w d).1
unfolding run_once
run_once-Safe setup w d s =
    let synced = sync_reviews-Safe w d s in
    elim (Option-cases w.issues) [
      | inl n ↦ rw (run_once, n) synced
      | inr (issues, e) ↦
          elim (Option-cases (first_candidate setup w (sync_reviews w d).claimed issues)) [
            | inl n ↦ rw (run_once, e, n) synced
            | inr (c, found) ↦
                rw (run_once, e, found)
                  (dispatch-Safe setup w c (sync_reviews w d) synced
                    (first_candidate-fresh setup w (sync_reviews w d).claimed issues c found))
          ]
    ]

step-Safe : (setup : Setup) (e : Event) (d : Daemon) → Safe d → Safe (step setup e d)
unfolding step restart
step-Safe setup (iteration w) d s = run_once-Safe setup w d s
step-Safe setup restarted d s = record {
  persisted = refl;
  backed = s.backed;
  distinct = s.distinct;
}

-- Over any iterations and restarts the claims stay on disk, every call of an engine is about an
-- issue that is claimed there, and no two calls are about the same issue.
pub run-Safe :
    (setup : Setup) (events : List Event) (d : Daemon) → Safe d → Safe (run setup events d)
unfolding run
run-Safe setup [] d s = s
run-Safe setup (e ∷ events) d s = run-Safe setup events (step setup e d) (step-Safe setup e d s)
