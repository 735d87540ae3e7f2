-- ===== src/Work/NextAction/Reopen.antt =====
-- An action that returns an issue to ready is offered only when every run of the issue has ended and
-- the dispatcher says so.
use cortxt.Prelude.{
  ℤ, pos, ltb_ℤ, not, ◌∙◌, String, Bool, true, false, ◌||◌, ◌≡◌, ◌≢◌, inl, inr, refl, sym, ap,
  Option, none, some, List, [], ◌∷◌, eq_iff, any, all, contains, is_some, unequal, subst, In, here,
  there, All, arith, Bool-cases, if◌then◌else◌,
}
use mathlib.Core.Option.{some-injective}
use cortxt.Platform.{Platform}
use cortxt.Value.{Value, Fields, obj, get}
use cortxt.Dict.{Dict, lookup}
use cortxt.Work.Moments.{Readers, ◌>>=◌, epoch, text_or}
use cortxt.Work.Correlate.{read_dispatcher, session_summary, correlate_run_summaries}
use cortxt.Work.Correlate.Statuses.{Clash}
use cortxt.Work.Correlate.Conflicts.{correlate_run_summaries-Clash}
use cortxt.Work.Summary.{Summary, store_dispatcher}
use cortxt.Work.Freshness.{
  Freshness, is_unresolved, is_active, runs_freshness, active_freshness, running_status,
  terminal_freshness, signals, finishes, freshness_at, compute_run_freshness,
}
use cortxt.Work.NextAction.{
  Kind, recover, unblock, Action, run_holds_issue, kind_of, resolution, resolve_next_action,
}

-- The run has an ordinary status other than running, and the dispatcher is among those that say so.
pub record IsSettled {F : Type 0} (s : Summary F) : Type 0 where
  pub resolved : is_unresolved s ≡ false
  pub ended : is_active s ≡ false
  pub released : contains store_dispatcher s.sources ≡ true

-- The actions that end at ready, from a state that is not.
abbrev pub is_reopening : Kind → Bool
is_reopening recover = true
is_reopening unblock = true
is_reopening _ = false

IsSettled-all :
    {F : Type 0} (runs : List (Summary F))
    → any is_unresolved runs ≡ false
    → any is_active runs ≡ false
    → all (λ s. contains store_dispatcher s.sources) runs ≡ true
    → All IsSettled runs
IsSettled-all [] hu ha hd = tt
IsSettled-all (s ∷ runs) hu ha hd = (
  record { resolved = ground arith; ended = ground arith; released = ground arith },
  IsSettled-all runs (ground arith) (ground arith) (ground arith),
)

-- A reopening action needs that no run holds the issue.
reopens-released :
    (lower : String → String) (w : Option String) (e a : Option Bool) (evidence : Bool) (k : Kind)
    → kind_of lower w e a evidence ≡ some k
    → is_reopening k ≡ true
    → a ≡ some false
unfolding kind_of
reopens-released lower w e none evidence k h o = absurd (ground arith)
reopens-released lower w e (some true) evidence k h o = absurd (ground arith)
reopens-released lower w e (some false) evidence k h o = refl

resolution-kind :
    (k : Option Kind) (n : Action) → (resolution k).next_action ≡ some n → k ≡ some n.kind
unfolding resolution
resolution-kind none n h = absurd (ground arith)
resolution-kind (some k) n h = ap (λ (a : Action). some a.kind) (some-injective _ _ h)

-- The answer that no run holds the issue.
holds-false :
    {F : Type 0} (runs : List (Summary F)) (status : String)
    → run_holds_issue runs (some status) ≡ some false
    → (status ≡ "terminal")
      × (runs ≢ [])
      × (all (λ s. contains store_dispatcher s.sources) runs ≡ true)
unfolding run_holds_issue
holds-false [] status h = absurd (ground arith)
holds-false (s ∷ runs) status h =
    (ground (arith, eq_iff status "terminal"), (λ e. ground arith), ground arith)

abbrev bound_name : Bool → Bool → String
bound_name a b = if a then "fresh" else if b then "stale" else "stranded_running"

-- The age of an active run's signal is no end of it.
bound_name-end : (a b : Bool) → bound_name a b ≢ "terminal"
bound_name-end true b h = unequal "fresh" "terminal" refl h
bound_name-end false true h = unequal "stale" "terminal" refl h
bound_name-end false false h = unequal "stranded_running" "terminal" refl h

status_eq : (f g : Freshness) → some f ≡ some g → f.status ≡ g.status
status_eq f g h = ap (λ (x : Freshness). x.status) (some-injective _ _ h)

module _ (p : Platform) (r : Readers p.Float) where
  graded-end :
      (o : Option ℤ) (stale stranded : ℤ) (f : Freshness)
      → (o >>= λ seconds. some record {
        status = running_status p r stale stranded seconds;
        age_seconds = seconds;
        complete = false;
      })
        ≡ some f
      → f.status ≢ "terminal"
  unfolding running_status
  graded-end none stale stranded f h e = ground arith
  graded-end (some seconds) stale stranded f h e =
      bound_name-end (not (ltb_ℤ stale seconds)) (not (ltb_ℤ stranded seconds))
        (status_eq _ f h ∙ e)

  active_freshness-end :
      (now : p.Float) (stale stranded : ℤ) (xs : List p.Float) (f : Freshness)
      → active_freshness p r now stale stranded xs ≡ some f
      → f.status ≢ "terminal"
  unfolding active_freshness
  active_freshness-end now stale stranded [] f h e =
      unequal "stranded_running" "terminal" refl (status_eq _ f h ∙ e)
  active_freshness-end now stale stranded (x ∷ xs) f h e = graded-end _ stale stranded f h e

  -- Runs are terminal only if none of them is unresolved or active.
  runs_freshness-terminal :
      (runs : List (Summary p.Float)) (now : p.Float) (stale stranded : ℤ) (f : Freshness)
      → runs_freshness p r runs now stale stranded ≡ some f
      → f.status ≡ "terminal"
      → (any is_unresolved runs ≡ false) × (any is_active runs ≡ false)
  unfolding runs_freshness
  runs_freshness-terminal runs now stale stranded f h e =
      ends_only (any is_unresolved runs) (any is_active runs) h
    where
      ends_only :
          (u a : Bool)
          → (if u
              then some record { status = "indeterminate"; age_seconds = pos 0; complete = false }
              else if a
              then active_freshness p r now stale stranded (signals p r runs)
              else terminal_freshness p r now (finishes p r runs))
            ≡ some f
          → (u ≡ false) × (a ≡ false)
      ends_only true a k = absurd (unequal "indeterminate" "terminal" refl (status_eq _ f k ∙ e))
      ends_only false true k = absurd (active_freshness-end now stale stranded _ f k e)
      ends_only false false k = (refl, refl)

  freshness_at-terminal :
      (o : Option p.Float) (runs : List (Summary p.Float)) (stale stranded : ℤ) (f : Freshness)
      → freshness_at p r o runs stale stranded ≡ some f
      → f.status ≡ "terminal"
      → (any is_unresolved runs ≡ false) × (any is_active runs ≡ false)
  unfolding freshness_at
  freshness_at-terminal none runs stale stranded f h e =
      absurd (unequal "unavailable" "terminal" refl (status_eq _ f h ∙ e))
  freshness_at-terminal (some now) [] stale stranded f h e =
      absurd (unequal "fresh" "terminal" refl (status_eq _ f h ∙ e))
  freshness_at-terminal (some now) (s ∷ runs) stale stranded f h e =
      runs_freshness-terminal (s ∷ runs) now stale stranded f h e

  -- When the next action of an issue, from the freshness of its runs, is to return the issue to
  -- ready, there is a run, and every run is settled.
  pub reopening-IsSettled :
      (lower : String → String) (workflow : Option String) (eligible : Option Bool)
      (evidence : Bool) (runs : List (Summary p.Float)) (now : String) (stale stranded : ℤ)
      (f : Freshness) (action : Action)
      → compute_run_freshness p r runs now stale stranded ≡ some f
      → (resolve_next_action lower workflow eligible
          (run_holds_issue runs (some f.status))
          evidence).next_action
        ≡ some action
      → is_reopening action.kind ≡ true
      → (runs ≢ []) × All IsSettled runs
  unfolding compute_run_freshness resolve_next_action
  reopening-IsSettled lower workflow eligible evidence runs now stale stranded f action h n o =
      let held = run_holds_issue runs (some f.status) in
      let kind = resolution-kind (kind_of lower workflow eligible held evidence) action n in
      let released = reopens-released lower workflow eligible held evidence action.kind kind o in
      let terminal = holds-false runs f.status released in
      let ended = freshness_at-terminal (epoch p r now) runs stale stranded f h terminal.0 in
      (terminal.1, IsSettled-all runs ended.0 ended.1 terminal.2)

conflict_unsettled : {F : Type 0} (s : Summary F) → s.status ≡ "conflict" → ¬ IsSettled s
conflict_unsettled s h settled =
    let e : true ≡ false =
      sym (ap (λ t. contains t ("conflict" ∷ "unknown" ∷ []) || is_some s.conflict) h)
      ∙ settled.resolved in
    ground arith

All-In : {A : Type 0} (P : A → Type 0) (x : A) (xs : List A) → In x xs → All P xs → P x
All-In P x [] i h = elim i [ ]
All-In P x (y ∷ xs) here h = h.0
All-In P x (y ∷ xs) (there i) h = All-In P x xs i h.1

module _ (p : Platform) (r : Readers p.Float) where
  -- When the dispatcher's run and a run of the session store have one id and clashing statuses, no
  -- action on the correlated summaries returns the issue to ready.
  disagreement_not_reopened :
      (ref id : String) (dispatcher sessions : List (Value p.Float))
      (merged : Dict (Summary p.Float)) (d : Summary p.Float) (raw : Fields p.Float)
      → read_dispatcher p r dispatcher ref [] ≡ some merged
      → lookup id merged ≡ some d
      → In (obj raw) sessions
      → text_or p r (get raw "issue_ref") "" ≡ ref
      → r.text (get raw "run_id") ≡ id
      → Clash d.status (session_summary p r raw ref).status
      → (lower : String → String) (workflow : Option String) (eligible : Option Bool)
        (evidence : Bool) (runs : List (Summary p.Float)) (now : String) (stale stranded : ℤ)
        (f : Freshness) (action : Action)
      → correlate_run_summaries p r ref dispatcher sessions ≡ some runs
      → compute_run_freshness p r runs now stale stranded ≡ some f
      → (resolve_next_action lower workflow eligible
          (run_holds_issue runs (some f.status))
          evidence).next_action
        ≡ some action
      → is_reopening action.kind ≡ false
  disagreement_not_reopened ref id dispatcher sessions merged d raw h found i owned named c lower
        workflow eligible evidence runs now stale stranded f action correlated fresh next =
      elim (Bool-cases (is_reopening action.kind)) [
        | inr shut ↦ shut
        | inl opens ↦
            let (out, same, (s, place, named_same, conflict)) =
              correlate_run_summaries-Clash p r ref id dispatcher sessions merged d raw h found i
                owned named c in
            let settled =
              reopening-IsSettled p r lower workflow eligible evidence runs now stale stranded f
                action fresh next opens in
            let one =
              All-In IsSettled s runs
                (subst (In s) (some-injective _ _ (sym same ∙ correlated)) place) settled.1 in
            absurd (conflict_unsettled s conflict one)
      ]
