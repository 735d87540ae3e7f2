-- ===== src/Work/Examples.antt =====
-- Runs of an issue in both stores, for agent-platform/widget_contract/run_authority.py and
-- next_action.py, with the theorems at them.
use cortxt.Prelude.{
  unequal, rstrip_text, lstrip_text, ℕ, pos, String, true, false, ◌≡◌, ◌≢◌, refl, none, some, List,
  [], ◌∷◌, In, here, All,
}
use cortxt.Value.{Value, Fields, null, str, obj, end, field, get, lookup}
use cortxt.Dict as Dict
use cortxt.Dict.{Dict}
use cortxt.Mandate.Samples.{whole}
use cortxt.Work.Moments.{Readers, pick, text_or, iso_timestamp, epoch, newest}
use cortxt.Work.Summary.{Summary, summary_from_dispatcher}
use cortxt.Work.Correlate.{
  read_dispatcher, session_summary, correlate_run_summaries, join_session, join_sessions, join,
  combine, settle, merged_tail, conflict_tail, sort_by_id, insert_by_id,
}
use cortxt.Work.Correlate.Statuses.{Clash}
use cortxt.Work.Correlate.Conflicts.{correlate_run_summaries-Clash}
use cortxt.Work.Freshness.{
  Freshness, compute_run_freshness, freshness_at, runs_freshness, terminal_freshness, finishes,
}
use cortxt.Work.NextAction.{
  Action, decision, recover, labels, resolve_next_action, resolution, run_holds_issue, kind_of,
}
use cortxt.Work.NextAction.Reopen.{IsSettled, reopening-IsSettled}

abbrev as_text : Value ℕ → String
as_text (str s) = s
as_text v = "None"

abbrev readers : Readers ℕ
readers = record {
  text = as_text;
  strptime = λ s format. none;
  timestamp = λ t. t;
  from_timestamp = λ v. none;
}

-- a run that the dispatcher has as succeeded, and the session store as failed
abbrev dispatched : Fields ℕ
dispatched =
    field "issue_id" (str "o/r#1")
      (field "run_id" (str "run-1") (field "status" (str "succeeded") end))

abbrev failed : Fields ℕ
failed =
    field "issue_ref" (str "o/r#1")
      (field "run_id" (str "run-1") (field "status" (str "failed") end))

abbrev dispatcher_entry : Summary ℕ
dispatcher_entry = record {
  run_id = "run-1";
  issue_ref = "o/r#1";
  status = "succeeded";
  engine = none;
  worker_role = null;
  started_at = none;
  finished_at = none;
  heartbeat_at = none;
  sources = "dispatcher.runs" ∷ [];
  conflict = none;
}

abbrev known : Dict (Summary ℕ)
known = ("run-1", dispatcher_entry) ∷ []

known_read : read_dispatcher whole readers (obj dispatched ∷ []) "o/r#1" [] ≡ some known
unfolding read_dispatcher summary_from_dispatcher pick iso_timestamp lookup get Dict.insert text_or
known_read = refl

known_found : Dict.lookup "run-1" known ≡ some dispatcher_entry
unfolding Dict.lookup
known_found = refl

owned : text_or whole readers (get failed "issue_ref") "" ≡ "o/r#1"
unfolding text_or get lookup
owned = refl

named : readers.text (get failed "run_id") ≡ "run-1"
unfolding get lookup
named = refl

clashing : Clash dispatcher_entry.status (session_summary whole readers failed "o/r#1").status
unfolding session_summary text_or get lookup pick
clashing = record { distinct = unequal "succeeded" "failed" refl; apart = refl }

-- what the two stores come to
abbrev conflicted : Summary ℕ
conflicted = record {
  run_id = "run-1";
  issue_ref = "o/r#1";
  status = "conflict";
  engine = none;
  worker_role = null;
  started_at = none;
  finished_at = none;
  heartbeat_at = none;
  sources = "dispatcher.runs" ∷ "session.events" ∷ [];
  conflict = some record { field = "status"; values = "succeeded" ∷ "failed" ∷ [] };
}

correlated :
    correlate_run_summaries whole readers "o/r#1" (obj dispatched ∷ []) (obj failed ∷ [])
    ≡ some (conflicted ∷ [])
unfolding correlate_run_summaries read_dispatcher summary_from_dispatcher pick iso_timestamp lookup
    get Dict.insert Dict.lookup text_or join_sessions join_session join combine settle conflict_tail
    merged_tail session_summary sort_by_id insert_by_id newest epoch
correlated = refl

correlate_run_summaries-Clash_example :
    (out : List (Summary ℕ)) × (correlate_run_summaries whole readers "o/r#1"
        (obj dispatched ∷ [])
        (obj failed ∷ [])
      ≡ some out)
    × ((s : Summary ℕ) × In s out × (s.run_id ≡ "run-1") × (s.status ≡ "conflict"))
correlate_run_summaries-Clash_example =
    correlate_run_summaries-Clash whole readers "o/r#1" "run-1" (obj dispatched ∷ [])
      (obj failed ∷ []) known dispatcher_entry failed known_read known_found here owned named
      clashing

abbrev unresolved : Freshness
unresolved = record { status = "indeterminate"; age_seconds = pos 0; complete = false }

abbrev review : Action
review = record { kind = decision; label = labels decision }

unresolved_now :
    compute_run_freshness whole readers (conflicted ∷ []) "noonZ" (pos 30) (pos 900)
    ≡ some unresolved
unfolding rstrip_text lstrip_text compute_run_freshness freshness_at runs_freshness epoch
unresolved_now = refl

review_next :
    (resolve_next_action whole.lower
      (some "review")
      none
      (run_holds_issue (conflicted ∷ []) (some unresolved.status))
      true).next_action
    ≡ some review
unfolding rstrip_text lstrip_text resolve_next_action resolution kind_of run_holds_issue
review_next = refl

abbrev ended : Freshness
ended = record { status = "terminal"; age_seconds = pos 0; complete = true }

abbrev recovery : Action
recovery = record { kind = recover; label = labels recover }

ended_now :
    compute_run_freshness whole readers (dispatcher_entry ∷ []) "noonZ" (pos 30) (pos 900)
    ≡ some ended
unfolding rstrip_text lstrip_text compute_run_freshness freshness_at runs_freshness
    terminal_freshness finishes epoch
ended_now = refl

recovery_next :
    (resolve_next_action whole.lower
      (some "in-progress")
      none
      (run_holds_issue (dispatcher_entry ∷ []) (some ended.status))
      false).next_action
    ≡ some recovery
unfolding rstrip_text lstrip_text resolve_next_action resolution kind_of run_holds_issue
recovery_next = refl

reopening-IsSettled_example : ((dispatcher_entry ∷ []) ≢ []) × All IsSettled (dispatcher_entry ∷ [])
reopening-IsSettled_example =
    reopening-IsSettled whole readers whole.lower (some "in-progress") none false
      (dispatcher_entry ∷ []) "noonZ" (pos 30) (pos 900) ended recovery ended_now recovery_next refl
