-- ===== src/Work/Correlate.antt =====
-- The correlation of the two stores' summaries by run id, in
-- agent-platform/widget_contract/run_authority.py: agreement merges, disagreement is a conflict.
pub mod Statuses
pub mod Conflicts
use cortxt.Prelude.{
  String, Bool, Option, none, some, List, [], ◌∷◌, ◌==◌, ◌&&◌, not, codes, true, false, map, ℕ, eqb,
  ltb, if◌then◌else◌,
}
use cortxt.Value.{Value, Fields, obj, get}
use cortxt.Platform.{Platform}
use cortxt.Dict.{Dict, lookup, insert}
use cortxt.Work.Moments.{Readers, ◌>>=◌, or_else, iso, pick, text_or, newest}
use cortxt.Work.Summary.{
  Conflict, Summary, store_dispatcher, store_session, known_or_unknown, summary_from_dispatcher,
}

-- `_lifecycle_successor`
abbrev pub lifecycle_successor : String → String → Option String
lifecycle_successor first second =
    if first == "succeeded" && second == "review_submitted"
    then some second
    else if second == "succeeded" && first == "review_submitted"
    then some first
    else none

-- two times that are both known and differ
abbrev pub differ : Option String → Option String → Option (String × String)
differ (some a) (some b) = if a == b then none else some (a, b)
differ _ _ = none

-- the order of texts by code point
abbrev precedes : List ℕ → List ℕ → Bool
precedes [] [] = false
precedes [] (c ∷ cs) = true
precedes (c ∷ cs) [] = false
precedes (a ∷ xs) (b ∷ ys) =
    let rest = precedes xs ys in if ltb a b then true else if eqb a b then rest else false

module _ {F : Type 0} where
  abbrev known_role : Value F → Value F → Value F
  known_role Value.null other = other
  known_role role other = role

  unfoldable pub insert_by_id : Summary F → List (Summary F) → List (Summary F)
  insert_by_id s [] = s ∷ []
  insert_by_id s (t ∷ ts) =
      if precedes (codes s.run_id) (codes t.run_id) then t ∷ insert_by_id s ts else s ∷ t ∷ ts

  -- `sorted(…, key=run_id, reverse=True)`
  unfoldable pub sort_by_id : List (Summary F) → List (Summary F)
  unfolding insert_by_id
  sort_by_id [] = []
  sort_by_id (s ∷ ts) = insert_by_id s (sort_by_id ts)

module _ (p : Platform) (r : Readers p.Float) where
  -- `_merged_tail`
  unfoldable pub merged_tail :
      Summary p.Float → Summary p.Float → String → Option Conflict → Summary p.Float
  merged_tail existing s status conflict = record {
    run_id = existing.run_id;
    issue_ref = existing.issue_ref;
    status = status;
    engine = or_else existing.engine s.engine;
    worker_role = known_role existing.worker_role s.worker_role;
    started_at = or_else existing.started_at s.started_at;
    finished_at = or_else existing.finished_at s.finished_at;
    heartbeat_at = newest p r existing.heartbeat_at s.heartbeat_at;
    sources = store_dispatcher ∷ store_session ∷ [];
    conflict = conflict;
  }

  -- `_conflict_tail`
  unfoldable pub conflict_tail :
      Summary p.Float → Summary p.Float → String → String → String → Summary p.Float
  unfolding merged_tail
  conflict_tail existing s field a b =
      merged_tail existing s "conflict" (some record { field = field; values = a ∷ b ∷ [] })

  -- two summaries of one status, by their ends
  unfoldable pub settle_ends :
      Option (String × String) → Summary p.Float → Summary p.Float → Summary p.Float
  unfolding merged_tail conflict_tail
  settle_ends (some ends) existing s = conflict_tail existing s "finished_at" ends.0 ends.1
  settle_ends none existing s = merged_tail existing s existing.status none

  -- two summaries, by the later of their statuses
  unfoldable pub settle : Option String → Summary p.Float → Summary p.Float → Summary p.Float
  unfolding merged_tail conflict_tail settle_ends
  settle (some later) existing s = merged_tail existing s later none
  settle none existing s =
      if not (existing.status == s.status)
      then conflict_tail existing s "status" existing.status s.status
      else settle_ends (differ existing.finished_at s.finished_at) existing s

  -- what stands for a run that both stores know
  unfoldable pub combine : Summary p.Float → Summary p.Float → Summary p.Float
  unfolding settle
  combine existing s = settle (lifecycle_successor existing.status s.status) existing s

  -- the summary of one of the session store's runs
  unfoldable pub session_summary : Fields p.Float → String → Summary p.Float
  session_summary raw ref =
      let finished = iso (get raw "finished_at") in
      let start = iso (get raw "started_at") in
      record {
        run_id = r.text (get raw "run_id");
        issue_ref = ref;
        status = known_or_unknown (text_or p r (get raw "status") "in_progress");
        engine = iso (get raw "engine");
        worker_role = pick raw ("worker_role" ∷ []);
        started_at = start;
        finished_at = finished;
        heartbeat_at = or_else (iso (get raw "heartbeat_at")) (or_else finished start);
        sources = store_session ∷ [];
        conflict = none;
      }

  abbrev pub combine_known : Option (Summary p.Float) → Summary p.Float → Summary p.Float
  combine_known none s = s
  combine_known (some existing) s = combine existing s

  -- a summary joins what is known of its run
  unfoldable pub join : Dict (Summary p.Float) → Summary p.Float → Dict (Summary p.Float)
  unfolding combine
  join merged s = insert s.run_id (combine_known (lookup s.run_id merged) s) merged

  -- one of the session store's runs, when it is the issue's
  unfoldable pub join_session :
      Value p.Float → String → Dict (Summary p.Float) → Dict (Summary p.Float)
  unfolding session_summary join
  join_session (obj raw) ref merged =
      if text_or p r (get raw "issue_ref") "" == ref
      then join merged (session_summary raw ref)
      else merged
  join_session v ref merged = merged

  unfoldable pub join_sessions :
      List (Value p.Float) → String → Dict (Summary p.Float) → Dict (Summary p.Float)
  unfolding join_session
  join_sessions [] ref merged = merged
  join_sessions (v ∷ runs) ref merged = join_sessions runs ref (join_session v ref merged)

  abbrev pub keep : Option (Summary p.Float) → Dict (Summary p.Float) → Dict (Summary p.Float)
  keep none merged = merged
  keep (some s) merged = insert s.run_id s merged

  -- the dispatcher's runs of the issue: `none` is an exception
  unfoldable pub read_dispatcher :
      List (Value p.Float) → String → Dict (Summary p.Float) → Option (Dict (Summary p.Float))
  read_dispatcher [] ref merged = some merged
  read_dispatcher (run ∷ runs) ref merged = do
    s ← summary_from_dispatcher p r run ref
    read_dispatcher runs ref (keep s merged)

  -- `correlate_run_summaries`
  unfoldable pub correlate_run_summaries :
      String → List (Value p.Float) → List (Value p.Float) → Option (List (Summary p.Float))
  unfolding read_dispatcher join_sessions sort_by_id
  correlate_run_summaries ref dispatcher sessions = do
    merged ← read_dispatcher dispatcher ref []
    some (sort_by_id (map (λ entry. entry.1) (join_sessions sessions ref merged)))
