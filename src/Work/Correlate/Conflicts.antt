-- ===== src/Work/Correlate/Conflicts.antt =====
-- A disagreement of the two stores on a run is in the correlated summaries as a conflict:
-- `correlate_run_summaries` of agent-platform/widget_contract/run_authority.py.
use cortxt.Prelude.{
  String, Bool, true, false, ◌≡◌, inl, inr, refl, sym, subst, ap, ◌∙◌, Option, none, some, List, [],
  ◌∷◌, ◌==◌, ==_refl, ==_true, In, here, there, map, arith, Bool-cases, if◌then◌else◌,
}
use mathlib.Core.Option.{some-injective}
use cortxt.Value.{Value, Fields, obj, get}
use cortxt.Platform.{Platform}
use cortxt.Dict.{Dict, lookup, insert, lookup-insert}
use cortxt.Work.Moments.{Readers, ◌>>=◌, text_or}
use cortxt.Work.Summary.{Summary, summary_from_dispatcher}
use cortxt.Work.Correlate.{
  insert_by_id, sort_by_id, combine, combine_known, session_summary, join, join_session,
  join_sessions, keep, read_dispatcher, correlate_run_summaries,
}
use cortxt.Work.Correlate.Statuses.{
  Clash, Follows, Follows-next_status, next_status-Clash, next_status_conflict, combine-status,
  combine-id,
}

-- The first two elements change places, and the second is placed further on.
In-swap :
    {A : Type 0} (s t u : A) (l k : List A)
    → In s (t ∷ u ∷ l)
    → (In s (t ∷ l) → In s k)
    → In s (u ∷ k)
In-swap s t u l k here rest = there (rest here)
In-swap s t u l k (there here) rest = here
In-swap s t u l k (there (there j)) rest = there (rest (there j))

module _ {F : Type 0} where
  In-lookup :
      (id : String) (d : Dict (Summary F)) (s : Summary F)
      → lookup id d ≡ some s
      → In s (map (λ entry. entry.1) d)
  unfolding lookup
  In-lookup id [] s h = absurd (ground arith)
  In-lookup id ((k, v) ∷ d) s h = find_in (k == id) h (In-lookup id d s)
    where
      find_in :
          (b : Bool)
          → (if b then some v else lookup id d) ≡ some s
          → (lookup id d ≡ some s → In s (map (λ entry. entry.1) d))
          → In s (v ∷ map (λ entry. entry.1) d)
      find_in true e rest =
          subst (λ x. In x (v ∷ map (λ entry. entry.1) d)) (some-injective _ _ e) here
      find_in false e rest = there (rest e)

  In-insert_by_id :
      (s t : Summary F) (l : List (Summary F)) → In s (t ∷ l) → In s (insert_by_id t l)
  unfolding insert_by_id
  In-insert_by_id s t [] i = i
  In-insert_by_id s t (u ∷ l) i = place _ i (In-insert_by_id s t l)
    where
      place :
          (b : Bool)
          → In s (t ∷ u ∷ l)
          → (In s (t ∷ l) → In s (insert_by_id t l))
          → In s (if b then u ∷ insert_by_id t l else t ∷ u ∷ l)
      place false i rest = i
      place true i rest = In-swap s t u l (insert_by_id t l) i rest

  In-sort_by_id : (s : Summary F) (l : List (Summary F)) → In s l → In s (sort_by_id l)
  unfolding sort_by_id
  In-sort_by_id s [] i = elim i [ ]
  In-sort_by_id s (t ∷ l) here = In-insert_by_id s s (sort_by_id l) here
  In-sort_by_id s (t ∷ l) (there i) =
      In-insert_by_id s t (sort_by_id l) (there (In-sort_by_id s l i))

module _ (p : Platform) (r : Readers p.Float) where
  -- The entry of a run in the summaries so far, with what holds of it.
  abbrev Entry : (Summary p.Float → Type 0) → String → Dict (Summary p.Float) → Type 0
  Entry Q id merged = (e : Summary p.Float) × (lookup id merged ≡ some e) × Q e

  join_same :
      (id : String) (merged : Dict (Summary p.Float)) (e s : Summary p.Float)
      → lookup id merged ≡ some e
      → s.run_id ≡ id
      → lookup id (join p r merged s) ≡ some (combine p r e s)
  unfolding join
  join_same id merged e s h same =
      lookup-insert s.run_id id (combine_known p r (lookup s.run_id merged) s) merged
      ∙ rw (same, ==_refl id, h) refl

  join_other :
      (id : String) (merged : Dict (Summary p.Float)) (s : Summary p.Float)
      → (s.run_id == id) ≡ false
      → lookup id (join p r merged s) ≡ lookup id merged
  unfolding join
  join_other id merged s other =
      lookup-insert s.run_id id (combine_known p r (lookup s.run_id merged) s) merged
      ∙ rw other refl

  -- What combining keeps of a run, the summaries of the session store keep.
  module _ (Q : Summary p.Float → Type 0)
      (closed : (e s : Summary p.Float) → Q e → Q (combine p r e s)) where
    join-Entry :
        (id : String) (merged : Dict (Summary p.Float)) (s : Summary p.Float)
        → Entry Q id merged
        → Entry Q id (join p r merged s)
    join-Entry id merged s (e, h, q) = elim (Bool-cases (s.run_id == id)) [
      | inl same ↦
          (combine p r e s, join_same id merged e s h (==_true s.run_id id same), closed e s q)
      | inr other ↦ (e, join_other id merged s other ∙ h, q)
    ]

    join_session-Entry :
        (v : Value p.Float) (ref id : String) (merged : Dict (Summary p.Float))
        → Entry Q id merged
        → Entry Q id (join_session p r v ref merged)
    unfolding join_session
    join_session-Entry (obj raw) ref id merged entry =
        gate (text_or p r (get raw "issue_ref") "" == ref)
      where
        gate :
            (b : Bool)
            → Entry Q id (if b then join p r merged (session_summary p r raw ref) else merged)
        gate true = join-Entry id merged (session_summary p r raw ref) entry
        gate false = entry
    join_session-Entry v ref id merged entry = entry

    join_sessions-Entry :
        (runs : List (Value p.Float)) (ref id : String) (merged : Dict (Summary p.Float))
        → Entry Q id merged
        → Entry Q id (join_sessions p r runs ref merged)
    unfolding join_sessions
    join_sessions-Entry [] ref id merged entry = entry
    join_sessions-Entry (v ∷ runs) ref id merged entry =
        join_sessions-Entry runs ref id _ (join_session-Entry v ref id merged entry)

  -- The session store's run `raw`, of the issue and of the id, meets the entry.
  module _ (Q Q' : Summary p.Float → Type 0)
      (closed : (e s : Summary p.Float) → Q e → Q (combine p r e s))
      (closed' : (e s : Summary p.Float) → Q' e → Q' (combine p r e s)) (raw : Fields p.Float)
      (ref id : String) (owned : text_or p r (get raw "issue_ref") "" ≡ ref)
      (named : r.text (get raw "run_id") ≡ id)
      (meet : (e : Summary p.Float) → Q e → Q' (combine p r e (session_summary p r raw ref))) where
    meet-Entry :
        (merged : Dict (Summary p.Float))
        → Entry Q id merged
        → Entry Q' id (join_session p r (obj raw) ref merged)
    unfolding join_session session_summary
    meet-Entry merged (e, h, q) =
        let s = session_summary p r raw ref in
        let open_ : (text_or p r (get raw "issue_ref") "" == ref) ≡ true = rw owned (==_refl ref) in
        (
          combine p r e s,
          ap (λ b. lookup id (if b then join p r merged s else merged)) open_
              ∙ join_same id merged e s h named,
          meet e q,
        )

    sessions-Entry :
        (runs : List (Value p.Float)) (merged : Dict (Summary p.Float))
        → In (obj raw) runs
        → Entry Q id merged
        → Entry Q' id (join_sessions p r runs ref merged)
    unfolding join_sessions
    sessions-Entry [] merged i entry = elim i [ ]
    sessions-Entry (v ∷ runs) merged here entry =
        join_sessions-Entry Q' closed' runs ref id _ (meet-Entry merged entry)
    sessions-Entry (v ∷ runs) merged (there i) entry =
        sessions-Entry runs _ i (join_session-Entry Q closed v ref id merged entry)

  -- The summaries are kept under their own ids.
  abbrev IsKeyed : Dict (Summary p.Float) → Type 0
  IsKeyed merged = (id : String) (e : Summary p.Float) → lookup id merged ≡ some e → e.run_id ≡ id

  empty-IsKeyed : IsKeyed []
  unfolding lookup
  empty-IsKeyed id e h = absurd (ground arith)

  insert-IsKeyed :
      (s : Summary p.Float) (merged : Dict (Summary p.Float))
      → IsKeyed merged
      → IsKeyed (insert s.run_id s merged)
  insert-IsKeyed s merged k id e h =
      split (s.run_id == id) refl (sym (lookup-insert s.run_id id s merged) ∙ h)
    where
      split :
          (b : Bool)
          → (s.run_id == id) ≡ b
          → (if b then some s else lookup id merged) ≡ some e
          → e.run_id ≡ id
      split true same g =
          sym (ap (λ (x : Summary p.Float). x.run_id) (some-injective _ _ g))
          ∙ ==_true s.run_id id same
      split false other g = k id e g

  keep-IsKeyed :
      (o : Option (Summary p.Float)) (merged : Dict (Summary p.Float))
      → IsKeyed merged
      → IsKeyed (keep p r o merged)
  keep-IsKeyed none merged k = k
  keep-IsKeyed (some s) merged k = insert-IsKeyed s merged k

  read_dispatcher-IsKeyed :
      (runs : List (Value p.Float)) (ref : String) (merged out : Dict (Summary p.Float))
      → IsKeyed merged
      → read_dispatcher p r runs ref merged ≡ some out
      → IsKeyed out
  unfolding read_dispatcher
  read_dispatcher-IsKeyed [] ref merged out k h = subst IsKeyed (some-injective _ _ h) k
  read_dispatcher-IsKeyed (run ∷ runs) ref merged out k h =
      next (summary_from_dispatcher p r run ref) h
        (λ s. read_dispatcher-IsKeyed runs ref (keep p r s merged) out (keep-IsKeyed s merged k))
    where
      next :
          (o : Option (Option (Summary p.Float)))
          → (o >>= λ s. read_dispatcher p r runs ref (keep p r s merged)) ≡ some out
          → ((s : Option (Summary p.Float))
              → read_dispatcher p r runs ref (keep p r s merged) ≡ some out
              → IsKeyed out)
          → IsKeyed out
      next none g rest = absurd (ground arith)
      next (some s) g rest = rest s g

  -- When the dispatcher's run and a run of the session store have one id and clashing statuses, the
  -- correlated summaries, where the records can be read, show the run as a conflict.
  pub correlate_run_summaries-Clash :
      (ref id : String) (dispatcher sessions : List (Value p.Float))
      (merged : Dict (Summary p.Float)) (d : Summary p.Float) (raw : Fields p.Float)
      → read_dispatcher p r dispatcher ref [] ≡ some merged
      → lookup id merged ≡ some d
      → In (obj raw) sessions
      → text_or p r (get raw "issue_ref") "" ≡ ref
      → r.text (get raw "run_id") ≡ id
      → Clash d.status (session_summary p r raw ref).status
      → (out : List (Summary p.Float)) × (correlate_run_summaries p r ref dispatcher sessions
          ≡ some out)
        × ((s : Summary p.Float) × In s out × (s.run_id ≡ id) × (s.status ≡ "conflict"))
  unfolding correlate_run_summaries
  correlate_run_summaries-Clash ref id dispatcher sessions merged d raw h found i owned named
        clash =
      let (s, at, (same, conflict)) =
        sessions-Entry agrees shows agrees-closed shows-closed raw ref id owned named meet sessions
          merged i
          (
            d,
            found,
            (read_dispatcher-IsKeyed dispatcher ref [] merged empty-IsKeyed h id d found, inl refl),
          ) in
      (
        _,
        ap
            (λ m. m >>= λ m.
              some (sort_by_id (map (λ entry. entry.1) (join_sessions p r sessions ref m))))
            h,
        (s, In-sort_by_id s _ (In-lookup id _ s at), same, conflict),
      )
    where
      agrees : Summary p.Float → Type 0
      agrees e = (e.run_id ≡ id) × Follows d.status e.status

      shows : Summary p.Float → Type 0
      shows e = (e.run_id ≡ id) × (e.status ≡ "conflict")

      agrees-closed : (e s : Summary p.Float) → agrees e → agrees (combine p r e s)
      agrees-closed e s q = (
        combine-id p r e s ∙ q.0,
        subst (Follows d.status) (sym (combine-status p r e s))
            (Follows-next_status d.status e.status s.status _ q.1),
      )

      shows-closed : (e s : Summary p.Float) → shows e → shows (combine p r e s)
      shows-closed e s q = (
        combine-id p r e s ∙ q.0,
        combine-status p r e s ∙ rw q.1 (next_status_conflict s.status _),
      )

      meet : (e : Summary p.Float) → agrees e → shows (combine p r e (session_summary p r raw ref))
      meet e q =
          let s = session_summary p r raw ref in
          (
            combine-id p r e s ∙ q.0,
            combine-status p r e s ∙ next_status-Clash d.status e.status s.status _ q.1 clash,
          )
