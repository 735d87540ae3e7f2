-- ===== src/Work/Correlate/Statuses.antt =====
-- The status that stands for two summaries of a run, in agent-platform/widget_contract/run_authority.py.
use cortxt.Prelude.{
  String, Bool, true, false, ◌&&◌, not, ◌≡◌, refl, sym, ◌∙◌, Option, none, some, ◌==◌, eq_iff,
  ==_true, ◌≢◌, ◌⊎◌, &&_elim, is_some, arith, inl, inr, if◌then◌else◌,
}
use cortxt.Platform.{Platform}
use cortxt.Work.Moments.{Readers}
use cortxt.Work.Summary.{Summary}
use cortxt.Work.Correlate.{
  lifecycle_successor, differ, merged_tail, conflict_tail, settle_ends, settle, combine,
}

-- One status, then the one that follows it in a run's life.
abbrev consecutive : String → String → Bool
consecutive a b = a == "succeeded" && b == "review_submitted"

-- Two statuses that are neither equal nor consecutive moments of one run.
pub record Clash (a b : String) : Type 0 where
  pub distinct : a ≢ b
  pub apart : lifecycle_successor a b ≡ none

-- What a run of the dispatcher's status can stand at after summaries of the session store.
abbrev pub Follows : String → String → Type 0
Follows d b = (b ≡ d) ⊎ ((b ≡ "conflict") ⊎ ((d ≡ "succeeded") × (b ≡ "review_submitted")))

consecutive-eqs :
    (a b : String) → consecutive a b ≡ true → (a ≡ "succeeded") × (b ≡ "review_submitted")
consecutive-eqs a b h =
    let k = &&_elim (a == "succeeded") (b == "review_submitted") h in
    (==_true a "succeeded" k.0, ==_true b "review_submitted" k.1)

some-none {ℓ} : {A : Type ℓ} {a : A} → ¬ (some a ≡ none)
some-none h = ground arith

apart-consecutive :
    (x y : Bool) (a b : String)
    → (if x then some b else if y then some a else none) ≡ none
    → (x ≢ true) × (y ≢ true)
apart-consecutive true y a b h = absurd (some-none h)
apart-consecutive false true a b h = absurd (some-none h)
apart-consecutive false false a b h = ((λ e. ground arith), (λ e. ground arith))

Clash-consecutive : (a b : String) → Clash a b → (consecutive a b ≢ true) × (consecutive b a ≢ true)
Clash-consecutive a b c = apart-consecutive (consecutive a b) (consecutive b a) a b c.apart

abbrev choice : Bool → Bool → Bool → Bool → String → String → String
choice later earlier same ends a b =
    if later
    then b
    else if earlier
    then a
    else if not same
    then "conflict"
    else if ends
    then "conflict"
    else a

-- The status that stands for two, where the ends differ or not.
abbrev pub next_status : String → String → Bool → String
next_status a b ends = choice (consecutive a b) (consecutive b a) (a == b) ends a b

Follows-choice :
    (later earlier same ends : Bool) (d a b : String)
    → Follows d a
    → (later ≡ true → Follows d b)
    → Follows d (choice later earlier same ends a b)
Follows-choice true earlier same ends d a b h k = k refl
Follows-choice false true same ends d a b h k = h
Follows-choice false false false ends d a b h k = inr (inl refl)
Follows-choice false false true true d a b h k = inr (inl refl)
Follows-choice false false true false d a b h k = h

Follows-later : (d a b : String) → Follows d a → consecutive a b ≡ true → Follows d b
Follows-later d a b h c =
    let k = consecutive-eqs a b c in
    ground (arith, eq_iff "succeeded" "conflict", eq_iff "succeeded" "review_submitted")

pub Follows-next_status :
    (d a b : String) (ends : Bool) → Follows d a → Follows d (next_status a b ends)
Follows-next_status d a b ends h =
    Follows-choice (consecutive a b) (consecutive b a) (a == b) ends d a b h (Follows-later d a b h)

choice_conflict :
    (later earlier same ends : Bool) (a b : String)
    → later ≢ true
    → earlier ≢ true
    → (same ≡ true → a ≡ "conflict")
    → choice later earlier same ends a b ≡ "conflict"
choice_conflict true earlier same ends a b l e s = absurd (l refl)
choice_conflict false true same ends a b l e s = absurd (e refl)
choice_conflict false false false ends a b l e s = refl
choice_conflict false false true true a b l e s = refl
choice_conflict false false true false a b l e s = s refl

not-later : (d a b : String) → Follows d a → Clash d b → consecutive a b ≢ true
not-later d a b (inl e) c k = (Clash-consecutive d b c).0 (rw e at k)
not-later d a b (inr (inl e)) c k =
    let eqs = consecutive-eqs a b k in ground (arith, eq_iff "succeeded" "conflict")
not-later d a b (inr (inr e)) c k =
    let eqs = consecutive-eqs a b k in ground (arith, eq_iff "succeeded" "review_submitted")

not-earlier : (d a b : String) → Follows d a → Clash d b → consecutive b a ≢ true
not-earlier d a b (inl e) c k = (Clash-consecutive d b c).1 (rw e at k)
not-earlier d a b (inr (inl e)) c k =
    let eqs = consecutive-eqs b a k in ground (arith, eq_iff "review_submitted" "conflict")
not-earlier d a b (inr (inr e)) c k =
    let eqs = consecutive-eqs b a k in c.distinct (e.0 ∙ sym eqs.0)

same-conflict : (d a b : String) → Follows d a → Clash d b → a ≡ b → a ≡ "conflict"
same-conflict d a b (inl e) c k = absurd (c.distinct (sym e ∙ k))
same-conflict d a b (inr (inl e)) c k = e
same-conflict d a b (inr (inr e)) c k =
    absurd ((Clash-consecutive d b c).0 (rw (e.0, sym k, e.1) refl))

pub next_status-Clash :
    (d a b : String) (ends : Bool) → Follows d a → Clash d b → next_status a b ends ≡ "conflict"
next_status-Clash d a b ends h c =
    choice_conflict (consecutive a b) (consecutive b a) (a == b) ends a b (not-later d a b h c)
      (not-earlier d a b h c) (λ k. same-conflict d a b h c (==_true a b k))

pub next_status_conflict : (b : String) (ends : Bool) → next_status "conflict" b ends ≡ "conflict"
next_status_conflict b ends =
    choice_conflict (consecutive "conflict" b) (consecutive b "conflict") ("conflict" == b) ends
      "conflict" b (λ k. ground arith) (λ k. ground arith) (λ k. refl)

module _ (p : Platform) (r : Readers p.Float) where
  settle_ends-status :
      (o : Option (String × String)) (e s : Summary p.Float)
      → (settle_ends p r o e s).status ≡ (if is_some o then "conflict" else e.status)
  unfolding settle_ends merged_tail conflict_tail
  settle_ends-status none e s = refl
  settle_ends-status (some ends) e s = refl

  settle-status :
      (later earlier : Bool) (e s : Summary p.Float)
      → (settle p r
          (if later then some s.status else if earlier then some e.status else none)
          e
          s).status
        ≡ choice later earlier
            (e.status == s.status)
            (is_some (differ e.finished_at s.finished_at))
            e.status
            s.status
  unfolding settle merged_tail conflict_tail settle_ends
  settle-status true earlier e s = refl
  settle-status false true e s = refl
  settle-status false false e s = split (not (e.status == s.status))
    where
      split :
          (c : Bool)
          → (if c
              then conflict_tail p r e s "status" e.status s.status
              else settle_ends p r (differ e.finished_at s.finished_at) e s).status
            ≡ (if c
                then "conflict"
                else if is_some (differ e.finished_at s.finished_at)
                then "conflict"
                else e.status)
      split true = refl
      split false = settle_ends-status (differ e.finished_at s.finished_at) e s

  pub combine-status :
      (e s : Summary p.Float)
      → (combine p r e s).status
        ≡ next_status e.status s.status (is_some (differ e.finished_at s.finished_at))
  unfolding combine
  combine-status e s =
      settle-status (consecutive e.status s.status) (consecutive s.status e.status) e s

  pub combine-id : (e s : Summary p.Float) → (combine p r e s).run_id ≡ e.run_id
  unfolding combine settle merged_tail conflict_tail settle_ends
  combine-id e s = ground arith
