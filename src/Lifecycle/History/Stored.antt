-- ===== src/Lifecycle/History/Stored.antt =====
-- What a submit_for_review of agent-platform/cortxt_mcp/run_lifecycle.py that is done leaves in the
-- sessions.
use cortxt.Prelude.{
  ◌||◌, String, Bool, true, false, ◌≡◌, refl, sym, ap, subst, ◌∙◌, Option, none, some, List,
  ==_refl, arith, not, if◌then◌else◌,
}
use cortxt.Value.{Fields, get, has, lookup}
use cortxt.Platform.{Platform}
use cortxt.Lifecycle.Schema.{Floats}
use cortxt.Lifecycle.Runs.{Event, Session, is_text, find_run, find_review_submission, run_identity}
use cortxt.Lifecycle.Envelope.{Envelope, Review, review_envelope}
use cortxt.Lifecycle.Turns.{Service, with_event}
use cortxt.Lifecycle.Service.{
  lifecycle, raised, idempotency_conflict, Outcome, done, refused, World,
}
use cortxt.Lifecycle.Review.{
  dict_at, submit_guard, submission, replay, record_submission, submit_checked, submit_for_review,
}
use cortxt.Lifecycle.History.Named.{find_run-append_event}
use cortxt.Lifecycle.History.Submission.{
  run_of, key_of, digest_of, guards, accepts, submit_for_review-done, key_lem,
}

module _ (p : Platform) (floats : Floats p.Float) where
  abbrev pub review_of : Fields p.Float → Option (Review p.Float)
  review_of prior = some record {
    review_id = get prior "review_submission_id";
    kind = "independent";
    status = "submitted";
    submitted_at = get prior "submitted_at";
  }

  -- The submission of the arguments stands among the sessions, as the oldest with its key.
  pub record IsStored (arguments : Fields p.Float) (sessions : List (Session p.Float))
      (shown : Option (Review p.Float)) : Type 0 where
    pub s : Session p.Float
    pub found : find_run sessions (run_of p floats arguments) ≡ some s
    pub prior : Fields p.Float
    pub kept : find_review_submission (key_of p floats arguments) s.events ≡ some prior
    pub digest : String
    pub hashed : digest_of p floats arguments ≡ some digest
    pub same : is_text (get prior "payload_hash") digest ≡ true
    pub has_hash : has prior "payload_hash" ≡ true
    pub has_rest :
        (not (has prior "review_submission_id") || not (has prior "submitted_at")) ≡ false
    pub accepted :
        submit_guard p floats arguments (run_identity p s) (dict_at p floats arguments "result")
        ≡ none
    pub review : shown ≡ review_of prior

  abbrev pub review_in : Outcome p.Float → Option (Review p.Float)
  review_in (done e) = e.review
  review_in (refused r) = none

  -- a submission that is replayed
  replay-IsStored :
      (arguments : Fields p.Float) (sessions : List (Session p.Float)) (w : World p.Float)
      (s : Session p.Float) (e : Envelope p.Float) (prior : Fields p.Float) (o : Option String)
      → find_run sessions (run_of p floats arguments) ≡ some s
      → accepts p floats arguments s ≡ none
      → find_review_submission (key_of p floats arguments) s.events ≡ some prior
      → digest_of p floats arguments ≡ o
      → replay p floats (run_identity p s) prior o w ≡ done e
      → IsStored arguments sessions e.review
  unfolding review_envelope
  replay-IsStored arguments sessions w s e prior none found accepted kept hashed h =
      absurd (ground arith)
  replay-IsStored arguments sessions w s e prior (some d) found accepted kept hashed h =
      replayed (has prior "payload_hash") (is_text (get prior "payload_hash") d)
        (not (has prior "review_submission_id") || not (has prior "submitted_at")) refl refl refl h
    where
      replayed :
          (x y z : Bool)
          → has prior "payload_hash" ≡ x
          → is_text (get prior "payload_hash") d ≡ y
          → (not (has prior "review_submission_id") || not (has prior "submitted_at")) ≡ z
          → ◌≡◌ {A = Outcome p.Float}
              (if not x
                then refused raised
                else if not y
                then refused (lifecycle idempotency_conflict)
                else if z
                then refused raised
                else done (
                    review_envelope p floats
                      (run_identity p s)
                      (get prior "review_submission_id")
                      (get prior "submitted_at")
                      w.now))
              (done e)
          → IsStored arguments sessions e.review
      replayed false y z ex ey ez h = absurd (ground arith)
      replayed true false z ex ey ez h = absurd (ground arith)
      replayed true true true ex ey ez h = absurd (ground arith)
      replayed true true false ex ey ez h = record {
        s = s;
        found = found;
        prior = prior;
        kept = kept;
        digest = d;
        hashed = hashed;
        same = ey;
        has_hash = ex;
        has_rest = ez;
        accepted = accepted;
        review = sym (ap review_in h);
      }

  -- a submission that is new
  new-IsStored :
      (arguments : Fields p.Float) (w : World p.Float) (svc : Service p.Float) (s : Session p.Float)
      (e : Envelope p.Float) (o : Option String) (b : Bool)
      → is_text (get arguments "idempotency_key") (key_of p floats arguments) ≡ true
      → find_run svc.sessions (run_of p floats arguments) ≡ some s
      → accepts p floats arguments s ≡ none
      → find_review_submission (key_of p floats arguments) s.events ≡ none
      → digest_of p floats arguments ≡ o
      → (record_submission p floats arguments s
          (run_identity p s)
          (dict_at p floats arguments "result")
          o
          (record w { event_written = b })
          svc).0
        ≡ done e
      → IsStored arguments
          (record_submission p floats arguments s
            (run_identity p s)
            (dict_at p floats arguments "result")
            o
            (record w { event_written = b })
            svc).1.sessions
          e.review
  unfolding submission find_review_submission get has lookup submit_guard run_identity
      review_envelope
  new-IsStored arguments w svc s e none b text found accepted fresh hashed h = absurd (ground arith)
  new-IsStored arguments w svc s e (some d) false text found accepted fresh hashed h =
      absurd (ground arith)
  new-IsStored arguments w svc s e (some d) true text found accepted fresh hashed h =
      let payload = submission p floats arguments (dict_at p floats arguments "result") d w in
      let event : Event p.Float = record {
        event_type = "run.review_submitted";
        payload = payload;
      } in
      let found' =
        find_run-append_event s.session_id event (run_of p floats arguments) svc.sessions s found in
      record {
        s = with_event event s;
        found = rw (==_refl s.session_id) at found';
        prior = payload;
        kept = rw (fresh, text) refl;
        digest = d;
        hashed = hashed;
        same = ==_refl d;
        has_hash = refl;
        has_rest = refl;
        accepted = accepted;
        review = sym (ap review_in h);
      }

  -- A submission that is done stands in the sessions.
  pub done-IsStored :
      (arguments binding : Fields p.Float) (w : World p.Float) (svc : Service p.Float)
      (e : Envelope p.Float)
      → (submit_for_review p floats arguments binding w svc).0 ≡ done e
      → (guards p floats arguments binding ≡ none)
        × IsStored arguments
            (submit_for_review p floats arguments binding w svc).1.sessions
            e.review
  unfolding submit_checked
  done-IsStored arguments binding w svc e h =
      let (valid, s, found, accepted, same) =
        submit_for_review-done p floats arguments binding w svc e h in
      let h' = ap (λ x. x.0) (sym same) ∙ h in
      (
        valid,
        subst (λ x. IsStored arguments x.1.sessions e.review) (sym same)
            (stored s (find_review_submission (key_of p floats arguments) s.events) found accepted
              refl (key_lem p floats arguments binding valid) h'),
      )
    where
      stored :
          (s : Session p.Float) (o : Option (Fields p.Float))
          → find_run svc.sessions (run_of p floats arguments) ≡ some s
          → accepts p floats arguments s ≡ none
          → find_review_submission (key_of p floats arguments) s.events ≡ o
          → is_text (get arguments "idempotency_key") (key_of p floats arguments) ≡ true
          → (submit_checked p floats arguments s
              (run_identity p s)
              (dict_at p floats arguments "result")
              o
              w
              svc).0
            ≡ done e
          → IsStored arguments
              (submit_checked p floats arguments s
                (run_identity p s)
                (dict_at p floats arguments "result")
                o
                w
                svc).1.sessions
              e.review
      stored s none found accepted fresh text h =
          new-IsStored arguments w svc s e (digest_of p floats arguments) w.event_written text found
            accepted fresh refl h
      stored s (some prior) found accepted kept text h =
          replay-IsStored arguments svc.sessions w s e prior (digest_of p floats arguments) found
            accepted kept refl h
