-- ===== src/Lifecycle/History/Idempotency.antt =====
-- The idempotency of submit_for_review of agent-platform/cortxt_mcp/run_lifecycle.py.
use cortxt.Prelude.{
  String, true, false, ◌≡◌, refl, sym, ap, subst, ◌∙◌, Option, none, some, List, [], ◌∷◌, ◌==◌,
  ==_true, All, arith,
}
use mathlib.Core.Option.{some-injective}
use cortxt.Value.{Value, Fields, str, get}
use cortxt.Platform.{Platform}
use cortxt.Lifecycle.Schema.{Floats}
use cortxt.Lifecycle.Runs.{Session, is_text, find_run, find_review_submission, run_identity}
use cortxt.Lifecycle.Envelope.{Envelope, Review, review_envelope}
use cortxt.Lifecycle.Turns.{Service}
use cortxt.Lifecycle.Service.{done, World, text_at}
use cortxt.Lifecycle.Review.{
  dict_at, submit_guard, payload_digest, submit_checked, submit_found, submit_for_review,
}
use cortxt.Lifecycle.History.{Step, submitting, step, run}
use cortxt.Lifecycle.History.Growth.{Creates, extended}
use cortxt.Lifecycle.History.Named.{find_review_submission-append, run-Named}
use cortxt.Lifecycle.History.Submission.{run_of, key_of, digest_of, guards}
use cortxt.Lifecycle.History.Stored.{review_of, IsStored, done-IsStored}

module _ (p : Platform) (floats : Floats p.Float) where
  -- A submission that is stored stays so while no run of its run id is made.
  run-IsStored :
      (arguments : Fields p.Float) (steps : List (Step p.Float)) (svc : Service p.Float)
      (shown : Option (Review p.Float))
      → All (Creates p floats (λ w. (w.run_id == run_of p floats arguments) ≡ false)) steps
      → IsStored p floats arguments svc.sessions shown
      → IsStored p floats arguments (run p floats steps svc).sessions shown
  unfolding submit_guard run_identity
  run-IsStored arguments steps svc shown others stored =
      let (newer, found) =
        run-Named p floats (run_of p floats arguments) stored.s steps svc others stored.found in
      record {
        s = extended newer stored.s;
        found = found;
        prior = stored.prior;
        kept =
            find_review_submission-append (key_of p floats arguments) newer stored.s.events
              stored.prior stored.kept;
        digest = stored.digest;
        hashed = stored.hashed;
        same = stored.same;
        has_hash = stored.has_hash;
        has_rest = stored.has_rest;
        accepted = stored.accepted;
        review = stored.review;
      }

  -- the submission of stored arguments
  stored_lem :
      (arguments binding : Fields p.Float) (w : World p.Float) (svc : Service p.Float)
      (shown : Option (Review p.Float))
      → guards p floats arguments binding ≡ none
      → IsStored p floats arguments svc.sessions shown
      → (e : Envelope p.Float) × (submit_for_review p floats arguments binding w svc
          ≡ (done e, svc))
        × (e.review ≡ shown)
  unfolding submit_for_review submit_found submit_checked review_envelope
  stored_lem arguments binding w svc shown valid stored = (
    review_envelope p floats (run_identity p stored.s) (get stored.prior "review_submission_id")
        (get stored.prior "submitted_at") w.now,
    rw
        (
          valid, stored.found, stored.accepted, stored.kept, stored.hashed, stored.same,
          stored.has_hash, stored.has_rest,
        )
        refl,
    sym stored.review,
  )

  -- A submission that was done may be made again, with the same arguments and binding, at any later
  -- time: after any calls and worker's turns that make no new run of its run id, it is done again,
  -- with the same review, and it changes nothing.
  pub submit_for_review-again :
      (arguments binding : Fields p.Float) (w w' : World p.Float) (svc : Service p.Float)
      (steps : List (Step p.Float)) (e : Envelope p.Float)
      → (submit_for_review p floats arguments binding w svc).0 ≡ done e
      → All
          (Creates p floats (λ w. (w.run_id == text_at p floats arguments "run_id") ≡ false))
          steps
      → (e' : Envelope p.Float) × (submit_for_review p floats arguments binding w'
            (run p floats steps (submit_for_review p floats arguments binding w svc).1)
          ≡ (done e', run p floats steps (submit_for_review p floats arguments binding w svc).1))
        × (e'.review ≡ e.review)
  submit_for_review-again arguments binding w w' svc steps e h others =
      let (valid, stored) = done-IsStored p floats arguments binding w svc e h in
      stored_lem arguments binding w' _ e.review valid
        (run-IsStored arguments steps _ e.review others stored)

  -- a payload hash is one text
  is_text_unique :
      (v : Value p.Float) (s t : String) → is_text v s ≡ true → is_text v t ≡ true → s ≡ t
  is_text_unique (str u) s t h k = sym (==_true u s h) ∙ ==_true u t k
  is_text_unique v s t h k = absurd (ground arith)

  -- a run has one stored submission of a key
  IsStored-unique :
      (arguments arguments' : Fields p.Float) (sessions : List (Session p.Float))
      (shown shown' : Option (Review p.Float))
      → run_of p floats arguments ≡ run_of p floats arguments'
      → key_of p floats arguments ≡ key_of p floats arguments'
      → IsStored p floats arguments sessions shown
      → IsStored p floats arguments' sessions shown'
      → (digest_of p floats arguments ≡ digest_of p floats arguments') × (shown ≡ shown')
  IsStored-unique arguments arguments' sessions shown shown' same_run same_key a b =
      let same_session : a.s ≡ b.s =
        some-injective _ _ (sym a.found ∙ ap (find_run sessions) same_run ∙ b.found) in
      let same_prior : a.prior ≡ b.prior = some-injective _ _ (
        sym a.kept
        ∙ ap (λ key. find_review_submission key a.s.events) same_key
        ∙ ap (λ s. find_review_submission (key_of p floats arguments') s.events) same_session
        ∙ b.kept) in
      let hashed =
        subst (λ prior. is_text (get prior "payload_hash") a.digest ≡ true) same_prior a.same in
      let same_digest =
        is_text_unique (get b.prior "payload_hash") a.digest b.digest hashed b.same in
      (
        a.hashed ∙ ap some same_digest ∙ sym b.hashed,
        a.review ∙ ap (review_of p floats) same_prior ∙ sym b.review,
      )

  -- Of two submissions of one run with one idempotency key that are both done, the second after any
  -- calls and worker's turns that make no new run of its run id, the results have the same digest,
  -- and the reviews are the same.
  pub submit_for_review-one_result :
      (arguments binding arguments' binding' : Fields p.Float) (w w' : World p.Float)
      (svc : Service p.Float) (steps : List (Step p.Float)) (e e' : Envelope p.Float)
      → (submit_for_review p floats arguments binding w svc).0 ≡ done e
      → All
          (Creates p floats (λ w. (w.run_id == text_at p floats arguments "run_id") ≡ false))
          steps
      → text_at p floats arguments "run_id" ≡ text_at p floats arguments' "run_id"
      → text_at p floats arguments "idempotency_key" ≡ text_at p floats arguments' "idempotency_key"
      → (submit_for_review p floats arguments' binding' w'
          (run p floats steps (submit_for_review p floats arguments binding w svc).1)).0
        ≡ done e'
      → (payload_digest p floats (dict_at p floats arguments "result")
          ≡ payload_digest p floats (dict_at p floats arguments' "result"))
        × (e.review ≡ e'.review)
  unfolding run step
  submit_for_review-one_result arguments binding arguments' binding' w w' svc steps e e' h others
        same_run same_key h' =
      let (valid, stored) = done-IsStored p floats arguments binding w svc e h in
      let later = run p floats steps (submit_for_review p floats arguments binding w svc).1 in
      let (valid', stored') = done-IsStored p floats arguments' binding' w' later e' h' in
      let before = run-IsStored arguments steps _ e.review others stored in
      let after =
        run-IsStored arguments (submitting arguments' binding' w' ∷ []) later e.review (tt, tt)
          before in
      IsStored-unique arguments arguments' _ e.review e'.review same_run same_key after stored'
