-- ===== src/Lifecycle/History/Submission.antt =====
-- What a submit_for_review of agent-platform/cortxt_mcp/run_lifecycle.py that is done has passed.
use cortxt.Prelude.{
  String, Bool, true, false, ◌≡◌, refl, sym, ap, ◌∙◌, inl, inr, Option, none, some, ==_refl, arith,
}
use cortxt.Value.{Value, Fields, str, get, lookup}
use cortxt.Platform.{Platform}
use cortxt.Lifecycle.Schema.{Floats, string, run_submit_for_review, property_of, validate_schema}
use cortxt.Lifecycle.Schema.Types.{IsOf, a_text, validate_schema-IsTyped}
use cortxt.Lifecycle.Runs.{Session, is_text, find_run, find_review_submission, run_identity}
use cortxt.Lifecycle.Envelope.{Envelope}
use cortxt.Lifecycle.Turns.{Service}
use cortxt.Lifecycle.Service.{Refusal, Outcome, done, World, text_at, guarded}
use cortxt.Lifecycle.Resume.{arguments_guard}
use cortxt.Lifecycle.Review.{
  dict_at, submit_guard, payload_digest, submit_checked, submit_found, submit_for_review,
}

module _ (p : Platform) (floats : Floats p.Float) where
  abbrev pub run_of : Fields p.Float → String
  run_of arguments = text_at p floats arguments "run_id"

  abbrev pub key_of : Fields p.Float → String
  key_of arguments = text_at p floats arguments "idempotency_key"

  abbrev pub digest_of : Fields p.Float → Option String
  digest_of arguments = payload_digest p floats (dict_at p floats arguments "result")

  abbrev pub guards : Fields p.Float → Fields p.Float → Option Refusal
  guards arguments binding =
      arguments_guard p floats (validate_schema p floats run_submit_for_review arguments) arguments
        binding

  abbrev pub accepts : Fields p.Float → Session p.Float → Option Refusal
  accepts arguments s =
      submit_guard p floats arguments (run_identity p s) (dict_at p floats arguments "result")

  abbrev pub checked :
      Fields p.Float
      → World p.Float
      → Service p.Float
      → Session p.Float
      → Outcome p.Float × Service p.Float
  checked arguments w svc s =
      submit_checked p floats arguments s (run_identity p s) (dict_at p floats arguments "result")
        (find_review_submission (key_of arguments) s.events) w svc

  guarded-done :
      (o : Option Refusal) (next : Outcome p.Float × Service p.Float) (svc : Service p.Float)
      (e : Envelope p.Float)
      → (guarded p floats o next svc).0 ≡ done e
      → (o ≡ none) × (guarded p floats o next svc ≡ next)
  guarded-done none next svc e h = (refl, refl)
  guarded-done (some r) next svc e h = absurd (ground arith)

  -- what a submission that is done has found
  found-done :
      (arguments : Fields p.Float) (w : World p.Float) (svc : Service p.Float)
      (o : Option (Session p.Float)) (e : Envelope p.Float)
      → (submit_found p floats arguments w svc o).0 ≡ done e
      → (s : Session p.Float) × (o ≡ some s)
        × (accepts arguments s ≡ none)
        × (submit_found p floats arguments w svc o ≡ checked arguments w svc s)
  unfolding submit_found
  found-done arguments w svc none e h = absurd (ground arith)
  found-done arguments w svc (some s) e h =
      let (accepted, same) =
        guarded-done (accepts arguments s) (checked arguments w svc s) svc e h in
      (s, refl, accepted, same)

  pub submit_for_review-done :
      (arguments binding : Fields p.Float) (w : World p.Float) (svc : Service p.Float)
      (e : Envelope p.Float)
      → (submit_for_review p floats arguments binding w svc).0 ≡ done e
      → (guards arguments binding ≡ none)
        × (s : Session p.Float) × (find_run svc.sessions (run_of arguments) ≡ some s)
        × (accepts arguments s ≡ none)
        × (submit_for_review p floats arguments binding w svc ≡ checked arguments w svc s)
  unfolding submit_for_review
  submit_for_review-done arguments binding w svc e h =
      let named = find_run svc.sessions (run_of arguments) in
      let (valid, same) =
        guarded-done (guards arguments binding) (submit_found p floats arguments w svc named) svc e
          h in
      let (s, found, accepted, same') =
        found-done arguments w svc named e (ap (λ x. x.0) (sym same) ∙ h) in
      (valid, s, found, accepted, same ∙ same')

  guards-valid :
      (valid : Bool) (arguments binding : Fields p.Float)
      → arguments_guard p floats valid arguments binding ≡ none
      → valid ≡ true
  unfolding arguments_guard
  guards-valid true arguments binding h = refl
  guards-valid false arguments binding h = absurd (ground arith)

  IsOf-text : (v : Value p.Float) → IsOf p floats string v → (t : String) × (v ≡ str t)
  IsOf-text v (a_text t) = (t, refl)

  text_at_lem :
      (d : Fields p.Float) (key t : String)
      → get d key ≡ str t
      → is_text (get d key) (text_at p floats d key) ≡ true
  text_at_lem d key t h = rw (text_at, h) (==_refl t)

  get_found :
      (d : Fields p.Float) (key : String) (v : Value p.Float)
      → lookup key d ≡ some v
      → get d key ≡ v
  unfolding get
  get_found d key v h = rw (get, h) refl

  -- the key of validated arguments is a text
  pub key_lem :
      (arguments binding : Fields p.Float)
      → guards arguments binding ≡ none
      → is_text (get arguments "idempotency_key") (key_of arguments) ≡ true
  unfolding property_of
  key_lem arguments binding h =
      let (v, found, typed) =
        validate_schema-IsTyped p floats run_submit_for_review arguments "idempotency_key" _
          (guards-valid _ arguments binding h) refl refl in
      elim typed [
        | inl (missing, nullable) ↦ absurd (ground arith)
        | inr of_shape ↦
            let (t, same) = IsOf-text v of_shape in
            text_at_lem arguments "idempotency_key" t
              (get_found arguments "idempotency_key" v found ∙ same)
      ]
