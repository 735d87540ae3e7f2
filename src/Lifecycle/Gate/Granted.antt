-- ===== src/Lifecycle/Gate/Granted.antt =====
-- What stands behind a change that a call of agent-platform/cortxt_mcp/tools.py makes to the runs.
use cortxt.Prelude.{
  String, Bool, true, false, ◌≡◌, refl, subst, ◌⊎◌, inl, inr, ◌||◌, Option, none, some, ◌==◌,
  ==_true, arith, Bool-cases,
}
use cortxt.Value.{Value, Fields, str, obj, get, lookup}
use cortxt.Platform.{Platform}
use cortxt.Mandate.Check.{CallContext, Services}
use cortxt.Mandate.Check as Check
use cortxt.Mandate.Verify.{verify_mandate}
use cortxt.Mandate.Verify as Verify
use cortxt.Mandate.Verify.Soundness.{IsGranted, accepted-IsGranted}
use cortxt.Mandate.Envelope as Envelope
use cortxt.Mandate.Envelope.{issue_matches, fingerprint_matches, expected_fingerprint}
use cortxt.Lifecycle.Schema.{Floats, Tool, run_status, matches_issue_ref}
use cortxt.Lifecycle.Runs.{is_text}
use cortxt.Lifecycle.Turns.{Service}
use cortxt.Lifecycle.Service.{World, text_at, check_binding}
use cortxt.Lifecycle.Context.{Context, ready, not_ready, build_call_context}
use cortxt.Lifecycle.Gate.{
  accepts, binding_of, in_context, after_verdict, verified, read_only, call_tool,
}
use cortxt.Lifecycle.Context.Issue.{is_dispatch, built_lem}

module _ (p : Platform) (floats : Floats p.Float) {S : Type 0} (services : Services p.Float S) where
  -- The mandate that a call of a tool was granted, for the context that its arguments and the stored
  -- runs give. What the handler is given of it agrees with the issue and the scope of the context.
  pub record IsBound (tool : Tool) (arguments : Fields p.Float) (mandate : Value p.Float)
      (call : Verify.Call p.Float) (svc : Service p.Float) (s s' : S) : Type 0 where
    pub context : CallContext p.Float
    pub built : build_call_context p floats tool arguments svc.sessions ≡ ready context
    pub d : Fields p.Float
    pub given : mandate ≡ obj d
    pub granted : IsGranted p services (in_context p floats services call tool context) d s s'
    pub bound :
        check_binding p floats
          (binding_of p floats services d)
          (text_at p floats arguments "issue_ref")
          context.expected_scope_fingerprint
        ≡ none

  same_text : (v : Value p.Float) (s : String) → Envelope.is_text p v s ≡ true → is_text v s ≡ true
  same_text (str t) s h = h
  same_text v s h = absurd (ground arith)

  issue_text :
      (v : Value p.Float) (issue : String)
      → matches_issue_ref issue ≡ true
      → (issue == "" || Envelope.is_text p v issue) ≡ true
      → is_text v issue ≡ true
  unfolding matches_issue_ref
  issue_text v issue shape h = elim (Bool-cases (issue == "")) [
    | inl e ↦ absurd (let nothing = rw (==_true issue "" e) at shape in ground arith)
    | inr e ↦ same_text v issue (rw e at h)
  ]

  -- the handler's check of a mandate that matches the context
  bound_lem :
      (d : Fields p.Float) (c : CallContext p.Float) (issue : String)
      → matches_issue_ref issue ≡ true
      → c.issue_ref ≡ issue
      → issue_matches p c d ≡ true
      → fingerprint_matches p c d ≡ true
      → check_binding p floats (binding_of p floats services d) issue c.expected_scope_fingerprint
        ≡ none
  unfolding check_binding issue_matches fingerprint_matches expected_fingerprint get lookup
  bound_lem d c issue shape same issue_ok scope_ok = checked c.expected_scope_fingerprint scope_ok
    where
      issue_bound : is_text (get d "issue_ref") issue ≡ true
      issue_bound =
          issue_text (get d "issue_ref") issue shape (
            subst (λ i. (i == "" || Envelope.is_text p (get d "issue_ref") i) ≡ true) same issue_ok)

      checked :
          (o : Option String)
          → fingerprint_matches p (record c { expected_scope_fingerprint = o }) d ≡ true
          → check_binding p floats (binding_of p floats services d) issue o ≡ none
      checked none h = rw issue_bound refl
      checked (some f) h = rw (issue_bound, same_text (get d "scope_fingerprint") f h) refl

  after_verdict-IsBound :
      (tool : Tool) (arguments : Fields p.Float) (mandate : Value p.Float)
      (call : Verify.Call p.Float) (w : World p.Float) (svc : Service p.Float) (s : S)
      (context : CallContext p.Float)
      → is_dispatch tool ≡ true
      → build_call_context p floats tool arguments svc.sessions ≡ ready context
      → ((after_verdict p floats services tool arguments mandate w svc (
            verify_mandate p services (in_context p floats services call tool context) mandate s)).1
          ≡ svc)
        ⊎ IsBound tool arguments mandate call svc s
            (after_verdict p floats services tool arguments mandate w svc (
              verify_mandate p services
                (in_context p floats services call tool context)
                mandate
                s)).2
  after_verdict-IsBound tool arguments mandate call w svc s context dispatch built =
      elim (Bool-cases (accepts verdict)) [
        | inr refused ↦ inl (rw refused refl)
        | inl accepted ↦
            let (d, given, granted) =
              accepted-IsGranted p services (in_context p floats services call tool context) mandate
                s accepted in
            let (same, shape) =
              built_lem p floats tool arguments svc.sessions context dispatch built in
            inr record {
              context = context;
              built = built;
              d = d;
              given = given;
              granted = rw accepted granted;
              bound = bound_lem d context _ shape same granted.issue granted.fingerprint;
            }
      ]
    where
      verdict : Check.Outcome
      verdict =
          (verify_mandate p services (in_context p floats services call tool context) mandate s).0

  read_only-keeps :
      (arguments : Fields p.Float) (w : World p.Float) (svc : Service p.Float) (s : S)
      (c : Context p.Float)
      → (read_only p floats services arguments w svc s c).1 ≡ svc
  read_only-keeps arguments w svc s (ready context) = refl
  read_only-keeps arguments w svc s (not_ready r) = refl

  -- A call of a lifecycle tool leaves the runs as they are, or its tier was unlocked and it was granted:
  -- the context comes from the arguments and the stored runs, the mandate passed every check of the
  -- verifier for that context, and what the handler is given of the mandate passes the handler's own
  -- check of the issue and the scope.
  pub call_tool-IsBound :
      (tool : Tool) (allow_dispatch : Bool) (arguments : Fields p.Float) (mandate : Value p.Float)
      (call : Verify.Call p.Float) (w : World p.Float) (svc : Service p.Float) (s : S)
      → ((call_tool p floats services tool allow_dispatch arguments mandate call w svc s).1 ≡ svc)
        ⊎ ((allow_dispatch ≡ true)
            × IsBound tool arguments mandate call svc s
                (call_tool p floats services tool allow_dispatch arguments mandate call w svc s).2)
  unfolding call_tool
  call_tool-IsBound run_status allow arguments mandate call w svc s = inl (
      read_only-keeps arguments w svc s
        (build_call_context p floats run_status arguments svc.sessions))
  call_tool-IsBound tool false arguments mandate call w svc s = inl refl
  call_tool-IsBound tool true arguments mandate call w svc s =
      granted (build_call_context p floats tool arguments svc.sessions) refl
    where
      granted :
          (c : Context p.Float)
          → build_call_context p floats tool arguments svc.sessions ≡ c
          → ((verified p floats services tool arguments mandate call w svc s c).1 ≡ svc)
            ⊎ ((true ≡ true)
                × IsBound tool arguments mandate call svc s
                    (verified p floats services tool arguments mandate call w svc s c).2)
      granted (not_ready r) built = inl refl
      granted (ready context) built =
          elim (after_verdict-IsBound tool arguments mandate call w svc s context refl built) [
            | inl same ↦ inl same
            | inr bound ↦ inr (refl, bound)
          ]
