-- ===== src/Lifecycle/Context/Issue.antt =====
-- The issue of a context that build_call_context of agent-platform/cortxt_mcp/run_lifecycle.py gives.
use cortxt.Prelude.{
  String, Bool, true, false, ◌≡◌, refl, subst, Option, none, some, List, pos, is_some, arith, not,
}
use cortxt.Value.{Value, Fields, null, int, float, str, get}
use cortxt.Platform.{Platform}
use cortxt.Mandate.Check.{CallContext}
use cortxt.Lifecycle.Schema.{
  Floats, Tool, run_create, run_resume, run_submit_for_review, run_status, matches_issue_ref,
  matches_run_id, validate_schema,
}
use cortxt.Lifecycle.Runs.{Session, get_or, find_run, run_identity}
use cortxt.Lifecycle.Envelope.{result_cost, result_status}
use cortxt.Lifecycle.Service.{
  Refusal, invalid_arguments, scope_fingerprint, text_at, refuse_if, ◌orelse◌, orelse_none,
}
use cortxt.Lifecycle.Context.{
  Context, ready, not_ready, build_call_context, context_of, when_clear, stored_scope,
  resolve_for_context, submit_context, tool_context, issue_checked, cost_refusal, as_number,
  dict_of,
}

-- the tools that need a mandate
abbrev pub is_dispatch : Tool → Bool
is_dispatch run_status = false
is_dispatch tool = true

module _ (p : Platform) (floats : Floats p.Float) where
  when_clear-ready :
      (o : Option Refusal) (c : Context p.Float) (context : CallContext p.Float)
      → when_clear p floats o c ≡ ready context
      → (o ≡ none) × (c ≡ ready context)
  when_clear-ready none c context h = (refl, h)
  when_clear-ready (some r) c context h = absurd (ground arith)

  -- the context is for the issue of the arguments
  abbrev IsFor : Fields p.Float → Context p.Float → Type 0
  IsFor arguments (ready c) = c.issue_ref ≡ text_at p floats arguments "issue_ref"
  IsFor arguments (not_ready r) = Unit

  context_of-IsFor :
      (arguments : Fields p.Float) (fingerprint : String) (a b : Option p.Float)
      → IsFor arguments (context_of p floats arguments fingerprint a b)
  context_of-IsFor arguments fingerprint none b = tt
  context_of-IsFor arguments fingerprint (some a) none = tt
  context_of-IsFor arguments fingerprint (some a) (some b) = refl

  when_clear-IsFor :
      (arguments : Fields p.Float) (o : Option Refusal) (c : Context p.Float)
      → IsFor arguments c
      → IsFor arguments (when_clear p floats o c)
  when_clear-IsFor arguments none c h = h
  when_clear-IsFor arguments (some r) c h = tt

  stored_scope-IsFor :
      (arguments : Fields p.Float) (v : Value p.Float) (next : String → Context p.Float)
      → ((fingerprint : String) → IsFor arguments (next fingerprint))
      → IsFor arguments (stored_scope p floats v next)
  stored_scope-IsFor arguments null next h = tt
  stored_scope-IsFor arguments (str t) next h = h t
  stored_scope-IsFor arguments v next h = tt

  resolve_for_context-IsFor :
      (arguments : Fields p.Float) (o : Option (Session p.Float)) (next : String → Context p.Float)
      → ((fingerprint : String) → IsFor arguments (next fingerprint))
      → IsFor arguments (resolve_for_context p floats o next)
  unfolding resolve_for_context
  resolve_for_context-IsFor arguments none next h = tt
  resolve_for_context-IsFor arguments (some s) next h =
      stored_scope-IsFor arguments (run_identity p s).scope_fingerprint next h

  submit_context-IsFor :
      (arguments result : Fields p.Float) (fingerprint : String)
      → IsFor arguments (submit_context p floats arguments result fingerprint)
  submit_context-IsFor arguments result fingerprint =
      when_clear-IsFor arguments
        (refuse_if (not (is_some (result_status result))) invalid_arguments) _
        (costed (result_cost p floats result))
    where
      costed :
          (o : Option p.Float)
          → IsFor arguments (elim o [
            | none ↦ not_ready (cost_refusal p floats (get_or result "cost" (float p.zero_float)))
            | some cost ↦
                context_of p floats arguments fingerprint
                  (some cost)
                  (as_number p floats (get_or arguments "max_runtime_seconds" (int (pos 1))))
          ])
      costed none = tt
      costed (some cost) =
          context_of-IsFor arguments fingerprint (some cost)
            (as_number p floats (get_or arguments "max_runtime_seconds" (int (pos 1))))

  tool_context-IsFor :
      (tool : Tool) (arguments : Fields p.Float) (sessions : List (Session p.Float))
      → IsFor arguments (tool_context p floats tool arguments sessions)
  tool_context-IsFor run_create arguments sessions =
      context_of-IsFor arguments (scope_fingerprint p floats (text_at p floats arguments "scope"))
        (as_number p floats (get arguments "estimated_cost_usd"))
        (as_number p floats (get arguments "max_runtime_seconds"))
  tool_context-IsFor run_resume arguments sessions =
      when_clear-IsFor arguments
        (refuse_if (not (matches_run_id (text_at p floats arguments "run_id"))) invalid_arguments) _
        (resolve_for_context-IsFor arguments
          (find_run sessions (text_at p floats arguments "run_id")) _
          (λ fingerprint.
            context_of-IsFor arguments fingerprint
              (as_number p floats (get arguments "estimated_cost_usd"))
              (as_number p floats (get arguments "max_runtime_seconds"))))
  tool_context-IsFor run_submit_for_review arguments sessions =
      when_clear-IsFor arguments
        (refuse_if (not (matches_run_id (text_at p floats arguments "run_id"))) invalid_arguments) _
        (resolve_for_context-IsFor arguments
          (find_run sessions (text_at p floats arguments "run_id")) _
          (submit_context-IsFor arguments (dict_of p floats (get arguments "result"))))
  tool_context-IsFor run_status arguments sessions =
      when_clear-IsFor arguments
        (refuse_if (not (matches_run_id (text_at p floats arguments "run_id"))) invalid_arguments) _
        refl

  not_refused : (b : Bool) (r : Refusal) → refuse_if (not b) r ≡ none → b ≡ true
  not_refused true r h = refl
  not_refused false r h = absurd (ground arith)

  -- what is known of the issue of a context
  pub built_lem :
      (tool : Tool) (arguments : Fields p.Float) (sessions : List (Session p.Float))
      (context : CallContext p.Float)
      → is_dispatch tool ≡ true
      → build_call_context p floats tool arguments sessions ≡ ready context
      → (context.issue_ref ≡ text_at p floats arguments "issue_ref")
        × (matches_issue_ref (text_at p floats arguments "issue_ref") ≡ true)
  unfolding build_call_context
  built_lem tool arguments sessions context dispatch h =
      let valid = refuse_if (not (validate_schema p floats tool arguments)) invalid_arguments in
      let named = refuse_if (not (issue_checked p floats tool arguments)) invalid_arguments in
      let (clear, same) =
        when_clear-ready (valid orelse named) (tool_context p floats tool arguments sessions)
          context h in
      let checked =
        not_refused (issue_checked p floats tool arguments) invalid_arguments
          (orelse_none valid named clear).1 in
      (
        subst (IsFor arguments) same (tool_context-IsFor tool arguments sessions),
        issue_lem tool dispatch checked,
      )
    where
      issue_lem :
          (t : Tool)
          → is_dispatch t ≡ true
          → issue_checked p floats t arguments ≡ true
          → matches_issue_ref (text_at p floats arguments "issue_ref") ≡ true
      issue_lem run_status d checked = absurd (ground arith)
      issue_lem t d checked = checked
