-- ===== src/Lifecycle/Context.antt =====
-- status_of and build_call_context of agent-platform/cortxt_mcp/run_lifecycle.py. A stored scope
-- fingerprint is a text or None, as run.created holds it.
pub mod Issue
use cortxt.Prelude.{
  pos, String, Bool, true, false, ◌&&◌, not, Option, none, some, List, [], ◌∷◌, ◌==◌, is_some,
  if◌then◌else◌,
}
use cortxt.Value.{
  Value, Fields, null, bool, int, float, str, arr, obj, end, field, get, has, as_str,
}
use cortxt.Platform.{Platform}
use cortxt.Mandate.Check.{CallContext}
use cortxt.Lifecycle.Schema.{
  Floats, Tool, run_create, run_resume, run_submit_for_review, run_status, validate_schema,
  matches_run_id, matches_issue_ref,
}
use cortxt.Lifecycle.Runs.{
  Event, Session, get_or, is_text, in_statuses, find_run, newest_of, last_engine_turn, or_empty,
  Identity, run_identity,
}
use cortxt.Lifecycle.Envelope.{Shown, runtime_of, result_status, result_cost, envelope}
use cortxt.Lifecycle.Service.{
  Refusal, lifecycle, invalid_arguments, raised, run_not_found, issue_ref_mismatch, Outcome,
  refused, ◌orelse◌, refuse_if, text_at, scope_fingerprint, answer,
}

-- A context, or what is raised.
pub data Context (F : Type 0) : Type 0 where
  ready : CallContext F → Context F
  not_ready : Refusal → Context F

module _ (p : Platform) (floats : Floats p.Float) where
  abbrev unless : Option Refusal → Outcome p.Float → Outcome p.Float
  unless none outcome = outcome
  unless (some r) outcome = refused r

  abbrev turn_result : Fields p.Float → Value p.Float → Fields p.Float
  turn_result end status = field "status" status end
  turn_result (field k v d) status = field k v d

  abbrev finished_of : Option Bool → Fields p.Float → Option (Value p.Float)
  finished_of none turn = none
  finished_of (some true) turn = some null
  finished_of (some false) turn = some (get turn "finished_at")

  abbrev status_envelope :
      String
      → Identity p.Float
      → Fields p.Float
      → Fields p.Float
      → Option (Value p.Float)
      → Outcome p.Float
  status_envelope run_id identity running turn none = refused raised
  status_envelope run_id identity running turn (some finished_at) = answer p floats (
      envelope p floats
        (record {
          issue_ref = identity.issue_ref;
          run_id = str run_id;
          session_id = get turn "session_id";
          runtime = runtime_of identity.engine_id;
          profile = identity.profile;
          worker_role = identity.worker_role;
          started_at = get running "started_at";
          model = get turn "model";
          finished_at = finished_at;
        })
        (turn_result turn identity.status))

  abbrev of_other_issue : Identity p.Float → Option String → Bool
  of_other_issue identity none = false
  of_other_issue identity (some issue_ref) = not (is_text identity.issue_ref issue_ref)

  abbrev malformed_issue : Option String → Bool
  malformed_issue none = false
  malformed_issue (some issue_ref) = not (matches_issue_ref issue_ref)

  unfoldable status_found : String → Option String → Option (Session p.Float) → Outcome p.Float
  unfolding run_identity newest_of last_engine_turn envelope
  status_found run_id issue_ref none = refused (lifecycle run_not_found)
  status_found run_id issue_ref (some s) =
      let identity = run_identity p s in
      let turn = or_empty (last_engine_turn s.events) in
      unless (refuse_if (of_other_issue identity issue_ref) (lifecycle issue_ref_mismatch)) (
        status_envelope run_id identity (or_empty (newest_of "run.running" s.events)) turn
          (finished_of (in_statuses identity.status ("created" ∷ "running" ∷ [])) turn))

  -- `status_of`
  unfoldable pub status_of : String → Option String → List (Session p.Float) → Outcome p.Float
  unfolding matches_run_id find_run status_found
  status_of run_id issue_ref sessions =
      unless
        (refuse_if (not (matches_run_id run_id)) invalid_arguments
          orelse refuse_if (malformed_issue issue_ref) invalid_arguments)
        (status_found run_id issue_ref (find_run sessions run_id))

  -- `float(v)` of a validated number
  abbrev pub as_number : Value p.Float → Option p.Float
  as_number (int i) = p.of_int i
  as_number (float x) = some x
  as_number v = none

  abbrev pub context_of :
      Fields p.Float → String → Option p.Float → Option p.Float → Context p.Float
  context_of arguments fingerprint none seconds = not_ready raised
  context_of arguments fingerprint (some cost) none = not_ready raised
  context_of arguments fingerprint (some cost) (some seconds) = ready record {
    issue_ref = text_at p floats arguments "issue_ref";
    data_class = text_at p floats arguments "data_class";
    estimated_cost_usd = cost;
    estimated_runtime_seconds = some seconds;
    scope_text = none;
    expected_scope_fingerprint = some fingerprint;
  }

  abbrev pub when_clear : Option Refusal → Context p.Float → Context p.Float
  when_clear none context = context
  when_clear (some r) context = not_ready r

  abbrev pub stored_scope : Value p.Float → (String → Context p.Float) → Context p.Float
  stored_scope null next = not_ready (lifecycle run_not_found)
  stored_scope (str s) next = next s
  stored_scope v next = not_ready raised

  -- `_resolve_for_context`, and what follows with the stored scope fingerprint
  unfoldable pub resolve_for_context :
      Option (Session p.Float) → (String → Context p.Float) → Context p.Float
  unfolding run_identity
  resolve_for_context none next = not_ready (lifecycle run_not_found)
  resolve_for_context (some s) next = stored_scope (run_identity p s).scope_fingerprint next

  abbrev pub dict_of : Value p.Float → Fields p.Float
  dict_of (obj d) = d
  dict_of v = end

  -- a cost that is no number, or an int that no float holds
  abbrev pub cost_refusal : Value p.Float → Refusal
  cost_refusal (int i) = if is_some (p.of_int i) then invalid_arguments else raised
  cost_refusal v = invalid_arguments

  abbrev pub submit_context : Fields p.Float → Fields p.Float → String → Context p.Float
  submit_context arguments result fingerprint =
      when_clear (refuse_if (not (is_some (result_status result))) invalid_arguments)
        (elim (result_cost p floats result) [
          | none ↦ not_ready (cost_refusal (get_or result "cost" (float p.zero_float)))
          | some cost ↦
              context_of arguments fingerprint (some cost)
                (as_number (get_or arguments "max_runtime_seconds" (int (pos 1))))
        ])

  -- the part of `build_call_context` after the arguments
  abbrev pub tool_context : Tool → Fields p.Float → List (Session p.Float) → Context p.Float
  tool_context run_create arguments sessions =
      context_of arguments (scope_fingerprint p floats (text_at p floats arguments "scope"))
        (as_number (get arguments "estimated_cost_usd"))
        (as_number (get arguments "max_runtime_seconds"))
  tool_context run_resume arguments sessions =
      when_clear
        (refuse_if (not (matches_run_id (text_at p floats arguments "run_id"))) invalid_arguments)
        (resolve_for_context (find_run sessions (text_at p floats arguments "run_id"))
          (λ fingerprint.
            context_of arguments fingerprint (as_number (get arguments "estimated_cost_usd"))
              (as_number (get arguments "max_runtime_seconds"))))
  tool_context run_submit_for_review arguments sessions =
      when_clear
        (refuse_if (not (matches_run_id (text_at p floats arguments "run_id"))) invalid_arguments)
        (resolve_for_context (find_run sessions (text_at p floats arguments "run_id"))
          (submit_context arguments (dict_of (get arguments "result"))))
  tool_context run_status arguments sessions =
      when_clear
        (refuse_if (not (matches_run_id (text_at p floats arguments "run_id"))) invalid_arguments)
        (ready record {
          issue_ref = text_at p floats arguments "issue_ref";
          data_class = "L0";
          estimated_cost_usd = p.zero_float;
          estimated_runtime_seconds = none;
          scope_text = none;
          expected_scope_fingerprint = none;
        })

  -- a status query may leave its issue out
  abbrev pub issue_checked : Tool → Fields p.Float → Bool
  issue_checked run_status arguments =
      if has arguments "issue_ref"
      then matches_issue_ref (text_at p floats arguments "issue_ref")
      else true
  issue_checked tool arguments = matches_issue_ref (text_at p floats arguments "issue_ref")

  -- `build_call_context`
  unfoldable pub build_call_context :
      Tool → Fields p.Float → List (Session p.Float) → Context p.Float
  unfolding validate_schema matches_issue_ref matches_run_id find_run resolve_for_context
      result_status result_cost has
  build_call_context tool arguments sessions =
      when_clear
        (refuse_if (not (validate_schema p floats tool arguments)) invalid_arguments
          orelse refuse_if (not (issue_checked tool arguments)) invalid_arguments)
        (tool_context tool arguments sessions)
