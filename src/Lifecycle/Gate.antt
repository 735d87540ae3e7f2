-- ===== src/Lifecycle/Gate.antt =====
-- The part of call_tool of agent-platform/cortxt_mcp/tools.py that concerns the tools of the run lifecycle,
-- with a lifecycle service and a mandate verifier.
pub mod Granted
use cortxt.Prelude.{
  String, Bool, true, false, Option, none, some, List, [], ◌∷◌, ◌==◌, if◌then◌else◌,
}
use cortxt.Value.{Value, Fields, null, str, obj, end, field, get, as_str}
use cortxt.Platform.{Platform}
use cortxt.Mandate.Check.{CallContext, Services, decided}
use cortxt.Mandate.Check as Check
use cortxt.Mandate.Verify.{verify_mandate}
use cortxt.Mandate.Verify as Verify
use cortxt.Lifecycle.Schema.{
  Floats, Tool, run_create, run_resume, run_submit_for_review, run_status,
}
use cortxt.Lifecycle.Turns.{Service}
use cortxt.Lifecycle.Service.{Refusal, Outcome, World, text_at, create_run}
use cortxt.Lifecycle.Resume.{resume_run}
use cortxt.Lifecycle.Review.{submit_for_review}
use cortxt.Lifecycle.Context.{Context, ready, not_ready, build_call_context, status_of}

-- What call_tool returns or raises.
pub data Response (F : Type 0) : Type 0 where
  answered : Outcome F → Response F
  tier_locked : Response F
  refused_context : Refusal → Response F
  mandate_rejected : Check.Outcome → Response F

abbrev pub tool_name : Tool → String
tool_name run_create = "cortxt_run_create"
tool_name run_resume = "cortxt_run_resume"
tool_name run_submit_for_review = "cortxt_run_submit_for_review"
tool_name run_status = "cortxt_run_status"

-- `decision.accepted`; the verifier may raise
abbrev pub accepts : Check.Outcome → Bool
accepts (decided m) = m.accepted
accepts Check.raised = false

module _ (p : Platform) (floats : Floats p.Float) {S : Type 0} (services : Services p.Float S) where
  -- the fields of the mandate that the handler is given
  abbrev pub binding_of : Fields p.Float → Fields p.Float
  binding_of d = field "mandate_id" (get d "mandate_id") (
      field "granted_by" (get d "granted_by") (
        field "issue_ref" (get d "issue_ref") (
          field "scope_fingerprint" (get d "scope_fingerprint") (
            field "budget_usd_max" (get d "budget_usd_max") (
              field "max_runtime_seconds" (get d "max_runtime_seconds")
                (field "data_class_max" (get d "data_class_max") end))))))

  abbrev pub dict_of : Value p.Float → Fields p.Float
  dict_of (obj d) = d
  dict_of v = end

  -- the handlers
  abbrev pub handle :
      Tool
      → Fields p.Float
      → Fields p.Float
      → World p.Float
      → Service p.Float
      → Outcome p.Float × Service p.Float
  handle run_create arguments binding w svc = create_run p floats arguments binding w svc
  handle run_resume arguments binding w svc = resume_run p floats arguments binding w svc
  handle run_submit_for_review arguments binding w svc =
      submit_for_review p floats arguments binding w svc
  handle run_status arguments binding w svc = (
    status_of p floats (text_at p floats arguments "run_id") (as_str (get arguments "issue_ref"))
        svc.sessions,
    svc,
  )

  abbrev pub in_context : Verify.Call p.Float → Tool → CallContext p.Float → Verify.Call p.Float
  in_context call tool context = record call { tool = tool_name tool; context = context }

  -- after the verdict on the mandate
  abbrev pub after_verdict :
      Tool
      → Fields p.Float
      → Value p.Float
      → World p.Float
      → Service p.Float
      → Check.Outcome × S
      → Response p.Float × Service p.Float × S
  after_verdict tool arguments mandate w svc (verdict, s) =
      let handled = handle tool arguments (binding_of (dict_of mandate)) w svc in
      if accepts verdict
      then (answered handled.0, handled.1, s)
      else (mandate_rejected verdict, svc, s)

  -- the tools of the dispatch tier
  abbrev pub verified :
      Tool
      → Fields p.Float
      → Value p.Float
      → Verify.Call p.Float
      → World p.Float
      → Service p.Float
      → S
      → Context p.Float
      → Response p.Float × Service p.Float × S
  verified tool arguments mandate call w svc s (not_ready r) = (refused_context r, svc, s)
  verified tool arguments mandate call w svc s (ready context) =
      after_verdict tool arguments mandate w svc
        (verify_mandate p services (in_context call tool context) mandate s)

  abbrev pub read_only :
      Fields p.Float
      → World p.Float
      → Service p.Float
      → S
      → Context p.Float
      → Response p.Float × Service p.Float × S
  read_only arguments w svc s (not_ready r) = (refused_context r, svc, s)
  read_only arguments w svc s (ready context) =
      (answered (handle run_status arguments end w svc).0, svc, s)

  -- `call_tool` of a tool of the run lifecycle
  unfoldable pub call_tool :
      Tool
      → Bool
      → Fields p.Float
      → Value p.Float
      → Verify.Call p.Float
      → World p.Float
      → Service p.Float
      → S
      → Response p.Float × Service p.Float × S
  unfolding build_call_context verify_mandate create_run resume_run submit_for_review status_of get
  call_tool run_status allow_dispatch arguments mandate call w svc s =
      read_only arguments w svc s (build_call_context p floats run_status arguments svc.sessions)
  call_tool tool allow_dispatch arguments mandate call w svc s =
      let next =
        verified tool arguments mandate call w svc s
          (build_call_context p floats tool arguments svc.sessions) in
      if allow_dispatch then next else (tier_locked, svc, s)
