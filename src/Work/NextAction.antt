-- ===== src/Work/NextAction.antt =====
-- The next action of an issue, and whether a run holds it:
-- agent-platform/widget_contract/next_action.py.
pub mod Reopen
use cortxt.Prelude.{
  String, Bool, true, false, ◌||◌, Option, none, some, List, [], ◌∷◌, ◌==◌, all, contains,
  strip_text, if◌then◌else◌,
}
use cortxt.Work.Summary.{Summary, store_dispatcher}

pub data Kind : Type 0 where
  launch recover decision unblock prepare : Kind

abbrev pub labels : Kind → String
labels launch = "Start the approved Run"
labels recover = "Return this Issue to ready"
labels decision = "Record the operator decision"
labels unblock = "Lift the block and return to ready"
labels prepare = "Prepare the mandate for approval"

abbrev pub views : Kind → String
views launch = "view:launch"
views recover = "view:recovery"
views decision = "view:decision"
views unblock = "view:unblock"
views prepare = "view:prepare"

pub record Action : Type 0 where
  pub kind : Kind
  pub label : String

pub record Resolution : Type 0 where
  pub next_action : Option Action
  pub view_capabilities : List String

abbrev dispatcher_reports : {F : Type 0} → Summary F → Bool
dispatcher_reports s = contains store_dispatcher s.sources

-- `str(freshness_status)`
abbrev pub status_text : Option String → String
status_text none = "None"
status_text (some s) = s

-- `workflow or ""`
abbrev pub state_text : Option String → String
state_text none = ""
state_text (some s) = s

-- `none` is "not established".
unfoldable pub run_holds_issue : {F : Type 0} → List (Summary F) → Option String → Option Bool
run_holds_issue [] freshness = none
run_holds_issue (s ∷ runs) freshness =
    let status = status_text freshness in
    if status == "fresh" || status == "stale"
    then some true
    else if status == "terminal"
    then if all dispatcher_reports (s ∷ runs) then some false else none
    else none

abbrev is_true : Option Bool → Bool
is_true none = false
is_true (some b) = b

abbrev is_false : Option Bool → Bool
is_false none = false
is_false (some true) = false
is_false (some false) = true

-- the kind of action that a state has, over `str.lower`
unfoldable pub kind_of :
    (String → String) → Option String → Option Bool → Option Bool → Bool → Option Kind
kind_of lower workflow launch_eligible run_active has_evidence =
    let state = lower (strip_text (state_text workflow)) in
    if state == "ready"
    then if is_true launch_eligible then some launch else none
    else if state == "in-progress"
    then if is_false run_active then some recover else none
    else if state == "blocked"
    then if is_false run_active then some unblock else none
    else if state == "review"
    then if has_evidence then some decision else none
    else if state == "inbox"
    then some prepare
    else none

-- the action of a kind, and the view that it grants
unfoldable pub resolution : Option Kind → Resolution
resolution none = record { next_action = none; view_capabilities = [] }
resolution (some kind) = record {
  next_action = some record { kind = kind; label = labels kind };
  view_capabilities = views kind ∷ [];
}

unfoldable pub resolve_next_action :
    (String → String) → Option String → Option Bool → Option Bool → Bool → Resolution
unfolding kind_of resolution
resolve_next_action lower workflow launch_eligible run_active has_evidence =
    resolution (kind_of lower workflow launch_eligible run_active has_evidence)
