-- ===== src/Routing/ChargePolicy.antt =====
-- `ChargePolicy` and `zero_charge_eligible` of agent-platform/routing/charge_policy.py, and the
-- channels that agent-platform/routing/completion_report.py declares.
use cortxt.Prelude.{
  String, Bool, true, false, ◌&&◌, not, Option, none, some, List, [], ◌∷◌, ◌==◌, contains,
  if◌then◌else◌,
}
use cortxt.Dict.{Dict, lookup}

abbrev pub route_zero_charge : String
route_zero_charge = "zero_charge"

abbrev pub route_metered : String
route_metered = "metered"

abbrev pub valid_routes : List String
valid_routes = route_zero_charge ∷ route_metered ∷ []

abbrev pub channel_structured : String
channel_structured = "structured"

abbrev pub channel_none : String
channel_none = "none"

-- `REPORT_CHANNELS`
abbrev pub report_channels : Dict String
report_channels =
    ("hermes", channel_structured)
    ∷ ("hermes-free", channel_structured)
    ∷ ("hermes-researcher", channel_structured)
    ∷ ("hermes-coordinator", channel_structured)
    ∷ ("dsh", channel_none)
    ∷ []

pub record ChargePolicy : Type 0 where
  pub charge_policy_id : String
  pub charging : String
  pub official_source : String
  pub read_date : String
  pub expiry : String
  pub route : String
  pub rate_source : String
  pub rate_snapshot : String

pub data ChargePolicyError : Type 0 where
  empty_id bad_charging bad_route route_mismatch empty_source empty_snapshot : ChargePolicyError

-- `__post_init__`: `none` where the policy is constructed
unfoldable pub post_init : ChargePolicy → Option ChargePolicyError
post_init c =
    if c.charge_policy_id == ""
    then some empty_id
    else if not (contains c.charging valid_routes)
    then some bad_charging
    else if not (contains c.route valid_routes)
    then some bad_route
    else if c.route == route_zero_charge && not (c.charging == route_zero_charge)
    then some route_mismatch
    else if c.rate_source == ""
    then some empty_source
    else if c.rate_snapshot == ""
    then some empty_snapshot
    else none

pub data Code : Type 0 where
  wrong_route none_channel unstructured_channel undeclared_channel : Code

-- the texts of the reasons are left out
pub record EligibilityResult : Type 0 where
  pub eligible : Bool
  pub code : Option Code

abbrev refused : Code → EligibilityResult
refused c = record { eligible = false; code = some c }

-- the code of a channel that is not the structured one
abbrev pub refusal : Option String → Code
refusal none = undeclared_channel
refusal (some channel) = if channel == channel_none then none_channel else unstructured_channel

abbrev pub is_structured : Option String → Bool
is_structured none = false
is_structured (some channel) = channel == channel_structured

-- `zero_charge_eligible`
unfoldable pub zero_charge_eligible : String → ChargePolicy → EligibilityResult
zero_charge_eligible runtime policy =
    if not (policy.route == route_zero_charge)
    then refused wrong_route
    else if is_structured (lookup runtime report_channels)
    then record { eligible = true; code = none }
    else refused (refusal (lookup runtime report_channels))
