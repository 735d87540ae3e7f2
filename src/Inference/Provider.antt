-- ===== src/Inference/Provider.antt =====
-- `evaluate_provider` of agent-platform/inference/provider_policy.py. Nothing makes the fields of
-- the evidence have their declared types: each is a value.
pub mod Requirements
use cortxt.Prelude.{
  String, Bool, true, false, ◌&&◌, not, Option, none, some, List, [], ◌∷◌, ◌++◌, ◌==◌, is_blank,
  if◌then◌else◌,
}
use cortxt.Value.{Value, str, bool}

pub data DataClass : Type 0 where
  l0 l1 l2 l3 : DataClass

-- `other` is anything that is no member
pub data AssuranceStatus : Type 0 where
  none_yet in_progress completed other : AssuranceStatus

pub data Field : Type 0 where
  approved zero_data_retention encryption dpa : Field
  subprocessors_published hosting_region_published incident_process_published : Field

pub record ProviderEvidence (F : Type 0) : Type 0 where
  pub provider_id : Value F
  -- `getattr(evidence, field)`
  pub getattr : Field → Value F
  pub independent_assurance : AssuranceStatus

pub data Reason : Type 0 where
  unknown_data_class missing_provider_evidence l3_policy_not_defined : Reason
  missing : Field → Reason
  independent_assurance_not_completed requirements_satisfied : Reason

-- `data_class` is `none` where it is the text of what is no class.
pub record PolicyDecision : Type 0 where
  pub allowed : Bool
  pub data_class : Option DataClass
  pub provider_id : String
  pub reasons : List Reason

-- `_REQUIREMENTS`, which has no entry for L3
unfoldable pub requirements : DataClass → List Field
requirements l0 = approved ∷ []
requirements l1 = approved ∷ zero_data_retention ∷ encryption ∷ []
requirements l2 =
    approved ∷ zero_data_retention ∷ encryption ∷ dpa ∷ subprocessors_published
    ∷ hosting_region_published ∷ incident_process_published ∷ []
requirements l3 = []

abbrev pub assured : AssuranceStatus → Bool
assured completed = true
assured s = false

-- what the independent assurance adds at L2
abbrev pub assurance_reasons : DataClass → AssuranceStatus → List Reason
assurance_reasons l2 s = if assured s then [] else independent_assurance_not_completed ∷ []
assurance_reasons level s = []

abbrev pub denied : Option DataClass → String → List Reason → PolicyDecision
denied level id reasons = record {
  allowed = false;
  data_class = level;
  provider_id = id;
  reasons = reasons;
}

-- what is decided from the reasons
abbrev pub decision : DataClass → String → List Reason → PolicyDecision
decision level id [] = record {
  allowed = true;
  data_class = some level;
  provider_id = id;
  reasons = requirements_satisfied ∷ [];
}
decision level id (r ∷ reasons) = denied (some level) id (r ∷ reasons)

module _ {F : Type 0} where
  -- `DataClass(data_class)`
  unfoldable pub read_class : Value F → Option DataClass
  read_class (str s) =
      if s == "L0"
      then some l0
      else if s == "L1"
      then some l1
      else if s == "L2"
      then some l2
      else if s == "L3"
      then some l3
      else none
  read_class v = none

  abbrev pub id_of : Value F → String
  id_of (str s) = s
  id_of v = "unknown"

  -- a text that is not blank
  abbrev pub is_named : Value F → Bool
  is_named (str s) = not (is_blank s)
  is_named v = false

  -- `v is True`
  abbrev pub is_true : Value F → Bool
  is_true (bool b) = b
  is_true v = false

  unfoldable pub missing_fields : ProviderEvidence F → List Field → List Reason
  missing_fields evidence [] = []
  missing_fields evidence (f ∷ fields) =
      let rest = missing_fields evidence fields in
      if is_true (evidence.getattr f) then rest else missing f ∷ rest

  unfoldable pub evaluate_known : DataClass → ProviderEvidence F → PolicyDecision
  unfolding missing_fields requirements
  evaluate_known l3 evidence =
      denied (some l3) (id_of evidence.provider_id) (l3_policy_not_defined ∷ [])
  evaluate_known level evidence = decision level (id_of evidence.provider_id) (
      missing_fields evidence (requirements level)
      ++ assurance_reasons level evidence.independent_assurance)

  unfoldable pub evaluate_level : DataClass → Option (ProviderEvidence F) → PolicyDecision
  unfolding evaluate_known is_blank
  evaluate_level level none = denied (some level) "unknown" (missing_provider_evidence ∷ [])
  evaluate_level level (some evidence) =
      if is_named evidence.provider_id
      then evaluate_known level evidence
      else denied (some level) (id_of evidence.provider_id) (missing_provider_evidence ∷ [])

  abbrev provider_of : Option (ProviderEvidence F) → String
  provider_of none = "unknown"
  provider_of (some evidence) = id_of evidence.provider_id

  -- `evaluate_provider`
  unfoldable pub evaluate_provider : Value F → Option (ProviderEvidence F) → PolicyDecision
  unfolding read_class evaluate_level
  evaluate_provider data_class evidence = elim (read_class data_class) [
    | none ↦ denied none (provider_of evidence) (unknown_data_class ∷ [])
    | some level ↦ evaluate_level level evidence
  ]
