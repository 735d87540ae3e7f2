-- ===== src/Mandate/Envelope.antt =====
-- What `verify_mandate` of agent-platform/cortxt_mcp/mandate.py reads of an envelope, one
-- function for each check: none of these calls a store.
use cortxt.Prelude.{
  ℕ, ℤ, pos, String, Bool, true, false, ◌&&◌, ◌||◌, not, Option, none, some, List, [], ◌∷◌, eqb,
  ◌==◌, ltb_ℤ, is_some, if◌then◌else◌,
}
use cortxt.Value.{
  Value, Fields, bool, int, float, str, arr, obj, end, field, get, has, lookup, text_in,
  is_hashable, as_str, nonempty_str, without,
}
use cortxt.Platform.{Platform}
use cortxt.Mandate.Check.{CallContext}

-- `_REQUIRED_FIELDS`
abbrev pub required_fields : List String
required_fields =
    "schema_version" ∷ "mandate_id" ∷ "granted_by" ∷ "kid" ∷ "issue_ref" ∷ "allowed_tools"
    ∷ "data_class_max" ∷ "budget_usd_max" ∷ "max_runtime_seconds" ∷ "expires_at" ∷ "nonce"
    ∷ "scope_fingerprint" ∷ "signature" ∷ []

-- `_DATA_CLASS_ORDER.get(text)`
unfoldable pub data_class_order : String → Option ℕ
data_class_order s =
    if s == "L0"
    then some 0
    else if s == "L1"
    then some 1
    else if s == "L2"
    then some 2
    else if s == "L3"
    then some 3
    else none

module _ (p : Platform) where
  open p use {Float, of_int, of_text, truncate, eq_int, exceeds, is_public_key, sha256}

  -- `_valid_public_keyring`: the keys of one issuer, then the issuers
  unfoldable pub valid_issuer_keys : Fields Float → Bool
  valid_issuer_keys end = true
  valid_issuer_keys (field kid (str material) keys) =
      not (kid == "") && is_public_key material && valid_issuer_keys keys
  valid_issuer_keys (field kid v keys) = false

  unfoldable pub valid_issuers : Fields Float → Bool
  unfolding valid_issuer_keys
  valid_issuers end = true
  valid_issuers (field granted_by (obj keys) issuers) =
      not (granted_by == "") && valid_issuer_keys keys && valid_issuers issuers
  valid_issuers (field granted_by v issuers) = false

  unfoldable pub valid_public_keyring : Value Float → Bool
  unfolding valid_issuers
  valid_public_keyring (obj issuers) = valid_issuers issuers
  valid_public_keyring v = false

  -- `value in _KNOWN_SCHEMA_VERSIONS`, for a value that has a hash
  unfoldable pub known_schema_version : Value Float → Bool
  known_schema_version (int (pos n)) = eqb n 2
  known_schema_version (float x) = eq_int (pos 2) x
  known_schema_version v = false

  -- the version is not read where the key is absent
  unfoldable pub schema_hashable : Fields Float → Bool
  unfolding lookup
  schema_hashable d = elim (lookup "schema_version" d) [ none ↦ true | some v ↦ is_hashable v ]

  unfoldable pub schema_known : Fields Float → Bool
  unfolding lookup known_schema_version
  schema_known d = elim (lookup "schema_version" d) [
    | none ↦ true
    | some v ↦ known_schema_version v
  ]

  -- the issuer, if it is registered
  unfoldable pub known_issuer : Fields Float → Fields Float → Option String
  unfolding get has
  known_issuer keys d = elim (as_str (get d "granted_by")) [
    | none ↦ none
    | some granted_by ↦ if has keys granted_by then some granted_by else none
  ]

  abbrev registered : Value Float → String → Option (Fields Float)
  unfolding has
  registered (obj issuer_keys) kid = if has issuer_keys kid then some issuer_keys else none
  registered v kid = none

  -- the key's id, and the keys of the issuer
  unfoldable pub known_kid : Fields Float → String → Fields Float → Option (String × Fields Float)
  unfolding get registered
  known_kid keys granted_by d = elim (nonempty_str (get d "kid")) [
    | none ↦ none
    | some kid ↦ elim (registered (get keys granted_by) kid) [
      | none ↦ none
      | some issuer_keys ↦ some (kid, issuer_keys)
    ]
  ]

  -- the signature over the canonical bytes of the envelope without its signature
  unfoldable pub signature_valid : Fields Float → String → Fields Float → String → Bool
  unfolding get without
  signature_valid issuer_keys kid d signature = elim (as_str (get issuer_keys kid)) [
    | none ↦ false
    | some key ↦ p.verifies key signature (without "signature" d)
  ]

  unfoldable pub tool_allowed : String → Fields Float → Bool
  unfolding get text_in
  tool_allowed tool d = elim (get d "allowed_tools") [ arr items ↦ text_in tool items | v ↦ false ]

  -- `_DATA_CLASS_ORDER.get(envelope.get("data_class_max"))`, for a value that has a hash
  unfoldable pub max_rank : Fields Float → Option ℕ
  unfolding get data_class_order
  max_rank d = elim (as_str (get d "data_class_max")) [ none ↦ none | some s ↦ data_class_order s ]

  abbrev nonnegative : ℤ → Option ℤ
  nonnegative n = if ltb_ℤ n (pos 0) then none else some n

  -- `int(max_runtime_raw)` where it is a whole number that is not negative
  unfoldable pub max_runtime : Value Float → Option ℤ
  max_runtime (int n) = nonnegative n
  max_runtime (float x) = elim (truncate x) [
    | none ↦ none
    | some n ↦ if eq_int n x then nonnegative n else none
  ]
  max_runtime v = none

  unfoldable pub runtime_within : Option Float → ℤ → Bool
  runtime_within estimate cap = elim estimate [ none ↦ true | some x ↦ not (exceeds x cap) ]

  -- `float(v)` raises OverflowError, which the function does not catch
  unfoldable pub cap_overflows : Value Float → Bool
  cap_overflows (int n) = not (is_some (of_int n))
  cap_overflows v = false

  -- `float(v)`; `none` is TypeError or ValueError
  unfoldable pub budget_cap : Value Float → Option Float
  budget_cap (bool b) = of_int (pos (if b then 1 else 0))
  budget_cap (int n) = of_int n
  budget_cap (float x) = some x
  budget_cap (str s) = of_text s
  budget_cap v = none

  -- `v == text`
  abbrev pub is_text : Value Float → String → Bool
  is_text v s = elim (as_str v) [ none ↦ false | some t ↦ t == s ]

  unfoldable pub issue_matches : CallContext Float → Fields Float → Bool
  unfolding get
  issue_matches c d = c.issue_ref == "" || is_text (get d "issue_ref") c.issue_ref

  unfoldable pub expected_fingerprint : CallContext Float → Option String
  expected_fingerprint c = elim c.expected_scope_fingerprint [
    | some f ↦ some f
    | none ↦ elim c.scope_text [ none ↦ none | some text ↦ some (sha256 text) ]
  ]

  unfoldable pub fingerprint_matches : CallContext Float → Fields Float → Bool
  unfolding get expected_fingerprint
  fingerprint_matches c d = elim (expected_fingerprint c) [
    | none ↦ true
    | some f ↦ is_text (get d "scope_fingerprint") f
  ]
