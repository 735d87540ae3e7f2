-- ===== src/Mandate/Verify.antt =====
-- `verify_mandate` of agent-platform/cortxt_mcp/mandate.py: the checks in the source's order.
pub mod Steps
pub mod Keeps
pub mod Soundness
pub mod Replay
pub mod Effects
use cortxt.Prelude.{
  ℕ, ℤ, String, Bool, true, false, not, Option, none, some, ◌==◌, leb, if◌then◌else◌,
}
use cortxt.Value.{Value, Fields, null, obj, get, same_keys, is_hashable, nonempty_str}
use cortxt.Platform.{Platform, Time}
use cortxt.Mandate.Timestamp.{parse_utc}
use cortxt.Mandate.Check.{
  Reason, accepted, mandate_missing, malformed_envelope, unknown_schema_version, unknown_granted_by,
  unknown_kid, key_revoked, missing_signature, invalid_signature, nonce_replayed,
  expires_at_invalid, expired, tool_not_allowed, invalid_data_class, data_class_exceeded,
  runtime_exceeded, budget_exceeded, issue_ref_mismatch, scope_fingerprint_mismatch,
  MandateDecision, Outcome, decided, raised, CallContext, Services, Result, ok, reject, fault,
  Check, ◌>>=◌, ◌>>◌, pure, refuse, require, need_hash, required, passes,
}
use cortxt.Mandate.Envelope.{
  required_fields, data_class_order, schema_hashable, schema_known, known_issuer, known_kid,
  signature_valid, tool_allowed, max_rank, max_runtime, runtime_within, cap_overflows, budget_cap,
  issue_matches, fingerprint_matches,
}

-- One call: the tool, its context, the registered keys, and what `clock()` returns where
-- `is_revoked` is called and where the expiry is compared.
pub record Call (F : Type 0) : Type 0 where
  pub tool : String
  pub context : CallContext F
  pub public_keys : Fields F
  pub revoked_at : Time
  pub expiry_at : Time

-- a store's answer: only False clears the key, only True passes the nonce and the budget
abbrev pub not_revoked : Option Bool → Bool
not_revoked none = false
not_revoked (some b) = not b

abbrev pub is_true : Option Bool → Bool
is_true none = false
is_true (some b) = b

module _ (p : Platform) {S : Type 0} (services : Services p.Float S) where
  open p use {Float}
  open services use {is_revoked, check_and_consume, record_and_check}

  -- schema version, fields, issuer and key
  unfoldable pub identify : Call Float → Fields Float → Check S (String × String × Fields Float)
  identify c d = do
    need_hash (schema_hashable p d)
    require (schema_known p d) unknown_schema_version
    require (same_keys d required_fields) malformed_envelope
    granted_by ← required (known_issuer p c.public_keys d) unknown_granted_by
    key ← required (known_kid p c.public_keys granted_by d) unknown_kid
    pure (granted_by, key.0, key.1)

  -- revocation, then the signature: nothing is consumed so far
  unfoldable pub authenticate : Call Float → Fields Float → Check S (Unit {0})
  authenticate c d = do
    (granted_by, kid, issuer_keys) ← identify c d
    passes (is_revoked granted_by kid c.revoked_at) not_revoked key_revoked
    signature ← required (nonempty_str (get d "signature")) missing_signature
    require (signature_valid p issuer_keys kid d signature) invalid_signature

  unfoldable pub consume_nonce : Fields Float → Check S (Unit {0})
  consume_nonce d = do
    nonce ← required (nonempty_str (get d "nonce")) malformed_envelope
    passes (check_and_consume nonce) is_true nonce_replayed

  -- expiry, tool, data class and runtime
  unfoldable pub check_scope : Call Float → Fields Float → Check S (Unit {0})
  check_scope c d = do
    expires_at ← required (parse_utc p (get d "expires_at")) expires_at_invalid
    require (not (leb expires_at c.expiry_at)) expired
    require (tool_allowed p c.tool d) tool_not_allowed
    need_hash (is_hashable (get d "data_class_max"))
    call_rank ← required (data_class_order c.context.data_class) invalid_data_class
    max_rank ← required (max_rank p d) invalid_data_class
    require (leb call_rank max_rank) data_class_exceeded
    max_runtime ← required (max_runtime p (get d "max_runtime_seconds")) malformed_envelope
    require (runtime_within p c.context.estimated_runtime_seconds max_runtime) runtime_exceeded

  unfoldable pub debit_budget : Call Float → Fields Float → Check S (Unit {0})
  debit_budget c d = do
    need_hash (not (cap_overflows p (get d "budget_usd_max")))
    cap ← required (budget_cap p (get d "budget_usd_max")) malformed_envelope
    passes (record_and_check (nonempty_str (get d "mandate_id")) c.context.estimated_cost_usd cap)
        is_true budget_exceeded

  unfoldable pub check_binding : Call Float → Fields Float → Check S (Unit {0})
  check_binding c d = do
    require (issue_matches p c.context d) issue_ref_mismatch
    require (fingerprint_matches p c.context d) scope_fingerprint_mismatch

  -- what follows the nonce
  unfoldable pub authorize : Call Float → Fields Float → Check S (Unit {0})
  authorize c d = do check_scope c d; debit_budget c d; check_binding c d

  unfoldable pub verify_fields : Call Float → Fields Float → Check S (Unit {0})
  verify_fields c d = do authenticate c d; consume_nonce d; authorize c d

  abbrev pub conclude : Option String → Result (Unit {0}) → Outcome
  conclude id (ok u) = decided (record { accepted = true; reason = accepted; mandate_id = id })
  conclude id (reject r) = decided (record { accepted = false; reason = r; mandate_id = id })
  conclude id fault = raised

  unfoldable pub verify_mandate : Call Float → Value Float → S → Outcome × S
  verify_mandate c null s = (conclude none (reject mandate_missing), s)
  verify_mandate c (obj d) s =
      let (r, s') = verify_fields c d s in (conclude (nonempty_str (get d "mandate_id")) r, s')
  verify_mandate c v s = (conclude none (reject malformed_envelope), s)
