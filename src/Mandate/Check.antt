-- ===== src/Mandate/Check.antt =====
-- The decisions of agent-platform/cortxt_mcp/mandate.py, the stores that a verifier is given, and
-- the chain of checks: each returns, rejects with a reason, or raises.
use cortxt.Prelude.{String, Bool, true, false, Option}
use cortxt.Platform.{Time}

-- the REASON_ constants
pub data Reason : Type 0 where
  accepted mandate_missing malformed_envelope unknown_schema_version unknown_granted_by : Reason
  unknown_kid key_revoked missing_signature invalid_signature nonce_replayed : Reason
  expires_at_invalid expired tool_not_allowed invalid_data_class data_class_exceeded : Reason
  runtime_exceeded budget_exceeded issue_ref_mismatch scope_fingerprint_mismatch : Reason

pub record MandateDecision : Type 0 where
  pub accepted : Bool
  pub reason : Reason
  pub mandate_id : Option String

-- What a call of `verify_mandate` ends with: a decision, or an exception that leaves it.
pub data Outcome : Type 0 where
  decided : MandateDecision → Outcome
  raised : Outcome

pub record CallContext (F : Type 0) : Type 0 where
  pub issue_ref : String
  pub data_class : String
  pub estimated_cost_usd : F
  pub estimated_runtime_seconds : Option F
  pub scope_text : Option String
  pub expected_scope_fingerprint : Option String

-- The injected stores, over one state; `none` is an exception that the store raises.
pub record Services (F S : Type 0) : Type 0 where
  pub is_revoked : String → String → Time → S → Option Bool × S
  pub check_and_consume : String → S → Option Bool × S
  pub record_and_check : Option String → F → F → S → Option Bool × S

pub data Result (A : Type 0) : Type 0 where
  ok : A → Result A
  reject : Reason → Result A
  fault : Result A

abbrev pub Check : Type 0 → Type 0 → Type 0
Check S A = S → Result A × S

module _ {S A B : Type 0} where
  abbrev pub continue : Result A → (A → Check S B) → Check S B
  continue (ok a) f s = f a s
  continue (reject r) f s = (reject r, s)
  continue fault f s = (fault, s)

  infixl 5 ◌>>=◌ ◌>>◌
  abbrev pub ◌>>=◌ : Check S A → (A → Check S B) → Check S B
  ◌>>=◌ m f s = let (r, s') = m s in continue r f s'

  abbrev pub ◌>>◌ : Check S A → Check S B → Check S B
  m >> k = m >>= λ _. k

module _ {S : Type 0} where
  abbrev pub pure : {A : Type 0} → A → Check S A
  pure a s = (ok a, s)

  abbrev pub refuse : {A : Type 0} → Reason → Check S A
  refuse r s = (reject r, s)

  -- `if not test: return MandateDecision(False, reason, ...)`
  abbrev pub require : Bool → Reason → Check S (Unit {0})
  require true r s = (ok tt, s)
  require false r s = (reject r, s)

  -- `test` must not raise, else TypeError leaves the function
  abbrev pub need_hash : Bool → Check S (Unit {0})
  need_hash true s = (ok tt, s)
  need_hash false s = (fault, s)

  abbrev pub required : {A : Type 0} → Option A → Reason → Check S A
  required Option.none r s = (reject r, s)
  required (Option.some a) r s = (ok a, s)

  -- A call of a store inside `try ... except Exception`: only `some b` for the wanted b passes.
  abbrev pub passes : (S → Option Bool × S) → (Option Bool → Bool) → Reason → Check S (Unit {0})
  passes call wanted r s = let (answer, s') = call s in require (wanted answer) r s'
