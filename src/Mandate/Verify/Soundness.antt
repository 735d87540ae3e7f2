-- ===== src/Mandate/Verify/Soundness.antt =====
-- What an accepted call of `verify_mandate` has passed.
use cortxt.Prelude.{
  ℕ, ℤ, String, ◌≡◌, ◌∙◌, ap, ◌<◌, ◌≤◌, refl, Bool, true, false, not, Option, some, arith, leb,
}
use cortxt.Value.{
  Value, Fields, null, bool, int, float, str, arr, obj, get, is_hashable, same_keys, nonempty_str,
}
use cortxt.Platform.{Platform, Time}
use cortxt.Mandate.Timestamp.{parse_utc}
use cortxt.Mandate.Check.{
  key_revoked, nonce_replayed, budget_exceeded, Outcome, decided, raised, Services,
}
use cortxt.Mandate.Verify.Steps.{
  Passes, require-last, passes-last, require-ok, need_hash-ok, required-ok, passes-ok, bind-ok,
}
use cortxt.Mandate.Envelope.{
  required_fields, data_class_order, schema_hashable, schema_known, cap_overflows, known_issuer,
  known_kid, signature_valid, tool_allowed, max_rank, max_runtime, runtime_within, budget_cap,
  issue_matches, fingerprint_matches,
}
use cortxt.Mandate.Verify.{
  Call, identify, authenticate, consume_nonce, check_scope, debit_budget, check_binding, authorize,
  verify_fields, verify_mandate, not_revoked, is_true,
}

module _ (p : Platform) {S : Type 0} (services : Services p.Float S) where
  open p use {Float}

  -- What the envelope's own content must satisfy for one call.
  pub record InScope (c : Call Float) (d : Fields Float) : Type 0 where
    pub expires_at : Time
    pub parsed : parse_utc p (get d "expires_at") ≡ some expires_at
    pub unexpired : c.expiry_at < expires_at
    pub tool : tool_allowed p c.tool d ≡ true
    pub call_rank : ℕ
    pub class_rank : ℕ
    pub call_class : data_class_order c.context.data_class ≡ some call_rank
    pub class_max : max_rank p d ≡ some class_rank
    pub class_within : call_rank ≤ class_rank
    pub runtime_cap : ℤ
    pub runtime_max : max_runtime p (get d "max_runtime_seconds") ≡ some runtime_cap
    pub runtime : runtime_within p c.context.estimated_runtime_seconds runtime_cap ≡ true

  -- the call of the budget store
  abbrev pub debit : Call Float → Fields Float → Float → S → Option Bool × S
  debit c d cap =
      services.record_and_check (nonempty_str (get d "mandate_id")) c.context.estimated_cost_usd cap

  check_scope-InScope :
      (c : Call Float) (d : Fields Float) (s : S) {s' : S}
      → Passes (check_scope p services c d s) tt s'
      → InScope c d × (s ≡ s')
  unfolding check_scope
  check_scope-InScope c d s h =
      let (t, et, h₁) = required-ok (parse_utc p (get d "expires_at")) _ _ s h in
      let (lt, h₂) = require-ok (not (leb t c.expiry_at)) _ _ s h₁ in
      let (tool, h₃) = require-ok (tool_allowed p c.tool d) _ _ s h₂ in
      let (_, h₄) = need_hash-ok (is_hashable (get d "data_class_max")) _ s h₃ in
      let (a, ea, h₅) = required-ok (data_class_order c.context.data_class) _ _ s h₄ in
      let (b, eb, h₆) = required-ok (max_rank p d) _ _ s h₅ in
      let (le, h₇) = require-ok (leb a b) _ _ s h₆ in
      let (n, en, h₈) = required-ok (max_runtime p (get d "max_runtime_seconds")) _ _ s h₇ in
      let (within, same) = require-last (runtime_within p _ n) _ s h₈ in
      (
        record {
          expires_at = t;
          parsed = et;
          unexpired = ground arith;
          tool = tool;
          call_rank = a;
          class_rank = b;
          call_class = ea;
          class_max = eb;
          class_within = ground arith;
          runtime_cap = n;
          runtime_max = en;
          runtime = within;
        },
        same,
      )

  abbrev pub Key : Type 0
  Key = String × String × Fields Float

  -- The envelope has the fields of the schema, and names a registered issuer and one of its keys.
  pub record IsIdentified (c : Call Float) (d : Fields Float) (key : Key) : Type 0 where
    pub version : schema_known p d ≡ true
    pub fields : same_keys d required_fields ≡ true
    pub issuer : known_issuer p c.public_keys d ≡ some key.0
    pub kid : known_kid p c.public_keys key.0 d ≡ some (key.1, key.2)

  identify-IsIdentified :
      (c : Call Float) (d : Fields Float) (s : S) {key : Key} {s' : S}
      → Passes (identify p services c d s) key s'
      → IsIdentified c d key × (s ≡ s')
  unfolding identify
  identify-IsIdentified c d s {key} {s'} h =
      let (_, h₁) = need_hash-ok (schema_hashable p d) _ s h in
      let (v, h₂) = require-ok (schema_known p d) _ _ s h₁ in
      let (f, h₃) = require-ok (same_keys d required_fields) _ _ s h₂ in
      let (g, eg, h₄) = required-ok (known_issuer p c.public_keys d) _ _ s h₃ in
      let (k, ek, h₅) = required-ok (known_kid p c.public_keys g d) _ _ s h₄ in
      (record { version = v; fields = f; issuer = cc (eg, h₅.0); kid = cc (ek, h₅.0) }, h₅.1)

  -- The issuer's key is not revoked, and it signed the envelope.
  pub record IsAuthentic (c : Call Float) (d : Fields Float) (s : S) (key : Key) : Type 0 where
    pub identified : IsIdentified c d key
    pub unrevoked : not_revoked (services.is_revoked key.0 key.1 c.revoked_at s).0 ≡ true
    pub signature : String
    pub given : nonempty_str (get d "signature") ≡ some signature
    pub signed : signature_valid p key.2 key.1 d signature ≡ true

  authenticate-IsAuthentic :
      (c : Call Float) (d : Fields Float) (s : S) {s' : S}
      → Passes (authenticate p services c d s) tt s'
      → (key : Key) × IsAuthentic c d s key
        × ((services.is_revoked key.0 key.1 c.revoked_at s).1 ≡ s')
  unfolding authenticate
  authenticate-IsAuthentic c d s h =
      let (key, s₁, id, h₁) = bind-ok (identify p services c d) _ s h in
      let (identified, same) = identify-IsIdentified c d s id in
      let (live, h₂) =
        passes-ok (services.is_revoked key.0 key.1 c.revoked_at) not_revoked key_revoked _ s₁ h₁ in
      let s₂ = (services.is_revoked key.0 key.1 c.revoked_at s₁).1 in
      let (sig, es, h₃) = required-ok (nonempty_str (get d "signature")) _ _ s₂ h₂ in
      let (signed, last) = require-last (signature_valid p key.2 key.1 d sig) _ s₂ h₃ in
      (
        key,
        record {
          identified = identified;
          unrevoked = cc (same, live);
          signature = sig;
          given = es;
          signed = signed;
        },
        cc (same, last),
      )

  consume_nonce-ok :
      (d : Fields Float) (s : S) {s' : S}
      → Passes (consume_nonce p services d s) tt s'
      → (nonce : String) × (nonempty_str (get d "nonce") ≡ some nonce)
        × (is_true (services.check_and_consume nonce s).0 ≡ true)
        × ((services.check_and_consume nonce s).1 ≡ s')
  unfolding consume_nonce
  consume_nonce-ok d s h =
      let (n, en, h₁) = required-ok (nonempty_str (get d "nonce")) _ _ s h in
      let (fresh, last) = passes-last (services.check_and_consume n) is_true nonce_replayed s h₁ in
      (n, en, fresh, last)

  debit_budget-ok :
      (c : Call Float) (d : Fields Float) (s : S) {s' : S}
      → Passes (debit_budget p services c d s) tt s'
      → (cap : Float) × (budget_cap p (get d "budget_usd_max") ≡ some cap)
        × (is_true (debit c d cap s).0 ≡ true)
        × ((debit c d cap s).1 ≡ s')
  unfolding debit_budget
  debit_budget-ok c d s h =
      let (_, h₁) = need_hash-ok (not (cap_overflows p (get d "budget_usd_max"))) _ s h in
      let (cap, ec, h₂) = required-ok (budget_cap p (get d "budget_usd_max")) _ _ s h₁ in
      let (within, last) = passes-last (debit c d cap) is_true budget_exceeded s h₂ in
      (cap, ec, within, last)

  check_binding-ok :
      (c : Call Float) (d : Fields Float) (s : S) {s' : S}
      → Passes (check_binding p services c d s) tt s'
      → (issue_matches p c.context d ≡ true) × (fingerprint_matches p c.context d ≡ true) × (s ≡ s')
  unfolding check_binding
  check_binding-ok c d s h =
      let (i, h₁) = require-ok (issue_matches p c.context d) _ _ s h in
      let (f, last) = require-last (fingerprint_matches p c.context d) _ s h₁ in (i, f, last)

  -- The states of the stores after the revocation check and after the nonce check.
  abbrev pub after_revocation : Call Float → Key → S → S
  after_revocation c key s = (services.is_revoked key.0 key.1 c.revoked_at s).1

  abbrev pub after_nonce : Call Float → Key → String → S → S
  after_nonce c key nonce s = (services.check_and_consume nonce (after_revocation c key s)).1

  -- Everything that an accepted call has shown, the stores' answers included, and the state that
  -- it leaves.
  pub record IsGranted (c : Call Float) (d : Fields Float) (s s' : S) : Type 0 where
    pub key : Key
    pub authentic : IsAuthentic c d s key
    pub nonce : String
    pub nonce_given : nonempty_str (get d "nonce") ≡ some nonce
    pub nonce_fresh : is_true (services.check_and_consume nonce (after_revocation c key s)).0 ≡ true
    pub scope : InScope c d
    pub cap : Float
    pub cap_given : budget_cap p (get d "budget_usd_max") ≡ some cap
    pub within_budget : is_true (debit c d cap (after_nonce c key nonce s)).0 ≡ true
    pub issue : issue_matches p c.context d ≡ true
    pub fingerprint : fingerprint_matches p c.context d ≡ true
    pub left : (debit c d cap (after_nonce c key nonce s)).1 ≡ s'

  pub verify_fields-IsGranted :
      (c : Call Float) (d : Fields Float) (s : S) {s' : S}
      → Passes (verify_fields p services c d s) tt s'
      → IsGranted c d s s'
  unfolding verify_fields authorize
  verify_fields-IsGranted c d s h =
      let (_, s₁, h₁, r₁) = bind-ok (authenticate p services c d) _ s h in
      let (_, s₂, h₂, r₂) = bind-ok (consume_nonce p services d) _ s₁ r₁ in
      let (_, s₃, h₃, r₃) = bind-ok (check_scope p services c d) _ s₂ r₂ in
      let (_, s₄, h₄, h₅) = bind-ok (debit_budget p services c d) _ s₃ r₃ in
      let (key, authentic, e₁) = authenticate-IsAuthentic c d s h₁ in
      let (nonce, given, fresh, e₂) = consume_nonce-ok d s₁ h₂ in
      let (scope, e₃) = check_scope-InScope c d s₂ h₃ in
      let (cap, cap_given, within, e₄) = debit_budget-ok c d s₃ h₄ in
      let (issue, fingerprint, e₅) = check_binding-ok c d s₄ h₅ in
      let reached : after_nonce c key nonce s ≡ s₃ =
        ap (λ (x : S). (services.check_and_consume nonce x).1) e₁ ∙ e₂ ∙ e₃ in
      record {
        key = key;
        authentic = authentic;
        nonce = nonce;
        nonce_given = given;
        nonce_fresh = rw e₁ fresh;
        scope = scope;
        cap = cap;
        cap_given = cap_given;
        within_budget = rw reached within;
        issue = issue;
        fingerprint = fingerprint;
        left = rw reached (e₄ ∙ e₅);
      }

  abbrev pub is_accepted : Outcome → Bool
  is_accepted (decided m) = m.accepted
  is_accepted raised = false

  pub accepted_fields-IsGranted :
      (c : Call Float) (d : Fields Float) (s : S)
      → is_accepted (verify_mandate p services c (obj d) s).0 ≡ true
      → IsGranted c d s (verify_mandate p services c (obj d) s).1
  unfolding verify_mandate
  accepted_fields-IsGranted c d s h = verify_fields-IsGranted c d s (ground arith, refl)

  -- A call that is accepted was given a dictionary, and everything that `IsGranted` lists holds
  -- of it: its fields, issuer, key and signature, an answer of the revocation store that clears
  -- the key, a nonce that was fresh, an expiry after the clock, the tool, the data class and the
  -- runtime, a debit within the cap, and the bound issue and scope.
  pub accepted-IsGranted :
      (c : Call Float) (envelope : Value Float) (s : S)
      → is_accepted (verify_mandate p services c envelope s).0 ≡ true
      → (d : Fields Float) × (envelope ≡ obj d)
        × IsGranted c d s (verify_mandate p services c envelope s).1
  unfolding verify_mandate
  accepted-IsGranted c (obj d) s h = (d, refl, accepted_fields-IsGranted c d s h)
  accepted-IsGranted c null s h = ground arith
  accepted-IsGranted c (bool b) s h = ground arith
  accepted-IsGranted c (int n) s h = ground arith
  accepted-IsGranted c (float x) s h = ground arith
  accepted-IsGranted c (str t) s h = ground arith
  accepted-IsGranted c (arr items) s h = ground arith
