-- ===== src/Mandate/Samples.antt =====
-- Sample data for the tests of the mandate verifier: a small platform whose floats are whole
-- numbers, a published snapshot, an envelope and a call.
use cortxt.Prelude.{
  ℕ, pos, negsuc, ◌+◌, ◌-◌, ◌/◌, String, true, false, none, some, ltb, leb, eqb, ◌==◌,
  if◌then◌else◌,
}
use cortxt.Value.{Fields, int, float, str, arr, obj, nil, cons, end, field}
use cortxt.Platform.{Platform, aware}
use cortxt.Mandate.Nonces as Nonces
use cortxt.Mandate.Budgets as Budgets
use cortxt.Mandate.Revocation as Revocation
use cortxt.Mandate.Revocation.{Config, open_store}
use cortxt.Mandate.Verify.{Call}
use cortxt.Mandate.Disk.{Disk}

abbrev pub whole : Platform
whole = record {
  Float = ℕ;
  zero_float = 0;
  add = λ a b. a + b;
  sub = λ a b. a - b;
  div_int = λ a n. a / n;
  le_float = leb;
  lt_float = ltb;
  eq_float = eqb;
  of_int = λ i. elim i [ pos n ↦ some n | negsuc n ↦ none ];
  of_text = λ s. none;
  truncate = λ x. some (pos x);
  eq_int = λ i x. elim i [ pos n ↦ eqb n x | negsuc n ↦ false ];
  exceeds = λ x i. elim i [ pos n ↦ ltb n x | negsuc n ↦ true ];
  fromisoformat = λ s. if s == "noon+00:00" then some (aware 500) else none;
  is_public_key = λ s. s == "abcd";
  verifies = λ key signature body. signature == "good";
  below = λ x i. elim i [ pos n ↦ ltb x n | negsuc n ↦ false ];
  sha256 = λ s. s;
  hmac_sha256 = λ secret payload. "ab";
  loads = λ s. none;
  dumps = λ d. "{}";
  dumps_text = λ d. "{}";
  canonical = λ d. some "{}";
  lower = λ s. if s == "Tool" then "tool" else s;
  regex_search = λ pattern s. true;
}

abbrev pub config : Config
config = record { refresh_interval = 10; freshness = 60 }

-- a published snapshot that revokes one key from time 50 on
abbrev pub snapshot : Revocation.Snapshot ℕ
snapshot = record {
  stat = some (1, 1);
  content = some (
      obj (
        field "generation" (int (pos 1)) (
          field "revocations"
            (arr (
              cons
                (obj (
                  field "granted_by" (str "ops")
                    (field "kid" (str "old") (field "revoked_at" (str "noonZ") end))))
                nil))
            end)));
}

abbrev pub start : Disk whole
start = record {
  revocations = open_store whole config 100 snapshot;
  snapshot = snapshot;
  refreshed_at = 120;
  now = 120;
  nonce_file = Nonces.missing;
  budget_file = Budgets.missing;
}

abbrev pub envelope : String → Fields ℕ
envelope nonce = field "schema_version" (int (pos 2)) (
    field "mandate_id" (str "m1") (
      field "granted_by" (str "ops") (
        field "kid" (str "k1") (
          field "issue_ref" (str "#1") (
            field "allowed_tools" (arr (cons (str "run") nil)) (
              field "data_class_max" (str "L2") (
                field "budget_usd_max" (float 10) (
                  field "max_runtime_seconds" (int (pos 60)) (
                    field "expires_at" (str "noonZ") (
                      field "nonce" (str nonce) (
                        field "scope_fingerprint" (str "s")
                          (field "signature" (str "good") end))))))))))))

abbrev pub run_call : Call ℕ
run_call = record {
  tool = "run";
  context = record {
    issue_ref = "#1";
    data_class = "L1";
    estimated_cost_usd = 4;
    estimated_runtime_seconds = some 30;
    scope_text = some "s";
    expected_scope_fingerprint = none;
  };
  public_keys = field "ops" (obj (field "k1" (str "abcd") end)) end;
  revoked_at = 120;
  expiry_at = 121;
}
