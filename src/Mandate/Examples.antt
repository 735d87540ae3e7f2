-- ===== src/Mandate/Examples.antt =====
-- Concrete runs of the mandate verifier.
use cortxt.Prelude.{ℕ, ◌≡◌, ◌≢◌, ◌↔◌, refl, true, false, [], ◌∷◌}
use cortxt.Value.{Value, Fields, arr, obj, nil, end, field, get}
use cortxt.Mandate.Check.{Outcome, raised, ok, Services}
use cortxt.Value.{same_keys}
use cortxt.Mandate.Timestamp.{parse_utc}
use cortxt.Mandate.Envelope.{
  schema_hashable, schema_known, known_issuer, known_kid, signature_valid, tool_allowed,
  data_class_order, max_rank, max_runtime, runtime_within, cap_overflows, budget_cap, issue_matches,
  fingerprint_matches,
}
use cortxt.Mandate.Verify.{
  verify_fields, authenticate, identify, consume_nonce, authorize, check_scope, debit_budget,
  check_binding,
}
use cortxt.Mandate.Verify.Soundness.{IsGranted, is_accepted, accepted-IsGranted}
use cortxt.Mandate.Verify.Effects.{unauthentic_raises, unauthentic_consumes_nothing}
use cortxt.Mandate.Verify.Replay.{IsReplayRegister, call, world, play, nonce_accepted_once}
use cortxt.Mandate.Disk.{ask_revoked, consume, record_debit, nonce_used}
use cortxt.Mandate.Disk.Register.{disk-IsReplayRegister}
use cortxt.Mandate.Nonces.{check_and_consume}
use cortxt.Mandate.Budgets.{record_and_check}
use cortxt.Mandate.Revocation.{
  is_revoked, refresh, reload, install, validate, add_record, answer, find, open_store,
}
use cortxt.Mandate.Samples.{whole, config, start, envelope, run_call}
use cortxt.Mandate.Verify.{Call, verify_mandate}
use cortxt.Mandate.Disk.{Disk, disk_services}

abbrev services : Services ℕ (Disk whole)
services = disk_services whole config

-- one call; the line opens everything that a call computes with
run : Call ℕ → Value ℕ → Disk whole → Outcome × Disk whole
unfolding verify_mandate verify_fields authenticate identify consume_nonce authorize check_scope
    debit_budget check_binding ask_revoked consume record_debit is_revoked refresh reload install
    validate add_record answer find open_store check_and_consume record_and_check schema_hashable
    schema_known known_issuer known_kid signature_valid tool_allowed data_class_order max_rank
    max_runtime runtime_within cap_overflows budget_cap issue_matches fingerprint_matches parse_utc
    same_keys get
run = verify_mandate whole services

first_accepted :
    is_accepted whole services
      (verify_mandate whole services run_call (obj (envelope "n1")) start).0
    ≡ true
unfolding run
first_accepted = refl

accepted-IsGranted_example :
    (d : Fields ℕ) × (obj (envelope "n1") ≡ obj d)
    × IsGranted whole services run_call d start
        (verify_mandate whole services run_call (obj (envelope "n1")) start).1
accepted-IsGranted_example =
    accepted-IsGranted whole services run_call (obj (envelope "n1")) start first_accepted

nonce_accepted_once_example :
    is_accepted whole services
      (verify_mandate whole services run_call (obj (envelope "n1")) (
        play whole services
          (nonce_used whole)
          (disk-IsReplayRegister whole config)
          (world (λ s. record s { now = 125 }) ∷ call run_call (obj (envelope "n2")) ∷ [])
          (verify_mandate whole services run_call (obj (envelope "n1")) start).1)).0
    ≡ false
unfolding get
nonce_accepted_once_example =
    nonce_accepted_once whole services (nonce_used whole) (disk-IsReplayRegister whole config)
      run_call run_call (envelope "n1") (envelope "n1") "n1"
      (world (λ s. record s { now = 125 }) ∷ call run_call (obj (envelope "n2")) ∷ []) start refl
      refl ((λ s h. h), (tt, tt)) first_accepted

disk-IsReplayRegister_example : IsReplayRegister services (nonce_used whole)
disk-IsReplayRegister_example = disk-IsReplayRegister whole config

-- the version is a list
abbrev bad_version : Fields ℕ
bad_version = field "schema_version" (arr nil) end

bad_version_fails : (authenticate whole services run_call bad_version start).0 ≢ ok tt
unfolding run
bad_version_fails = λ e. cc

unauthentic_raises_example :
    ((verify_mandate whole services run_call (obj bad_version) start).0 ≡ raised)
    ↔ (schema_hashable whole bad_version ≡ false)
unauthentic_raises_example =
    unauthentic_raises whole services run_call bad_version start bad_version_fails

unauthentic_consumes_nothing_example :
    (verify_mandate whole services run_call (obj bad_version) start).1.nonce_file ≡ start.nonce_file
unfolding ask_revoked
unauthentic_consumes_nothing_example =
    unauthentic_consumes_nothing whole services (λ s. s.nonce_file) run_call bad_version start
      (λ g k t s. refl) bad_version_fails
