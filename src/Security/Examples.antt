-- ===== src/Security/Examples.antt =====
-- A credential that is stored twice, once without confirmation, for
-- agent-platform/security/credential_broker.py, with the theorem at it.
use cortxt.Prelude.{
  String, true, false, ◌≡◌, ◌↔◌, refl, ap, sym, Option, none, some, List, [], ◌∷◌, ◌==◌,
  if◌then◌else◌,
}
use mathlib.Core.Option.{some-injective}
use cortxt.Security.Broker.{injected, World, matches_id, inject, empty_vault}
use cortxt.Security.Broker.Provenance.{
  Call, storing, injecting, run, last_held, IsInverse, inject_lem,
}

abbrev decrypt : String → Option String
decrypt c = if c == "sealed" then some "secret" else none

-- a file system on which the two spellings are one file
abbrev file_of : String → String
file_of id = if id == "API-key" then "api-key" else id

abbrev world : World
world = record {
  now = "2026-01-01T00:00:00Z";
  encrypted = some "sealed";
  record_written = true;
  record_read = true;
  audit_written = true;
}

-- the second store is refused
abbrev calls : List Call
calls =
    storing world "API-key" "secret" true
    ∷ storing world "api-key" "secret" false
    ∷ injecting world "api-key" "hermes" "dispatch"
    ∷ []

valid : matches_id "api-key" ≡ true
unfolding matches_id
valid = refl

undone : IsInverse decrypt (storing world "API-key" "secret" true)
undone c h = ap decrypt (sym (some-injective _ _ h))

inject_lem_example :
    ((inject file_of decrypt world "api-key" "hermes" "dispatch"
        (run file_of decrypt calls empty_vault)).0
      ≡ injected "secret")
    ↔ (last_held file_of "api-key" none calls ≡ some "secret")
inject_lem_example =
    inject_lem file_of decrypt world "api-key" "hermes" "dispatch" "secret" calls valid refl refl
      (undone, (undone, (tt, tt)))
