-- ===== src/Security/Broker.antt =====
-- `CredentialBroker` of agent-platform/security/credential_broker.py: the records by the file that holds
-- them, and the audit log.
pub mod Provenance
use cortxt.Prelude.{
  ℕ, String, Bool, true, false, ◌||◌, ◌&&◌, not, Option, none, some, List, [], ◌∷◌, ◌++◌, ◌==◌, leb,
  eqb, codes, all, if◌then◌else◌,
}
use cortxt.Dict.{Dict, lookup, insert}

-- An absent runtime or purpose is None.
pub record AuditRecord : Type 0 where
  pub timestamp : String
  pub action : String
  pub credential_id : String
  pub requesting_runtime : Option String
  pub purpose : Option String
  pub result : String

-- The ciphertexts by file, and the log, oldest first.
pub record Vault : Type 0 where
  pub records : Dict String
  pub audit : List AuditRecord

-- The exceptions of the module, any other exception, and the two results.
pub data Answer : Type 0 where
  stored : Answer
  injected : String → Answer
  not_operator_confirmed : Answer
  credential_not_found : Answer
  integrity_error : Answer
  invalid_credential_id : Answer
  raised : Answer

-- What the outside does in one call: the clock, what `encrypt` returns, where `none` is an exception,
-- and whether the record can be written or read and the log be written.
pub record World : Type 0 where
  pub now : String
  pub encrypted : Option String
  pub record_written : Bool
  pub record_read : Bool
  pub audit_written : Bool

abbrev is_id_char : ℕ → Bool
is_id_char c =
    leb b'A' c && leb c b'Z'
    || (leb b'a' c && leb c b'z' || (leb b'0' c && leb c b'9' || (eqb c b'_' || eqb c b'-')))

-- `_CREDENTIAL_ID_RE.fullmatch`
unfoldable pub matches_id : String → Bool
matches_id s = not (s == "") && all is_id_char (codes s)

-- `_audit`, then the answer; a log that cannot be written raises
unfoldable pub audit :
    World
    → String
    → String
    → Option String
    → Option String
    → String
    → Answer
    → Vault
    → Answer × Vault
audit w action id runtime purpose result answer vault =
    if w.audit_written
    then (
      answer,
      record vault {
        audit =
            vault.audit
            ++ (record {
              timestamp = w.now;
              action = action;
              credential_id = id;
              requesting_runtime = runtime;
              purpose = purpose;
              result = result;
            }
                ∷ []);
      },
    )
    else (raised, vault)

-- the plaintext of a ciphertext that could be read, over `decrypt`
unfoldable pub serve : World → String → String → String → Option String → Vault → Answer × Vault
unfolding audit
serve w id runtime purpose none vault =
    audit w "inject" id (some runtime) (some purpose) "error" integrity_error vault
serve w id runtime purpose (some plaintext) vault =
    audit w "inject" id (some runtime) (some purpose) "ok" (injected plaintext) vault

-- the record of an id that may be missing, unreadable or refused by `decrypt`
unfoldable pub read_record :
    (String → Option String)
    → World
    → String
    → String
    → String
    → Option String
    → Vault
    → Answer × Vault
unfolding audit serve
read_record decrypt w id runtime purpose none vault =
    audit w "inject" id (some runtime) (some purpose) "error" credential_not_found vault
read_record decrypt w id runtime purpose (some ciphertext) vault =
    serve w id runtime purpose (if w.record_read then decrypt ciphertext else none) vault

-- `file_of` gives the file that the file system takes an id's record name for: on Windows, names that
-- differ in case alone are one file.
module _ (file_of : String → String) where
  -- the part of `store` after its checks
  unfoldable pub write_record : World → String → Option String → Vault → Answer × Vault
  unfolding audit
  write_record w id none vault = (raised, vault)
  write_record w id (some ciphertext) vault =
      if w.record_written
      then audit w "store" id none none "ok" stored
          (record vault { records = insert (file_of id) ciphertext vault.records })
      else (raised, vault)

  -- `store`; what `encrypt` makes of the plaintext is `encrypted` of the world
  unfoldable pub store : World → String → Bool → Vault → Answer × Vault
  unfolding audit matches_id write_record
  store w id operator_confirmed vault =
      if not operator_confirmed
      then audit w "store" id none none "denied" not_operator_confirmed vault
      else if not (matches_id id)
      then audit w "store" id none none "error" invalid_credential_id vault
      else write_record w id w.encrypted vault

  -- `inject`
  unfoldable pub inject :
      (String → Option String) → World → String → String → String → Vault → Answer × Vault
  unfolding audit matches_id read_record
  inject decrypt w id runtime purpose vault =
      if not (matches_id id)
      then audit w "inject" id (some runtime) (some purpose) "error" invalid_credential_id vault
      else read_record decrypt w id runtime purpose (lookup (file_of id) vault.records) vault

-- `CredentialBroker(store_dir)` over an empty directory
abbrev pub empty_vault : Vault
empty_vault = record { records = []; audit = [] }
