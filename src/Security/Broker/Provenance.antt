-- ===== src/Security/Broker/Provenance.antt =====
-- What `inject` of agent-platform/security/credential_broker.py hands out, against the stores before it.
use cortxt.Prelude.{
  String, Bool, true, false, not, ◌≡◌, ◌↔◌, refl, sym, ap, ◌∙◌, Option, none, some, List, [], ◌∷◌,
  ◌==◌, All, arith, Bool-cases, inl, inr, if◌then◌else◌,
}
use mathlib.Core.Option.{some-injective}
use cortxt.Dict.{lookup, insert, lookup-insert}
use cortxt.Security.Broker.{
  Vault, Answer, stored, injected, not_operator_confirmed, credential_not_found, integrity_error,
  invalid_credential_id, raised, World, matches_id, audit, write_record, store, serve, read_record,
  inject, empty_vault,
}

-- A call of the broker; a store names its plaintext, which `encrypt` of its world was given.
pub data Call : Type 0 where
  storing : World → String → String → Bool → Call
  injecting : World → String → String → String → Call

-- What one call and what all calls leave of the vault.
unfoldable pub step : (String → String) → (String → Option String) → Call → Vault → Vault
step file_of decrypt (storing w id plaintext confirmed) vault =
    (store file_of w id confirmed vault).1
step file_of decrypt (injecting w id runtime purpose) vault =
    (inject file_of decrypt w id runtime purpose vault).1

unfoldable pub run : (String → String) → (String → Option String) → List Call → Vault → Vault
run file_of decrypt [] vault = vault
run file_of decrypt (call ∷ calls) vault =
    run file_of decrypt calls (step file_of decrypt call vault)

-- A store that the operator confirmed, for an id that may be a file name, and that was written.
abbrev pub takes_effect : World → String → Bool → Bool
takes_effect w id confirmed =
    if confirmed
    then if matches_id id
      then elim w.encrypted [ none ↦ false | some c ↦ w.record_written ]
      else false
    else false

-- The plaintext of the last store, to the file of an id, that took effect, from `held` on.
abbrev pub held_after : (String → String) → String → Option String → Call → Option String
held_after file_of id held (storing w other plaintext confirmed) =
    if takes_effect w other confirmed
    then if file_of other == file_of id then some plaintext else held
    else held
held_after file_of id held (injecting w other runtime purpose) = held

unfoldable pub last_held : (String → String) → String → Option String → List Call → Option String
last_held file_of id held [] = held
last_held file_of id held (call ∷ calls) =
    last_held file_of id (held_after file_of id held call) calls

-- `decrypt` gives back the plaintext of what `encrypt` returned.
abbrev pub IsInverse : (String → Option String) → Call → Type 0
IsInverse decrypt (storing w id plaintext confirmed) =
    (c : String) → w.encrypted ≡ some c → decrypt c ≡ some plaintext
IsInverse decrypt (injecting w id runtime purpose) = Unit

-- the plaintext under a record
abbrev opened : (String → Option String) → Option String → Option String
opened decrypt none = none
opened decrypt (some c) = decrypt c

audit-records :
    (w : World) (action id result : String) (runtime purpose : Option String) (answer : Answer)
    (vault : Vault)
    → (audit w action id runtime purpose result answer vault).1.records ≡ vault.records
unfolding audit
audit-records w action id result runtime purpose answer vault = elim (Bool-cases w.audit_written) [
  | inl written ↦ rw written refl
  | inr failed ↦ rw failed refl
]

serve-records :
    (w : World) (id runtime purpose : String) (o : Option String) (vault : Vault)
    → (serve w id runtime purpose o vault).1.records ≡ vault.records
unfolding serve
serve-records w id runtime purpose none vault =
    audit-records w "inject" id "error" (some runtime) (some purpose) integrity_error vault
serve-records w id runtime purpose (some t) vault =
    audit-records w "inject" id "ok" (some runtime) (some purpose) (injected t) vault

audit-answer :
    (w : World) (action id result : String) (runtime purpose : Option String) (answer : Answer)
    (vault : Vault)
    → w.audit_written ≡ true
    → (audit w action id runtime purpose result answer vault).0 ≡ answer
unfolding audit
audit-answer w action id result runtime purpose answer vault h = rw h refl

injected-injective : (s t : String) → injected s ≡ injected t → s ≡ t
injected-injective s t h = ground arith

module _ (file_of : String → String) (decrypt : String → Option String) where
  read_record-records :
      (w : World) (id runtime purpose : String) (o : Option String) (vault : Vault)
      → (read_record decrypt w id runtime purpose o vault).1.records ≡ vault.records
  unfolding read_record
  read_record-records w id runtime purpose none vault =
      audit-records w "inject" id "error" (some runtime) (some purpose) credential_not_found vault
  read_record-records w id runtime purpose (some c) vault =
      serve-records w id runtime purpose (if w.record_read then decrypt c else none) vault

  inject-records :
      (w : World) (id runtime purpose : String) (vault : Vault)
      → (inject file_of decrypt w id runtime purpose vault).1.records ≡ vault.records
  unfolding inject
  inject-records w id runtime purpose vault = check (matches_id id)
    where
      check :
          (b : Bool)
          → (if not b
              then audit w "inject" id
                  (some runtime)
                  (some purpose)
                  "error"
                  invalid_credential_id
                  vault
              else read_record decrypt w id runtime purpose
                  (lookup (file_of id) vault.records)
                  vault).1.records
            ≡ vault.records
      check true =
          read_record-records w id runtime purpose (lookup (file_of id) vault.records) vault
      check false =
          audit-records w "inject" id "error" (some runtime) (some purpose) invalid_credential_id
            vault

  -- The plaintext that the vault holds under an id.
  abbrev held : String → Vault → Option String
  held id vault = opened decrypt (lookup (file_of id) vault.records)

  held-audit :
      (name : String) (w : World) (action id result : String) (runtime purpose : Option String)
      (answer : Answer) (vault : Vault)
      → held name (audit w action id runtime purpose result answer vault).1 ≡ held name vault
  held-audit name w action id result runtime purpose answer vault =
      ap (λ r. opened decrypt (lookup (file_of name) r))
        (audit-records w action id result runtime purpose answer vault)

  held-write_record :
      (id other plaintext : String) (w : World) (o : Option String) (vault : Vault)
      → ((c : String) → o ≡ some c → decrypt c ≡ some plaintext)
      → held id (write_record file_of w other o vault).1 ≡ (
          if elim o [ none ↦ false | some c ↦ w.record_written ]
          then if file_of other == file_of id then some plaintext else held id vault
          else held id vault)
  unfolding write_record
  held-write_record id other plaintext w none vault inverse = refl
  held-write_record id other plaintext w (some c) vault inverse = written w.record_written
    where
      found :
          (b : Bool)
          → opened decrypt (if b then some c else lookup (file_of id) vault.records)
            ≡ (if b then some plaintext else held id vault)
      found true = inverse c refl
      found false = refl

      written :
          (b : Bool)
          → held id
              (if b
                then audit w "store" other none none "ok" stored
                    (record vault { records = insert (file_of other) c vault.records })
                else (raised, vault)).1
            ≡ (if b
                then if file_of other == file_of id then some plaintext else held id vault
                else held id vault)
      written true =
          held-audit id w "store" other "ok" none none stored
            (record vault { records = insert (file_of other) c vault.records })
          ∙ ap (opened decrypt) (lookup-insert (file_of other) (file_of id) c vault.records)
          ∙ found (file_of other == file_of id)
      written false = refl

  held-store :
      (id other plaintext : String) (w : World) (confirmed : Bool) (vault : Vault)
      → IsInverse decrypt (storing w other plaintext confirmed)
      → held id (store file_of w other confirmed vault).1
        ≡ held_after file_of id (held id vault) (storing w other plaintext confirmed)
  unfolding store
  held-store id other plaintext w false vault inverse =
      held-audit id w "store" other "denied" none none not_operator_confirmed vault
  held-store id other plaintext w true vault inverse = check (matches_id other)
    where
      check :
          (b : Bool)
          → held id
              (if not b
                then audit w "store" other none none "error" invalid_credential_id vault
                else write_record file_of w other w.encrypted vault).1
            ≡ (if if b then elim w.encrypted [ none ↦ false | some c ↦ w.record_written ] else false
                then if file_of other == file_of id then some plaintext else held id vault
                else held id vault)
      check true = held-write_record id other plaintext w w.encrypted vault inverse
      check false = held-audit id w "store" other "error" none none invalid_credential_id vault

  held-run :
      (id : String) (calls : List Call) (vault : Vault)
      → All (IsInverse decrypt) calls
      → held id (run file_of decrypt calls vault) ≡ last_held file_of id (held id vault) calls
  unfolding run step last_held
  held-run id [] vault h = refl
  held-run id (storing w other plaintext confirmed ∷ calls) vault h =
      held-run id calls (store file_of w other confirmed vault).1 h.1
      ∙ ap (λ o. last_held file_of id o calls) (held-store id other plaintext w confirmed vault h.0)
  held-run id (injecting w other runtime purpose ∷ calls) vault h =
      held-run id calls (inject file_of decrypt w other runtime purpose vault).1 h.1
      ∙ ap (λ r. last_held file_of id (opened decrypt (lookup (file_of id) r)) calls)
          (inject-records w other runtime purpose vault)

  serve-answer :
      (w : World) (id runtime purpose text : String) (o : Option String) (vault : Vault)
      → w.audit_written ≡ true
      → ((serve w id runtime purpose o vault).0 ≡ injected text) ↔ (o ≡ some text)
  unfolding serve
  serve-answer w id runtime purpose text none vault h =
      let e =
        audit-answer w "inject" id "error" (some runtime) (some purpose) integrity_error vault h in
      ((λ k. absurd (ground (arith, sym e ∙ k))), (λ k. absurd (ground arith)))
  serve-answer w id runtime purpose text (some t) vault h =
      let e = audit-answer w "inject" id "ok" (some runtime) (some purpose) (injected t) vault h in
      (
        (λ k. ap (λ s. some s) (injected-injective t text (sym e ∙ k))),
        (λ k. e ∙ ap (λ s. injected s) (some-injective _ _ k)),
      )

  read_record-answer :
      (w : World) (id runtime purpose text : String) (o : Option String) (vault : Vault)
      → w.record_read ≡ true
      → w.audit_written ≡ true
      → ((read_record decrypt w id runtime purpose o vault).0 ≡ injected text)
        ↔ (opened decrypt o ≡ some text)
  unfolding read_record
  read_record-answer w id runtime purpose text none vault readable h =
      let e =
        audit-answer w "inject" id "error" (some runtime) (some purpose) credential_not_found vault
          h in
      ((λ k. absurd (ground (arith, sym e ∙ k))), (λ k. absurd (ground arith)))
  read_record-answer w id runtime purpose text (some c) vault readable h =
      let same : (if w.record_read then decrypt c else none) ≡ decrypt c = rw readable refl in
      let (to, from) =
        serve-answer w id runtime purpose text (if w.record_read then decrypt c else none) vault
          h in
      ((λ k. sym same ∙ to k), (λ k. from (same ∙ k)))

  -- After any calls on an empty store, where each encryption that the store used is undone by
  -- `decrypt`, and where the record can be read and the log be written, a valid id gives out a text
  -- exactly when the last store that took effect, confirmed by the operator, among those to the file
  -- of the id's record had it. Which ids share a file is up to the file system: where it ignores
  -- case, ids that differ in case alone do.
  pub inject_lem :
      (w : World) (id runtime purpose text : String) (calls : List Call)
      → matches_id id ≡ true
      → w.record_read ≡ true
      → w.audit_written ≡ true
      → All (IsInverse decrypt) calls
      → ((inject file_of decrypt w id runtime purpose (run file_of decrypt calls empty_vault)).0
          ≡ injected text)
        ↔ (last_held file_of id none calls ≡ some text)
  unfolding inject lookup
  inject_lem w id runtime purpose text calls valid readable written inverse =
      let vault = run file_of decrypt calls empty_vault in
      let same : (inject file_of decrypt w id runtime purpose vault).0
          ≡ (read_record decrypt w id runtime purpose (lookup (file_of id) vault.records) vault).0 =
        rw valid refl in
      let (to, from) =
        read_record-answer w id runtime purpose text (lookup (file_of id) vault.records) vault
          readable written in
      let kept = held-run id calls empty_vault inverse in
      ((λ k. sym kept ∙ to (sym same ∙ k)), (λ k. same ∙ from (kept ∙ k)))
