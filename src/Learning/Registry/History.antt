-- ===== src/Learning/Registry/History.antt =====
-- What no sequence of operations on the candidate registry changes.
use cortxt.Prelude.{
  String, ◌≡◌, ◌≢◌, ◌⊎◌, refl, sym, ap, ◌∙◌, Option, none, some, List, [], ◌∷◌, arith, Option-cases,
  Bool-cases, inl, inr, if◌then◌else◌,
}
use cortxt.Platform.{Platform}
use cortxt.Learning.Registry.{
  Key, Row, Candidate, Registry, same_key, find_row, update_rows, promote_row, roll_back_row,
  get_active, promoted_from, set_active, apply_rollback, rollback, add,
}
use cortxt.Learning.Registry.Tables.{same_key-true, find_row-update_rows}

some-none : (r : Row) → some r ≢ none
some-none r e = ground arith

module _ (p : Platform) where
  open p use {Float}

  -- What is done to a registry, with the time where one is read.
  pub data Action : Type 0 where
    adding : Candidate Float → Action
    activating : Key → String → Action
    rolling_back : String → String → String → Action

  -- an operation that raises leaves the registry as it was
  abbrev or_same : Registry → Option Registry → Registry
  or_same reg none = reg
  or_same reg (some reg') = reg'

  unfoldable pub apply : Action → Registry → Registry
  apply (adding c) reg = or_same reg (add p c reg)
  apply (activating key now) reg = or_same reg (set_active key now reg)
  apply (rolling_back type name now) reg = (rollback type name now reg).1

  unfoldable pub apply_all : List Action → Registry → Registry
  apply_all [] reg = reg
  apply_all (a ∷ actions) reg = apply_all actions (apply a reg)

  -- The registry has the manifest of a key.
  pub record HasManifest (key : Key) (hash payload : String) (reg : Registry) : Type 0 where
    pub row : Row
    pub found : find_row key reg.candidates ≡ some row
    pub same_hash : row.manifest_hash ≡ hash
    pub same_payload : row.payload_json ≡ payload

  add-HasManifest :
      (key : Key) (hash payload : String) (c : Candidate Float) (reg : Registry)
      → HasManifest key hash payload reg
      → HasManifest key hash payload (or_same reg (add p c reg))
  unfolding add find_row
  add-HasManifest key hash payload c reg h = record {
    row = h.row;
    found = kept;
    same_hash = h.same_hash;
    same_payload = h.same_payload;
  }
    where
      taken : c.key ≡ key → find_row c.key reg.candidates ≢ none
      taken e n = some-none h.row (sym h.found ∙ (ap (λ k. find_row k reg.candidates) (sym e) ∙ n))

      kept : find_row key (or_same reg (add p c reg)).candidates ≡ some h.row
      kept = elim (Option-cases (find_row c.key reg.candidates)) [
        | inl new ↦ elim (Bool-cases (same_key c.key key)) [
          | inl same ↦ absurd (taken (same_key-true c.key key same) new)
          | inr other ↦ ground (arith, h.found)
        ]
        | inr (r, known) ↦ ground (arith, h.found)
      ]

  updated :
      (key k : Key) (hash payload : String) (f : Row → Row) (reg reg' : Registry)
      → ((q : Row)
          → ((f q).key ≡ q.key)
            × ((f q).manifest_hash ≡ q.manifest_hash)
            × ((f q).payload_json ≡ q.payload_json))
      → reg'.candidates ≡ update_rows k f reg.candidates
      → HasManifest key hash payload reg
      → HasManifest key hash payload reg'
  updated key k hash payload f reg reg' keeps e h = elim (Bool-cases (same_key h.row.key k)) [
    | inl same ↦ record {
      row = f h.row;
      found = at ∙ rw same refl;
      same_hash = (keeps h.row).1 ∙ h.same_hash;
      same_payload = (keeps h.row).2 ∙ h.same_payload;
    }
    | inr other ↦ record {
      row = h.row;
      found = at ∙ rw other refl;
      same_hash = h.same_hash;
      same_payload = h.same_payload;
    }
  ]
    where
      at : find_row key reg'.candidates ≡ some (if same_key h.row.key k then f h.row else h.row)
      at =
          ap (find_row key) e
          ∙ find_row-update_rows key k f reg.candidates h.row (λ q. (keeps q).0) h.found

  set_active-candidates :
      (k : Key) (now : String) (reg : Registry)
      → ((or_same reg (set_active k now reg)).candidates ≡ reg.candidates)
        ⊎ ((or_same reg (set_active k now reg)).candidates
            ≡ update_rows k (promote_row now) reg.candidates)
  unfolding set_active
  set_active-candidates k now reg = elim (Option-cases (find_row k reg.candidates)) [
    | inl n ↦ inl (ground arith)
    | inr (r, found) ↦ inr (ground arith)
  ]

  same_candidates :
      (key : Key) (hash payload : String) (reg reg' : Registry)
      → reg'.candidates ≡ reg.candidates
      → HasManifest key hash payload reg
      → HasManifest key hash payload reg'
  same_candidates key hash payload reg reg' e h = record {
    row = h.row;
    found = ap (find_row key) e ∙ h.found;
    same_hash = h.same_hash;
    same_payload = h.same_payload;
  }

  rollback-candidates :
      (type name now : String) (reg : Registry)
      → ((rollback type name now reg).1.candidates ≡ reg.candidates)
        ⊎ ((k : Key) × ((rollback type name now reg).1.candidates
              ≡ update_rows k (roll_back_row now) reg.candidates))
  unfolding rollback apply_rollback
  rollback-candidates type name now reg = elim (Option-cases (get_active type name reg)) [
    | inl n ↦ inl (ground arith)
    | inr (current, c) ↦ elim (Option-cases (promoted_from type name reg)) [
      | inl n ↦ inl (ground arith)
      | inr (previous, f) ↦
          inr (record { type = type; name = name; version = current }, ground arith)
    ]
  ]

  apply-HasManifest :
      (key : Key) (hash payload : String) (a : Action) (reg : Registry)
      → HasManifest key hash payload reg
      → HasManifest key hash payload (apply a reg)
  unfolding apply
  apply-HasManifest key hash payload (adding c) reg h = add-HasManifest key hash payload c reg h
  apply-HasManifest key hash payload (activating k now) reg h =
      elim (set_active-candidates k now reg) [
        | inl same ↦ same_candidates key hash payload reg _ same h
        | inr e ↦ updated key k hash payload (promote_row now) reg _ (λ q. (refl, refl, refl)) e h
      ]
  apply-HasManifest key hash payload (rolling_back type name now) reg h =
      elim (rollback-candidates type name now reg) [
        | inl same ↦ same_candidates key hash payload reg _ same h
        | inr (k, e) ↦
            updated key k hash payload (roll_back_row now) reg _ (λ q. (refl, refl, refl)) e h
      ]

  -- The manifest that is registered under a key stays the same over any additions, activations
  -- and rollbacks, whatever they are.
  pub manifest_forever :
      (key : Key) (hash payload : String) (actions : List Action) (reg : Registry)
      → HasManifest key hash payload reg
      → HasManifest key hash payload (apply_all actions reg)
  unfolding apply_all
  manifest_forever key hash payload [] reg h = h
  manifest_forever key hash payload (a ∷ actions) reg h =
      manifest_forever key hash payload actions (apply a reg)
        (apply-HasManifest key hash payload a reg h)
