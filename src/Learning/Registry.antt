-- ===== src/Learning/Registry.antt =====
-- `CandidateRegistry` of agent-platform/learning/registry.py, `Candidate` of candidate.py,
-- `rollback` of rollback.py and `submit_candidate` of submit.py. A table is the list of its rows,
-- and SQLite's primary keys hold because a row is inserted only where a query found none.
pub mod Tables
pub mod Rollback
pub mod History
use cortxt.Prelude.{
  String, Bool, true, false, ◌&&◌, ◌||◌, not, Option, none, some, List, [], ◌∷◌, ◌==◌, contains,
  is_blank, if◌then◌else◌,
}
use cortxt.Value.{Value, Fields, obj}
use cortxt.Platform.{Platform}

-- (type, name, version)
pub record Key : Type 0 where
  pub type : String
  pub name : String
  pub version : String

-- what `json.loads(json.dumps(payload))` left of the payload
pub record Candidate (F : Type 0) : Type 0 where
  pub key : Key
  pub payload : Fields F
  pub status : String
  pub proposed_at : Option String
  pub promoted_by : Option String
  pub promoted_at : Option String
  pub rolled_back_at : Option String

-- a row of `candidates`
pub record Row : Type 0 where
  pub key : Key
  pub manifest_hash : String
  pub status : String
  pub payload_json : String
  pub proposed_at : Option String
  pub promoted_by : Option String
  pub promoted_at : Option String
  pub rolled_back_at : Option String

-- a row of `active_candidates`
pub record Active : Type 0 where
  pub type : String
  pub name : String
  pub active_version : Option String
  pub promoted_from : Option String

pub record Registry : Type 0 where
  pub candidates : List Row
  pub active : List Active

unfoldable pub same_key : Key → Key → Bool
same_key a b = a.type == b.type && a.name == b.name && a.version == b.version

-- `WHERE type=? AND name=? AND version=?`
unfoldable pub find_row : Key → List Row → Option Row
find_row key [] = none
find_row key (r ∷ rows) = if same_key r.key key then some r else find_row key rows

unfoldable pub update_rows : Key → (Row → Row) → List Row → List Row
update_rows key f [] = []
update_rows key f (r ∷ rows) =
    let rest = update_rows key f rows in if same_key r.key key then f r ∷ rest else r ∷ rest

abbrev pub is_for : String → String → Active → Bool
is_for type name a = a.type == type && a.name == name

unfoldable pub find_active : String → String → List Active → Option Active
find_active type name [] = none
find_active type name (a ∷ rows) = if is_for type name a then some a else find_active type name rows

-- `INSERT ... ON CONFLICT(type,name) DO UPDATE`
unfoldable pub put_active : Active → List Active → List Active
put_active new [] = new ∷ []
put_active new (a ∷ rows) =
    if is_for new.type new.name a then new ∷ rows else a ∷ put_active new rows

-- `UPDATE active_candidates ... WHERE type=? AND name=?`
unfoldable pub update_active : Active → List Active → List Active
update_active new [] = []
update_active new (a ∷ rows) =
    if is_for new.type new.name a then new ∷ rows else a ∷ update_active new rows

-- `get_active`
unfoldable pub get_active : String → String → Registry → Option String
unfolding find_active
get_active type name reg = elim (find_active type name reg.active) [
  | none ↦ none
  | some a ↦ a.active_version
]

-- `promoted_from`
unfoldable pub promoted_from : String → String → Registry → Option String
unfolding find_active
promoted_from type name reg = elim (find_active type name reg.active) [
  | none ↦ none
  | some a ↦ a.promoted_from
]

abbrev pub promote_row : String → Row → Row
promote_row now r = record r { status = "promoted"; promoted_at = some now }

abbrev pub roll_back_row : String → Row → Row
roll_back_row now r = record r { status = "rolled_back"; rolled_back_at = some now }

-- `set_active`; `none` is ValueError
unfoldable pub set_active : Key → String → Registry → Option Registry
unfolding find_row update_rows put_active get_active
set_active key now reg = elim (find_row key reg.candidates) [
  | none ↦ none
  | some r ↦ some (record {
    candidates = update_rows key (promote_row now) reg.candidates;
    active =
        put_active
          (record {
            type = key.type;
            name = key.name;
            active_version = some key.version;
            promoted_from = get_active key.type key.name reg;
          })
          reg.active;
  })
]

-- `apply_rollback`
unfoldable pub apply_rollback : String → String → String → String → String → Registry → Registry
unfolding update_rows update_active
apply_rollback type name previous current now reg = record {
  candidates =
      update_rows (record { type = type; name = name; version = current }) (roll_back_row now)
        reg.candidates;
  active =
      update_active
        (record { type = type; name = name; active_version = some previous; promoted_from = none })
        reg.active;
}

-- The results of `rollback`: ValueError, None or the version.
pub data Restored : Type 0 where
  nothing_active : Restored
  nothing_previous : Restored
  restored : String → Restored

-- `rollback`
unfoldable pub rollback : String → String → String → Registry → Restored × Registry
unfolding get_active promoted_from
rollback type name now reg = elim (get_active type name reg) [
  | none ↦ (nothing_active, reg)
  | some current ↦ elim (promoted_from type name reg) [
    | none ↦ (nothing_previous, reg)
    | some previous ↦ (restored previous, apply_rollback type name previous current now reg)
  ]
]

module _ (p : Platform) where
  open p use {Float}

  -- `_payload_hash`
  unfoldable pub payload_hash : Fields Float → String
  payload_hash payload = p.sha256 (p.dumps_text payload)

  abbrev row_of : Candidate Float → Row
  row_of c = record {
    key = c.key;
    manifest_hash = payload_hash c.payload;
    status = c.status;
    payload_json = p.dumps_text c.payload;
    proposed_at = c.proposed_at;
    promoted_by = c.promoted_by;
    promoted_at = c.promoted_at;
    rolled_back_at = c.rolled_back_at;
  }

  -- `add`; `none` is ValueError
  unfoldable pub add : Candidate Float → Registry → Option Registry
  unfolding find_row payload_hash
  add c reg = elim (find_row c.key reg.candidates) [
    | none ↦ some (record reg { candidates = row_of c ∷ reg.candidates })
    | some r ↦ if r.manifest_hash == payload_hash c.payload then some reg else none
  ]

  -- `_row_to_candidate`; `none` is an exception
  unfoldable pub row_to_candidate : Row → Option (Candidate Float)
  unfolding payload_hash
  row_to_candidate r = elim (p.loads r.payload_json) [
    | some (obj payload) ↦
        if payload_hash payload == r.manifest_hash
        then some (record {
          key = r.key;
          payload = payload;
          status = r.status;
          proposed_at = r.proposed_at;
          promoted_by = r.promoted_by;
          promoted_at = r.promoted_at;
          rolled_back_at = r.rolled_back_at;
        })
        else none
    | v ↦ none
  ]

  abbrev pub known_types : List String
  known_types = "policy" ∷ "skill" ∷ "tool" ∷ []

  -- `submit_candidate` without the classification of its evidence; `none` is ValueError
  unfoldable pub submit_candidate :
      Key → Fields Float → String → String → Registry → Option Registry
  unfolding add is_blank
  submit_candidate key payload provenance now reg =
      if not (contains key.type known_types) || is_blank provenance
      then none
      else add
          (record {
            key = key;
            payload = payload;
            status = "eval_pending";
            proposed_at = some now;
            promoted_by = none;
            promoted_at = none;
            rolled_back_at = none;
          })
          reg
