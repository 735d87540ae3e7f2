-- ===== src/Mandate/Revocation.antt =====
-- `KeyRevocationStore` of agent-platform/cortxt_mcp/revocation_store.py: a snapshot file that an
-- operator publishes, read again after an interval, and trusted for a bounded time.
pub mod History
pub mod Untrusted
use cortxt.Prelude.{
  ℕ, ℤ, pos, negsuc, ◌+◌, String, Bool, true, false, ◌&&◌, ◌||◌, not, Option, none, some, List, [],
  ◌∷◌, ltb, leb, eqb, ◌==◌, is_some, if◌then◌else◌,
}
use cortxt.Value.{Value, Items, Fields, int, arr, obj, nil, cons, get, same_keys, nonempty_str}
use cortxt.Platform.{Platform, Time}
use cortxt.Mandate.Timestamp.{parse_utc}

-- `(granted_by, kid)`
abbrev pub Identity : Type 0
Identity = String × String

abbrev pub same_identity : Identity → Identity → Bool
same_identity (a, b) (c, d) = a == c && b == d

abbrev pub Entries : Type 0
Entries = List (Identity × Time)

-- `entries.get(identity)`
unfoldable pub find : Identity → Entries → Option Time
find i [] = none
find i ((j, t) ∷ entries) = if same_identity j i then some t else find i entries

-- The configuration; intervals are whole microseconds.
pub record Config : Type 0 where
  pub refresh_interval : ℕ
  pub freshness : ℕ

-- The attributes; `generation` is not negative once it is set.
pub record Store : Type 0 where
  pub generation : Option ℕ
  pub entries : Entries
  pub last_valid_at : Option Time
  pub last_check_at : Option Time
  pub metadata : Option (ℕ × ℕ)
  pub invalid_newer : Bool

-- What the file system shows when the file is read: `st_mtime_ns` and `st_size`, and the parsed
-- content; `none` where `stat`, the reading or `json.loads` raises.
pub record Snapshot (F : Type 0) : Type 0 where
  pub stat : Option (ℕ × ℕ)
  pub content : Option (Value F)

-- `identity in entries and entries[identity] != revoked_at`
abbrev conflicts : Option Time → Time → Bool
conflicts none t = false
conflicts (some old) t = not (eqb old t)

-- every old entry is in the new ones, unchanged
unfoldable pub retains : Entries → Entries → Bool
unfolding find
retains [] entries = true
retains ((i, t) ∷ old) entries =
    elim (find i entries) [ none ↦ false | some u ↦ eqb u t ] && retains old entries

module _ (p : Platform) where
  open p use {Float}

  abbrev identity_of : Fields Float → Option Identity
  unfolding get
  identity_of record_fields = elim (nonempty_str (get record_fields "granted_by")) [
    | none ↦ none
    | some granted_by ↦ elim (nonempty_str (get record_fields "kid")) [
      | none ↦ none
      | some kid ↦ some (granted_by, kid)
    ]
  ]

  -- one record of the snapshot, added to the entries so far; `none` is ValueError
  unfoldable pub add_record : Value Float → Entries → Option Entries
  unfolding identity_of find
  add_record (obj fields) entries = elim (identity_of fields) [
    | none ↦ none
    | some identity ↦ elim (parse_utc p (get fields "revoked_at")) [
      | none ↦ none
      | some t ↦
          if conflicts (find identity entries) t
          then none
          else if is_some (find identity entries)
          then some entries
          else some ((identity, t) ∷ entries)
    ]
  ]
  add_record v entries = none

  unfoldable pub add_records : Items Float → Entries → Option Entries
  add_records nil entries = some entries
  add_records (cons v records) entries = elim (add_record v entries) [
    | none ↦ none
    | some entries' ↦ add_records records entries'
  ]

  abbrev records_of : Value Float → Option Entries
  unfolding add_records
  records_of (arr records) = add_records records []
  records_of v = none

  abbrev generation_of : Value Float → Option ℕ
  generation_of (int (pos n)) = some n
  generation_of v = none

  -- `_validate`; `none` is ValueError
  unfoldable pub validate : Value Float → Option (ℕ × Entries)
  unfolding same_keys get records_of
  validate (obj raw) =
      if same_keys raw ("generation" ∷ "revocations" ∷ [])
      then elim (generation_of (get raw "generation")) [
        | none ↦ none
        | some g ↦ elim (records_of (get raw "revocations")) [
          | none ↦ none
          | some entries ↦ some (g, entries)
        ]
      ]
      else none
  validate v = none

  abbrev validated : Option (Value Float) → Option (ℕ × Entries)
  validated none = none
  validated (some raw) = validate raw

  -- `now - last_check_at < refresh_interval`, where there was a check
  abbrev too_soon : Config → Time → Option Time → Bool
  too_soon config now none = false
  too_soon config now (some t) = ltb now (t + config.refresh_interval)

  abbrev rolls_back : Option ℕ → ℕ → Bool
  rolls_back none g = false
  rolls_back (some old) g = ltb g old

  abbrev same_metadata : Option (ℕ × ℕ) → ℕ × ℕ → Bool
  same_metadata none m = false
  same_metadata (some (a, b)) (c, d) = eqb a c && eqb b d

  abbrev invalid : Store → Store
  invalid s = record s { invalid_newer = true }

  -- the file was read and is valid in itself
  unfoldable pub install : Time → ℕ × ℕ → ℕ × Entries → Store → Store
  unfolding retains
  install now m (g, entries) s =
      if rolls_back s.generation g || not (retains s.entries entries) then invalid s else record s {
        generation = some g;
        entries = entries;
        metadata = some m;
        last_valid_at = some now;
        invalid_newer = false;
      }

  -- the `try` block of `_refresh`
  unfoldable pub reload : Bool → Time → Snapshot Float → Store → Store
  reload force now file s = elim file.stat [
    | none ↦ invalid s
    | some m ↦
        if not force && same_metadata s.metadata m then s else elim (validated file.content) [
          | none ↦ invalid s
          | some content ↦ install now m content s
        ]
  ]

  unfoldable pub refresh : Config → Bool → Time → Snapshot Float → Store → Store
  refresh config force now file s =
      if not force && too_soon config now s.last_check_at
      then s
      else reload force now file (record s { last_check_at = some now })

  -- `__init__`
  unfoldable pub open_store : Config → Time → Snapshot Float → Store
  open_store config now file = refresh config true now file (record {
    generation = none;
    entries = [];
    last_valid_at = none;
    last_check_at = none;
    metadata = none;
    invalid_newer = false;
  })

  -- `configured`
  unfoldable pub configured : Store → Bool
  configured s = is_some s.last_valid_at && not s.invalid_newer

  -- `now - last_valid_at > freshness`, or there is no valid snapshot
  abbrev pub is_stale : Config → Time → Option Time → Bool
  is_stale config now none = true
  is_stale config now (some t) = ltb (t + config.freshness) now

  abbrev pub is_due : Option Time → Time → Bool
  is_due none at = false
  is_due (some t) at = leb t at

  -- the answer that `is_revoked` gives from the attributes
  unfoldable pub answer : Config → Identity → Time → Time → Store → Bool
  unfolding find
  answer config identity at now s =
      is_stale config now s.last_valid_at || s.invalid_newer || is_due (find identity s.entries) at

  -- `is_revoked`: `refreshed` and `now` are the two readings of the clock
  unfoldable pub is_revoked :
      Config → Snapshot Float → Time → Time → Identity → Time → Store → Bool × Store
  is_revoked config file refreshed now identity at s =
      let s' = refresh config false refreshed file s in (answer config identity at now s', s')

  -- one question: the file and the clock as they are then
  pub record Query : Type 0 where
    pub file : Snapshot Float
    pub refreshed : Time
    pub now : Time
    pub identity : Identity
    pub at : Time

  abbrev pub ask : Config → Query → Store → Bool × Store
  ask config q s = is_revoked config q.file q.refreshed q.now q.identity q.at s

  -- the attributes after any questions
  pub after : Config → List Query → Store → Store
  after config [] s = s
  after config (q ∷ queries) s = after config queries (ask config q s).1
