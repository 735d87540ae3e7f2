-- ===== src/Session.antt =====
-- The session log of agent-platform/runtime/session_state.py: a chain of hashed events. A file is
-- missing, unreadable or holds a JSON value; a write succeeds, or an OSError leaves the old file.
pub mod Chain
pub mod Replaced
pub mod Valid
pub mod Log
pub mod Tamper
pub mod Examples
use cortxt.Prelude.{
  ℕ, zero, suc, ℤ, pos, negsuc, ltb_ℤ, ◌+◌, ◌-◌, String, Bool, true, false, ◌&&◌, ◌||◌, not, Option,
  none, some, List, [], ◌∷◌, ◌==◌, leb, eqb, codes, is_blank, length, all, if◌then◌else◌,
}
use cortxt.Value.{
  Value, Items, Fields, null, bool, int, float, str, arr, obj, nil, cons, end, field, get,
  same_keys,
}
use cortxt.Platform.{Platform}
use cortxt.Dict as Dict
use cortxt.Events.Validation.{same_value, item_count}

pub data Category : Type 0 where
  invalid_input integrity_error not_found sequence_conflict io_error : Category

-- SessionError with its category, or any other exception
pub data Outcome (A : Type 0) : Type 0 where
  ok : A → Outcome A
  session_error : Category → Outcome A
  raises : Outcome A

infixl 5 ◌>>=◌
unfoldable pub ◌>>=◌ : {A B : Type 0} → Outcome A → (A → Outcome B) → Outcome B
(ok a) >>= f = f a
(session_error c) >>= f = session_error c
raises >>= f = raises

abbrev is_lower : ℕ → Bool
is_lower c = leb b'a' c && leb c b'z'

abbrev is_digit : ℕ → Bool
is_digit c = leb b'0' c && leb c b'9'

abbrev in_class : ℕ → Bool
in_class c = is_lower c || is_digit c || eqb c b'_' || eqb c b'.' || eqb c b'-'

-- `EVENT_TYPE_RE.fullmatch`
unfoldable pub matches_event_type : List ℕ → Bool
matches_event_type [] = false
matches_event_type (c ∷ cs) = is_lower c && all in_class cs && leb (length cs) 63

abbrev is_hex : ℕ → Bool
is_hex c = is_digit c || leb b'a' c && leb c b'f'

-- `text` starts with `start` and has 32 hexadecimal digits after it
unfoldable pub prefixed : List ℕ → List ℕ → Bool
prefixed [] cs = all is_hex cs && eqb (length cs) 32
prefixed (a ∷ start) [] = false
prefixed (a ∷ start) (c ∷ cs) = eqb a c && prefixed start cs

-- `SESSION_ID_RE.fullmatch`
unfoldable pub matches_session_id : String → Bool
unfolding prefixed
matches_session_id s = prefixed (codes "session_") (codes s)

-- 64 times the digit 0
abbrev pub zero_hash : String
zero_hash = "0000000000000000000000000000000000000000000000000000000000000000"

abbrev pub event_fields : List String
event_fields = "sequence" ∷ "event_type" ∷ "payload" ∷ "previous_hash" ∷ "timestamp" ∷ "hash" ∷ []

abbrev pub session_fields : List String
session_fields = "schema_version" ∷ "session_id" ∷ "events" ∷ []

pub data File (F : Type 0) : Type 0 where
  unreadable : File F
  holds : Value F → File F

module _ (p : Platform) where
  open p use {Float}

  abbrev pub unsigned :
      Value Float → Value Float → Value Float → Value Float → Value Float → Fields Float
  unsigned sequence event_type payload previous_hash timestamp = field "sequence" sequence (
      field "event_type" event_type (
        field "payload" payload
          (field "previous_hash" previous_hash (field "timestamp" timestamp end))))

  abbrev pub signed :
      Value Float → Value Float → Value Float → Value Float → Value Float → String → Fields Float
  signed sequence event_type payload previous_hash timestamp hash = field "sequence" sequence (
      field "event_type" event_type (
        field "payload" payload (
          field "previous_hash" previous_hash
            (field "timestamp" timestamp (field "hash" (str hash) end)))))

  -- `sha256(canonical_json(d)).hexdigest()`
  unfoldable pub digest : Fields Float → Outcome String
  digest d = elim (p.canonical d) [ none ↦ raises | some text ↦ ok (p.sha256 text) ]

  -- `_event`; `now` is what `utc_now()` returns
  unfoldable pub event : ℤ → String → Fields Float → Value Float → String → Outcome (Value Float)
  event sequence event_type payload previous_hash now =
      if matches_event_type (codes event_type)
      then digest (unsigned (int sequence) (str event_type) (obj payload) previous_hash (str now))
        >>= (λ hash. ok (
            obj
              (signed (int sequence) (str event_type) (obj payload) previous_hash (str now) hash)))
      else session_error invalid_input

  -- `{k: event[k] for k in fields if k != "hash"}`
  abbrev pub unsigned_of : Fields Float → Fields Float
  unsigned_of d =
      unsigned (get d "sequence") (get d "event_type") (get d "payload") (get d "previous_hash")
        (get d "timestamp")

  -- the body of the loop of `_validate_chain`: the new `previous`
  unfoldable pub check_event : ℕ → Value Float → Value Float → Outcome (Value Float)
  check_event i previous (obj d) =
      if not (same_keys d event_fields)
      then session_error integrity_error
      else if not (same_value p (get d "sequence") (int (pos i)))
          || not (same_value p (get d "previous_hash") previous)
      then session_error integrity_error
      else digest (unsigned_of d) >>= (λ expected.
        if same_value p (get d "hash") (str expected)
        then ok (get d "hash")
        else session_error integrity_error)
  check_event i previous v = session_error integrity_error

  -- the loop
  unfoldable pub check_events : ℕ → Value Float → Items Float → Outcome (Value Float)
  check_events i previous nil = ok previous
  check_events i previous (cons e events) =
      check_event i previous e >>= (λ hash. check_events (suc i) hash events)

  -- what `enumerate` reads: a list, the keys of a dictionary, or the characters of a text
  abbrev keys_of : Fields Float → Items Float
  keys_of end = nil
  keys_of (field k v d) = cons (str k) (keys_of d)

  abbrev characters : String → Items Float
  characters String.[] = nil
  characters (String.◌∷◌ c s) = cons (str (String.◌∷◌ c String.[])) (characters s)

  abbrev pub iterate : Value Float → Outcome (Items Float)
  iterate (arr events) = ok events
  iterate (obj d) = ok (keys_of d)
  iterate (str s) = ok (characters s)
  iterate v = raises

  -- `_validate_chain`
  unfoldable pub validate_chain : Value Float → String → Outcome (Unit {0})
  unfolding check_events
  validate_chain (obj doc) session_id =
      if not (same_keys doc session_fields)
      then session_error integrity_error
      else if not (same_value p (get doc "schema_version") (int (pos 1)))
          || not (same_value p (get doc "session_id") (str session_id))
      then session_error integrity_error
      else iterate (get doc "events")
        >>= (λ events. check_events 0 (str zero_hash) events >>= (λ hash. ok tt))
  validate_chain v session_id = session_error integrity_error

  abbrev Disk : Type 0
  Disk = Dict.Dict (File Float)

  abbrev pub read_file : Option (File Float) → String → Outcome (Value Float)
  read_file none session_id = session_error not_found
  read_file (some unreadable) session_id = session_error integrity_error
  read_file (some (holds doc)) session_id = validate_chain doc session_id >>= (λ u. ok doc)

  -- `load`
  unfoldable pub load : Disk → String → Outcome (Value Float)
  load store session_id =
      if matches_session_id session_id
      then read_file (Dict.lookup session_id store) session_id
      else session_error invalid_input

  -- `_atomic_write` of a document, where `works` is whether there is no OSError
  unfoldable pub atomic_write : Bool → String → Fields Float → Disk → Outcome Disk
  atomic_write works session_id doc store = elim (p.canonical doc) [
    | none ↦ raises
    | some text ↦
        if works
        then ok (Dict.insert session_id (holds (obj doc)) store)
        else session_error io_error
  ]

  -- `{**doc, "events": events}`
  unfoldable pub put_events : Items Float → Fields Float → Fields Float
  put_events events end = end
  put_events events (field k v d) =
      if k == "events" then field k (arr events) d else field k v (put_events events d)

  unfoldable pub snoc : Items Float → Value Float → Items Float
  snoc nil e = cons e nil
  snoc (cons x xs) e = cons x (snoc xs e)

  -- `len(events) - 1`
  abbrev pub latest : ℕ → ℤ
  latest zero = negsuc 0
  latest (suc n) = pos n

  -- `doc["events"][-1]["hash"]` of a list
  abbrev pub last_hash : Items Float → Outcome (Value Float)
  last_hash nil = raises
  last_hash (cons (obj d) nil) = ok (get d "hash")
  last_hash (cons v nil) = raises
  last_hash (cons v (cons w events)) = last_hash (cons w events)

  abbrev size_of : Value Float → ℕ
  size_of (arr events) = item_count events
  size_of v = 0

  -- the document with one more event; only a list has `append`
  unfoldable pub extend : Fields Float → String → Fields Float → String → Outcome (Fields Float)
  extend doc event_type payload now = elim (get doc "events") [
    | arr events ↦ last_hash events >>= (λ previous.
        event (pos (item_count events)) event_type payload previous now
        >>= (λ e. ok (put_events (snoc events e) doc)))
    | v ↦ raises
  ]

  abbrev same_ℤ : ℤ → ℤ → Bool
  same_ℤ a b = not (ltb_ℤ a b) && not (ltb_ℤ b a)

  unfoldable pub append_loaded :
      Bool
      → Disk
      → String
      → ℤ
      → String
      → Fields Float
      → String
      → Value Float
      → Outcome (Fields Float × Disk)
  append_loaded works store session_id expected_sequence event_type payload now (obj doc) =
      if same_ℤ (latest (size_of (get doc "events"))) expected_sequence
      then extend doc event_type payload now
        >>= (λ doc'. atomic_write works session_id doc' store >>= (λ store'. ok (doc', store')))
      else session_error sequence_conflict
  append_loaded works store session_id expected_sequence event_type payload now v = raises

  -- `append`
  unfoldable pub append :
      Bool → Disk → String → ℤ → String → Fields Float → String → Outcome (Fields Float × Disk)
  append works store session_id expected_sequence event_type payload now =
      load store session_id
      >>= append_loaded works store session_id expected_sequence event_type payload now

  abbrev given : Fields Float → Fields Float
  given end = end
  given (field k null d) = given d
  given (field k v d) = field k v (given d)

  abbrev pub task_of : Value Float → Option String
  task_of (str s) = if is_blank s then none else some s
  task_of v = none

  abbrev pub created : String → Value Float → Fields Float
  created session_id e =
      field "schema_version" (int (pos 1))
        (field "session_id" (str session_id) (field "events" (arr (cons e nil)) end))

  -- `create`: `session_id` is the fresh one, and `optional` the keyword arguments in order
  unfoldable pub create :
      Bool → Disk → String → Value Float → Fields Float → String → Outcome (Fields Float × Disk)
  create works store session_id task_id optional now = elim (task_of task_id) [
    | none ↦ session_error invalid_input
    | some task ↦
        event (pos 0) "session.created" (field "task_id" (str task) (given optional))
          (str zero_hash) now
        >>= (λ e.
            if matches_session_id session_id
            then atomic_write works session_id (created session_id e) store
              >>= (λ store'. ok (created session_id e, store'))
            else session_error invalid_input)
  ]
