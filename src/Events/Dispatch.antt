-- ===== src/Events/Dispatch.antt =====
-- `dispatch_event` of agent-platform/events/dispatch.py and the look-up of schemas in
-- agent-platform/events/registry.py. The registry, the handlers and the store are arguments.
pub mod Once
pub mod Twice
use cortxt.Prelude.{
  ℕ, String, Bool, true, false, ◌&&◌, not, Option, none, some, List, [], ◌∷◌, if◌then◌else◌,
}
use cortxt.Value.{Value, Fields, obj}
use cortxt.Platform.{Platform, Time}
use cortxt.Dict.{Dict, lookup}
use cortxt.Events.Schema.{Schema}
use cortxt.Events.Validation.{validate_data}
use cortxt.Events.Envelope.{Envelope, validate_envelope}
use cortxt.Events.Signing.{verify_signature}
use cortxt.Events.Idempotency.{
  Entry, Status, processed, replayed_within_window, accepted_outside_window, replayed_hash_mismatch,
  record_event,
}

-- The `envelope` argument: absent, a text or bytes, or a value.
pub data Input (F : Type 0) : Type 0 where
  absent : Input F
  raw : String → Input F
  document : Value F → Input F

-- The dictionary that is returned, with the kind of an error and without its message.
pub data Response (R : Type 0) : Type 0 where
  signature_invalid validation_error unknown_type no_handler handler_failed : Response R
  hash_mismatch replayed : Response R
  succeeded : R → Response R

module _ (p : Platform) where
  open p use {Float}

  -- The arguments of one call; `store` is `none` where no idempotency store is given.
  pub record Request : Type 0 where
    pub envelope : Input Float
    pub raw_payload : Option String
    pub secret : Option String
    pub signature : Option String
    pub scheme : String
    pub now : Time

  abbrev raw_of : Input Float → Option String
  raw_of (raw s) = some s
  raw_of other = none

  abbrev or_else : Option String → Option String → Option String
  or_else none o = o
  or_else (some s) o = some s

  abbrev pub verified : Request → String → Option String → Bool
  unfolding verify_signature
  verified q secret none = false
  verified q secret (some payload) = verify_signature p payload secret q.signature q.scheme

  -- step 1: without a secret nothing is checked
  unfoldable pub signature_ok : Request → Bool
  signature_ok q = elim q.secret [
    | none ↦ true
    | some secret ↦ verified q secret (or_else q.raw_payload (raw_of q.envelope))
  ]

  abbrev parsed : Option String → Option (Value Float)
  parsed none = none
  parsed (some s) = p.loads s

  -- step 2: the document, if there is one that can be read
  unfoldable pub resolve : Request → Option (Value Float)
  resolve q = elim q.envelope [
    | absent ↦ parsed q.raw_payload
    | raw s ↦ p.loads s
    | document v ↦ some v
  ]

  abbrev document_hash : Value Float → String
  document_hash (obj d) = p.sha256 (p.dumps d)
  document_hash v = ""

  -- `compute_payload_hash` of what the call was given
  unfoldable pub payload_hash : Request → Value Float → String
  payload_hash q doc = elim (or_else q.raw_payload (raw_of q.envelope)) [
    | some s ↦ p.sha256 s
    | none ↦ document_hash doc
  ]

module _ (p : Platform) (R : Type 0) where
  open p use {Float}

  -- A handler returns or raises.
  abbrev pub Handlers : Type 0
  Handlers = Dict (Envelope Float → Option R)

  pub record Setup : Type 0 where
    pub registry : Dict (Schema Float)
    pub handlers : Handlers
    pub window : ℕ

module _ (p : Platform) {R : Type 0} where
  open p use {Float}

  -- step 5
  unfoldable pub route : Setup p R → Envelope Float → Response R
  route setup e = elim (lookup e.type setup.handlers) [
    | none ↦ no_handler
    | some handler ↦ elim (handler e) [ none ↦ handler_failed | some r ↦ succeeded r ]
  ]

  -- step 4, then step 5 for what is new
  unfoldable pub deliver :
      Setup p R
      → Request p
      → Value Float
      → Envelope Float
      → Option (Dict Entry)
      → Response R × Option (Dict Entry)
  deliver setup q doc e none = (route setup e, none)
  deliver setup q doc e (some store) =
      let (status, store') = record_event setup.window e.id (payload_hash p q doc) q.now store in
      elim status [
        | processed ↦ (route setup e, some store')
        | accepted_outside_window ↦ (route setup e, some store')
        | replayed_within_window ↦ (replayed, some store')
        | replayed_hash_mismatch ↦ (hash_mismatch, some store')
      ]

  -- step 3
  unfoldable pub check_data :
      Setup p R
      → Request p
      → Value Float
      → Envelope Float
      → Option (Dict Entry)
      → Response R × Option (Dict Entry)
  check_data setup q doc e store = elim (lookup e.type setup.registry) [
    | none ↦ (unknown_type, store)
    | some s ↦ elim (validate_data p (obj e.contents) s) [
      | some error ↦ (validation_error, store)
      | none ↦ deliver setup q doc e store
    ]
  ]

  unfoldable pub check_document :
      Setup p R
      → Request p
      → Option (Value Float)
      → Option (Dict Entry)
      → Response R × Option (Dict Entry)
  check_document setup q none store = (validation_error, store)
  check_document setup q (some doc) store = elim (validate_envelope p doc) [
    | none ↦ (validation_error, store)
    | some e ↦ check_data setup q doc e store
  ]

  unfoldable pub dispatch_event :
      Setup p R → Request p → Option (Dict Entry) → Response R × Option (Dict Entry)
  dispatch_event setup q store =
      if signature_ok p q
      then check_document setup q (resolve p q) store
      else (signature_invalid, store)
