-- ===== src/Session/Valid.antt =====
-- The documents that `_validate_chain` of agent-platform/runtime/session_state.py accepts.
use cortxt.Prelude.{
  ℕ, suc, pos, String, ◌≡◌, inl, inr, refl, sym, ap, subst, ◌∙◌, Bool, true, false, ◌||◌, not,
  Option, none, some, arith, ==_true, Bool-cases, if◌then◌else◌,
}
use cortxt.Value.{
  Value, Items, Fields, null, bool, int, float, str, arr, obj, nil, cons, get, same_keys,
}
use cortxt.Platform.{Platform}
use cortxt.Events.Validation.{same_value, item_count}
use cortxt.Session.{
  Outcome, ok, session_error, integrity_error, sequence_conflict, invalid_input, zero_hash,
  event_fields, session_fields, event, check_event, check_events, snoc, validate_chain, put_events,
  last_hash,
}
use cortxt.Session.Chain.{ok-injective, bind-ok, ok-bind}

pub if-ok :
    {A : Type 0} (b : Bool) (x : Outcome A) (a : A)
    → (if b then x else session_error sequence_conflict) ≡ ok a
    → x ≡ ok a
if-ok true x a h = h
if-ok false x a h = absurd (ground arith)

pub given-ok :
    {A B : Type 0} (o : Option A) (f : A → Outcome B) (b : B)
    → (elim o [ none ↦ session_error invalid_input | some a ↦ f a ]) ≡ ok b
    → (a : A) × (f a ≡ ok b)
given-ok none f b h = absurd (ground arith)
given-ok (some a) f b h = (a, h)

module _ (p : Platform) where
  open p use {Float}

  -- a hash that passes is a text
  pub same-str : (v : Value Float) (s : String) → same_value p v (str s) ≡ true → v ≡ str s
  unfolding same_value
  same-str null s h = absurd (ground arith)
  same-str (bool b) s h = absurd (ground arith)
  same-str (int n) s h = absurd (ground arith)
  same-str (float x) s h = absurd (ground arith)
  same-str (str t) s h = ap str (==_true t s h)
  same-str (arr xs) s h = absurd (ground arith)
  same-str (obj d) s h = absurd (ground arith)

  -- an event that passes has a text for its hash, which the next one is compared with
  pub check_event-hash :
      (i : ℕ) (previous e final : Value Float)
      → check_event p i previous e ≡ ok final
      → (s : String) × (final ≡ str s) × (last_hash p (cons e nil) ≡ ok (str s))
  unfolding check_event
  check_event-hash i previous (obj d) final h = elim (Bool-cases (not (same_keys d event_fields))) [
    | inl bad ↦ absurd (ground arith)
    | inr shape ↦
        elim (Bool-cases (
          not (same_value p (get d "sequence") (int (pos i)))
          || not (same_value p (get d "previous_hash") previous))) [
            | inl bad ↦ absurd (ground arith)
            | inr chained ↦
                let (expected, made, rest) =
                  bind-ok _ _ final (rw (check_event, shape, chained) at h) in
                hash_of d expected final rest
          ]
  ]
    where
      hash_of :
          (d : Fields Float) (s : String) (final : Value Float)
          → (if same_value p (get d "hash") (str s)
              then ok (get d "hash")
              else session_error integrity_error)
            ≡ ok final
          → (t : String) × (final ≡ str t) × (ok (get d "hash") ≡ ok (str t))
      hash_of d s final h = elim (Bool-cases (same_value p (get d "hash") (str s))) [
        | inl same ↦
            let is_s = same-str (get d "hash") s same in
            (s, sym (ok-injective _ _ (rw same at h)) ∙ is_s, ap ok is_s)
        | inr other ↦ absurd (ground arith)
      ]
  check_event-hash i previous null final h = absurd (ground arith)
  check_event-hash i previous (bool b) final h = absurd (ground arith)
  check_event-hash i previous (int n) final h = absurd (ground arith)
  check_event-hash i previous (float x) final h = absurd (ground arith)
  check_event-hash i previous (str s) final h = absurd (ground arith)
  check_event-hash i previous (arr xs) final h = absurd (ground arith)

  pub check_events-last :
      (i : ℕ) (start final : Value Float) (e : Value Float) (events : Items Float)
      → check_events p i start (cons e events) ≡ ok final
      → (s : String) × (final ≡ str s) × (last_hash p (cons e events) ≡ ok (str s))
  unfolding check_events
  check_events-last i start final e nil h =
      let (hash, one, same) = bind-ok _ _ final h in check_event-hash i start e final (one ∙ same)
  check_events-last i start final e (cons f events) h =
      let (hash, one, others) = bind-ok _ _ final h in
      check_events-last (suc i) hash final f events others

  -- what stands behind a document that passes
  pub record IsValid (doc : Fields Float) (session_id : String) (events : Items Float)
      : Type 0 where
    pub shape : same_keys doc session_fields ≡ true
    pub version : same_value p (get doc "schema_version") (int (pos 1)) ≡ true
    pub named : same_value p (get doc "session_id") (str session_id) ≡ true
    pub last : Value Float
    pub chain : check_events p 0 (str zero_hash) events ≡ ok last

  pub validate_chain-IsValid :
      (doc : Fields Float) (session_id : String) (events : Items Float)
      → validate_chain p (obj doc) session_id ≡ ok tt
      → get doc "events" ≡ arr events
      → IsValid doc session_id events
  unfolding validate_chain
  validate_chain-IsValid doc session_id events h e =
      elim (Bool-cases (same_keys doc session_fields)) [
        | inr s ↦ absurd (ground arith)
        | inl s ↦ elim (Bool-cases (same_value p (get doc "schema_version") (int (pos 1)))) [
          | inr v ↦ absurd (ground arith)
          | inl v ↦ elim (Bool-cases (same_value p (get doc "session_id") (str session_id))) [
            | inr n ↦ absurd (ground arith)
            | inl n ↦
                let (items, it, more) = bind-ok _ _ tt (rw (validate_chain, s, v, n, e) at h) in
                let (last, chain, u) = bind-ok _ _ tt more in
                record {
                  shape = s;
                  version = v;
                  named = n;
                  last = last;
                  chain =
                      subst (λ x. check_events p 0 (str zero_hash) x ≡ ok last)
                        (sym (ok-injective _ _ it)) chain;
                }
          ]
        ]
      ]

  pub IsValid-validate_chain :
      (doc : Fields Float) (session_id : String) (events : Items Float)
      → IsValid doc session_id events
      → get doc "events" ≡ arr events
      → validate_chain p (obj doc) session_id ≡ ok tt
  unfolding validate_chain
  IsValid-validate_chain doc session_id events v e =
      rw (v.shape, v.version, v.named, e)
        (ok-bind _ _ events tt refl (ok-bind _ _ v.last tt v.chain refl))

  -- what stands behind an extension
  pub record Extension (doc doc' : Fields Float) (event_type now : String) (payload : Fields Float)
      : Type 0 where
    pub events : Items Float
    pub listed : get doc "events" ≡ arr events
    pub previous : Value Float
    pub at_end : last_hash p events ≡ ok previous
    pub added : Value Float
    pub made : event p (pos (item_count events)) event_type payload previous now ≡ ok added
    pub put : doc' ≡ put_events p (snoc p events added) doc
