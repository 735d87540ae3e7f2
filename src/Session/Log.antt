-- ===== src/Session/Log.antt =====
-- What `create` and `append` leave on disk, and what `load` then reads.
use cortxt.Prelude.{
  ◌+◌, ℤ, pos, String, ◌≡◌, inl, inr, refl, sym, ap, subst, ◌∙◌, Bool, true, Option, none, some,
  arith, ==_refl, Bool-cases, Option-cases,
}
use cortxt.Value.{
  Value, Items, Fields, null, bool, int, float, str, arr, obj, nil, cons, get, lookup, same_keys,
  keys_within, has_all, has,
}
use cortxt.Platform.{Platform}
use cortxt.Dict as Dict
use cortxt.Events.Validation.{same_value, item_count}
use cortxt.Session.{
  ok, File, holds, unreadable, zero_hash, session_fields, event, check_event, check_events, snoc,
  validate_chain, read_file, load, atomic_write, put_events, last_hash, extend, append_loaded,
  append, create, created, matches_session_id, task_of,
}
use cortxt.Session.Chain.{
  ok-injective, bind-ok, ok-bind, event-signed, check_event-signed, snoc-check_events,
}
use cortxt.Session.Replaced.{get-put_events, get-put_events_own, has-get, same_keys-put_events}
use cortxt.Session.Valid.{
  if-ok, given-ok, Extension, IsValid-validate_chain, check_events-last, validate_chain-IsValid,
}

module _ (p : Platform) where
  open p use {Float}

  extend-Extension :
      (doc doc' : Fields Float) (event_type now : String) (payload : Fields Float) (v : Value Float)
      → get doc "events" ≡ v
      → extend p doc event_type payload now ≡ ok doc'
      → Extension p doc doc' event_type now payload
  unfolding extend
  extend-Extension doc doc' event_type now payload (arr events) e h =
      let (previous, tail, more) = bind-ok _ _ doc' (rw (extend, e) at h) in
      let (added, made, done) = bind-ok _ _ doc' more in
      record {
        events = events;
        listed = e;
        previous = previous;
        at_end = tail;
        added = added;
        made = made;
        put = sym (ok-injective _ _ done);
      }
  extend-Extension doc doc' event_type now payload null e h = absurd (ground arith)
  extend-Extension doc doc' event_type now payload (bool b) e h = absurd (ground arith)
  extend-Extension doc doc' event_type now payload (int n) e h = absurd (ground arith)
  extend-Extension doc doc' event_type now payload (float x) e h = absurd (ground arith)
  extend-Extension doc doc' event_type now payload (str s) e h = absurd (ground arith)
  extend-Extension doc doc' event_type now payload (obj d) e h = absurd (ground arith)

  -- the chain of a valid list goes on with the event that is made after its last hash
  chain-snoc :
      (events : Items Float) (last previous added : Value Float) (event_type now : String)
      (payload : Fields Float)
      → check_events p 0 (str zero_hash) events ≡ ok last
      → last_hash p events ≡ ok previous
      → event p (pos (item_count events)) event_type payload previous now ≡ ok added
      → (final : Value Float) × (check_events p 0 (str zero_hash) (snoc p events added) ≡ ok final)
  chain-snoc nil last previous added event_type now payload c l m = absurd (ground arith)
  chain-snoc (cons e events) last previous added event_type now payload c l m =
      let count = item_count (cons e events) in
      let (s, is_s, ends) = check_events-last p 0 (str zero_hash) last e events c in
      let is_previous : previous ≡ str s = ok-injective _ _ (sym l ∙ ends) in
      let (hash, d, is_added) =
        event-signed p (pos (item_count (cons e events))) event_type payload (str s) now added (
          subst
            (λ v. event p (pos (item_count (cons e events))) event_type payload v now ≡ ok added)
            is_previous m) in
      let same_count : count ≡ 0 + count = omega arith in
      (
        str hash,
        snoc-check_events p 0 (str zero_hash) last (str hash) (cons e events) added c (
            subst (λ n. check_event p n last added ≡ ok (str hash)) same_count
              (rw (is_s, is_added)
                (check_event-signed p count (str event_type) (obj payload) (str now) s hash d))),
      )

  -- an event that fits the end of a valid chain makes a valid document
  extend-IsValid :
      (doc doc' : Fields Float) (session_id event_type now : String) (payload : Fields Float)
      → validate_chain p (obj doc) session_id ≡ ok tt
      → extend p doc event_type payload now ≡ ok doc'
      → validate_chain p (obj doc') session_id ≡ ok tt
  extend-IsValid doc doc' session_id event_type now payload h x =
      let ext = extend-Extension doc doc' event_type now payload (get doc "events") refl x in
      let valid = validate_chain-IsValid p doc session_id ext.events h ext.listed in
      let (final, chain) =
        chain-snoc ext.events valid.last ext.previous ext.added event_type now payload valid.chain
          ext.at_end ext.made in
      let longer = snoc p ext.events ext.added in
      subst (λ d. validate_chain p (obj d) session_id ≡ ok tt) (sym ext.put)
        (IsValid-validate_chain p (put_events p longer doc) session_id longer
          (record {
            shape = same_keys-put_events p session_fields longer doc ∙ valid.shape;
            version =
                ap (λ v. same_value p v (int (pos 1)))
                  (get-put_events p "schema_version" longer doc refl)
                ∙ valid.version;
            named =
                ap (λ v. same_value p v (str session_id))
                  (get-put_events p "session_id" longer doc refl)
                ∙ valid.named;
            last = final;
            chain = chain;
          })
          (get-put_events_own p longer doc (has-get p doc "events" ext.events ext.listed)))

  atomic_write-lookup :
      (works : Bool) (session_id : String) (doc : Fields Float)
      (store store' : Dict.Dict (File Float))
      → atomic_write p works session_id doc store ≡ ok store'
      → Dict.lookup session_id store' ≡ some (holds (obj doc))
  unfolding atomic_write
  atomic_write-lookup works session_id doc store store' h = elim (Option-cases (p.canonical doc)) [
    | inl n ↦ absurd (ground arith)
    | inr (text, c) ↦ ground (
      arith,
      Dict.lookup-insert session_id session_id (holds (obj doc)) store,
      ==_refl session_id,
    )
  ]

  load-valid :
      (store : Dict.Dict (File Float)) (session_id : String) (v : Value Float)
      → load p store session_id ≡ ok v
      → (matches_session_id session_id ≡ true) × (validate_chain p v session_id ≡ ok tt)
  unfolding load
  load-valid store session_id v h = elim (Bool-cases (matches_session_id session_id)) [
    | inr bad ↦ absurd (ground arith)
    | inl good ↦ (good, read_file-valid (Dict.lookup session_id store) v (rw (load, good) at h))
  ]
    where
      read_file-valid :
          (f : Option (File Float)) (v : Value Float)
          → read_file p f session_id ≡ ok v
          → validate_chain p v session_id ≡ ok tt
      read_file-valid none v h = absurd (ground arith)
      read_file-valid (some unreadable) v h = absurd (ground arith)
      read_file-valid (some (holds doc)) v h =
          let (u, valid, same) = bind-ok _ _ v h in
          subst (λ x. validate_chain p x session_id ≡ ok tt) (ok-injective _ _ same) valid

  written-load :
      (store : Dict.Dict (File Float)) (session_id : String) (doc : Fields Float)
      → matches_session_id session_id ≡ true
      → Dict.lookup session_id store ≡ some (holds (obj doc))
      → validate_chain p (obj doc) session_id ≡ ok tt
      → load p store session_id ≡ ok (obj doc)
  unfolding load
  written-load store session_id doc named found valid =
      rw (named, found) (ok-bind _ _ tt (obj doc) valid refl)

  append_loaded-valid :
      (works : Bool) (store store' : Dict.Dict (File Float)) (session_id : String) (expected : ℤ)
      (event_type : String) (payload doc' : Fields Float) (now : String) (v : Value Float)
      → validate_chain p v session_id ≡ ok tt
      → append_loaded p works store session_id expected event_type payload now v ≡ ok (doc', store')
      → (Dict.lookup session_id store' ≡ some (holds (obj doc')))
        × (validate_chain p (obj doc') session_id ≡ ok tt)
  unfolding append_loaded
  append_loaded-valid works store store' session_id expected event_type payload doc' now (obj doc)
        valid h =
      let (longer, extended, more) = bind-ok _ _ (doc', store') (if-ok _ _ _ h) in
      let (store1, written, same) = bind-ok _ _ (doc', store') more in
      let pair = ok-injective _ _ same in
      let good = extend-IsValid doc longer session_id event_type now payload valid extended in
      (
        subst
            (λ (x : Fields Float × Dict.Dict (File Float)).
              Dict.lookup session_id x.1 ≡ some (holds (obj x.0)))
            pair (atomic_write-lookup works session_id longer store store1 written),
        subst
            (λ (x : Fields Float × Dict.Dict (File Float)).
              validate_chain p (obj x.0) session_id ≡ ok tt)
            pair good,
      )
  append_loaded-valid works store store' session_id expected event_type payload doc' now null valid
        h =
      absurd (ground arith)
  append_loaded-valid works store store' session_id expected event_type payload doc' now (bool b)
        valid h =
      absurd (ground arith)
  append_loaded-valid works store store' session_id expected event_type payload doc' now (int n)
        valid h =
      absurd (ground arith)
  append_loaded-valid works store store' session_id expected event_type payload doc' now (float x)
        valid h =
      absurd (ground arith)
  append_loaded-valid works store store' session_id expected event_type payload doc' now (str s)
        valid h =
      absurd (ground arith)
  append_loaded-valid works store store' session_id expected event_type payload doc' now (arr xs)
        valid h =
      absurd (ground arith)

  -- An append that succeeds leaves a valid log: `load` then returns the document that was written.
  pub load-append :
      (works : Bool) (store store' : Dict.Dict (File Float)) (session_id : String) (expected : ℤ)
      (event_type : String) (payload doc' : Fields Float) (now : String)
      → append p works store session_id expected event_type payload now ≡ ok (doc', store')
      → load p store' session_id ≡ ok (obj doc')
  unfolding append
  load-append works store store' session_id expected event_type payload doc' now h =
      let (v, loaded, more) = bind-ok _ _ (doc', store') h in
      let (named, valid) = load-valid store session_id v loaded in
      let (wrote, passes) =
        append_loaded-valid works store store' session_id expected event_type payload doc' now v
          valid more in
      written-load store' session_id doc' named wrote passes

  created-valid :
      (session_id : String) (task : Fields Float) (now : String) (e : Value Float)
      → event p (pos 0) "session.created" task (str zero_hash) now ≡ ok e
      → validate_chain p (obj (created p session_id e)) session_id ≡ ok tt
  unfolding same_keys keys_within has_all has lookup get same_value check_events
  created-valid session_id task now e made =
      let (hash, d, is_e) =
        event-signed p (pos 0) "session.created" task (str zero_hash) now e made in
      let first : check_event p 0 (str zero_hash) e ≡ ok (str hash) =
        subst (λ v. check_event p 0 (str zero_hash) v ≡ ok (str hash)) (sym is_e)
          (check_event-signed p 0 (str "session.created") (obj task) (str now) zero_hash hash d) in
      IsValid-validate_chain p (created p session_id e) session_id (cons e nil)
        (record {
          shape = refl;
          version = refl;
          named = ==_refl session_id;
          last = str hash;
          chain = ok-bind _ _ (str hash) (str hash) first refl;
        })
        refl

  -- A creation that succeeds leaves a valid log of one event, which `load` returns.
  load-create :
      (works : Bool) (store store' : Dict.Dict (File Float)) (session_id : String)
      (task_id : Value Float) (optional doc : Fields Float) (now : String)
      → create p works store session_id task_id optional now ≡ ok (doc, store')
      → load p store' session_id ≡ ok (obj doc)
  unfolding create
  load-create works store store' session_id task_id optional doc now h =
      let (task, more) = given-ok (task_of p task_id) _ (doc, store') h in
      let (e, made, written) = bind-ok _ _ (doc, store') more in
      elim (Bool-cases (matches_session_id session_id)) [
        | inr bad ↦ absurd (ground arith)
        | inl good ↦
            let (store1, wrote, same) = bind-ok _ _ (doc, store') (rw good at written) in
            let pair = ok-injective _ _ same in
            subst
              (λ (x : Fields Float × Dict.Dict (File Float)). load p x.1 session_id ≡ ok (obj x.0))
              pair
              (written-load store1 session_id (created p session_id e) good
                (atomic_write-lookup works session_id (created p session_id e) store store1 wrote)
                (created-valid session_id _ now e made))
      ]
