-- ===== src/Events/Dispatch/Twice.antt =====
-- The handler of an event runs once in its window, however often `dispatch_event` is called.
use cortxt.Prelude.{
  ◌+◌, ◌*◌, ◌≤◌, ◌<◌, String, ◌≡◌, ◌≢◌, ◌⊎◌, inl, inr, refl, sym, ap, subst, ◌∙◌, Bool-cases, leb,
  leb→le, Option, none, some, List, [], ◌∷◌, arith, All, Option-cases,
}
use mathlib.Core.Option.{some-injective}
use cortxt.Value.{Value, obj}
use cortxt.Platform.{Platform, Time}
use cortxt.Dict.{Dict, lookup}
use cortxt.Events.Validation.{validate_data}
use cortxt.Events.Envelope.{Envelope, validate_envelope}
use cortxt.Events.Idempotency.{Entry, record_event, replayed_within_window, replayed_hash_mismatch}
use cortxt.Events.Idempotency.Window.{
  Recorded, record_event-Recorded, replay-Recorded, passed-Recorded,
}
use cortxt.Events.Dispatch.{
  Response, succeeded, replayed, Request, Setup, signature_ok, resolve, payload_hash, deliver,
  check_data, check_document, dispatch_event,
}
use cortxt.Events.Dispatch.Once.{succeeded-IsDelivered}

module _ (p : Platform) where
  open p use {Float}

  -- The id of the event that a call delivers, if it reads one.
  unfoldable pub event_id : Request p → Option String
  event_id q = elim (resolve p q) [
    | none ↦ none
    | some doc ↦ elim (validate_envelope p doc) [ none ↦ none | some e ↦ some e.id ]
  ]

  id-read :
      (q : Request p) (doc : Value Float) (e : Envelope Float)
      → resolve p q ≡ some doc
      → validate_envelope p doc ≡ some e
      → event_id q ≡ some e.id
  unfolding event_id
  id-read q doc e read valid = ground arith

module _ (p : Platform) {R : Type 0} where
  open p use {Float}

  -- the store after further calls
  unfoldable pub after : Setup p R → List (Request p) → Option (Dict Entry) → Option (Dict Entry)
  after setup [] store = store
  after setup (q ∷ calls) store = after setup calls (dispatch_event p setup q store).1

  -- A call leaves the store as it was or records one event.
  abbrev Leaves : Setup p R → Time → Dict Entry → Option (Dict Entry) → Type 0
  Leaves setup now store s =
      (s ≡ some store)
      ⊎ ((j : String) × (h : String) × (s ≡ some (record_event setup.window j h now store).1))

  deliver-Leaves :
      (setup : Setup p R) (q : Request p) (doc : Value Float) (e : Envelope Float)
      (store : Dict Entry)
      → (deliver p setup q doc e (some store)).1
        ≡ some (record_event setup.window e.id (payload_hash p q doc) q.now store).1
  unfolding deliver
  deliver-Leaves setup q doc e store = ground arith

  data-Leaves :
      (setup : Setup p R) (q : Request p) (doc : Value Float) (e : Envelope Float)
      (store : Dict Entry)
      → Leaves setup q.now store (check_data p setup q doc e (some store)).1
  unfolding check_data
  data-Leaves setup q doc e store = elim (Option-cases (lookup e.type setup.registry)) [
    | inl n ↦ inl (ground arith)
    | inr (s, known) ↦ elim (Option-cases (validate_data p (obj e.contents) s)) [
      | inl n ↦ inr (e.id, payload_hash p q doc, ground (arith, deliver-Leaves setup q doc e store))
      | inr (x, bad) ↦ inl (ground arith)
    ]
  ]

  document-Leaves :
      (setup : Setup p R) (q : Request p) (doc : Option (Value Float)) (store : Dict Entry)
      → Leaves setup q.now store (check_document p setup q doc (some store)).1
  unfolding check_document
  document-Leaves setup q none store = inl refl
  document-Leaves setup q (some doc) store = elim (Option-cases (validate_envelope p doc)) [
    | inl n ↦ inl (ground arith)
    | inr (e, valid) ↦
        let same : check_document p setup q (some doc) (some store)
            ≡ check_data p setup q doc e (some store) =
          ground arith in
        subst (λ (x : Response R × Option (Dict Entry)). Leaves setup q.now store x.1) (sym same)
          (data-Leaves setup q doc e store)
  ]

  dispatch-Leaves :
      (setup : Setup p R) (q : Request p) (store : Dict Entry)
      → Leaves setup q.now store (dispatch_event p setup q (some store)).1
  unfolding dispatch_event
  dispatch-Leaves setup q store = elim (Bool-cases (signature_ok p q)) [
    | inl ok ↦
        let same : dispatch_event p setup q (some store)
            ≡ check_document p setup q (resolve p q) (some store) =
          ground arith in
        subst (λ (x : Response R × Option (Dict Entry)). Leaves setup q.now store x.1) (sym same)
          (document-Leaves setup q (resolve p q) store)
    | inr bad ↦ inl (ground arith)
  ]

  -- the entry of an event outlives calls up to the end of its window
  after-Recorded :
      (setup : Setup p R) (id hash : String) (t end : Time)
      (fits : end ≤ t + setup.window * 1000000) (calls : List (Request p)) (store : Dict Entry)
      → Recorded setup.window id hash t end fits store
      → All (λ c. c.now ≤ end) calls
      → (store' : Dict Entry) × (after setup calls (some store) ≡ some store')
        × Recorded setup.window id hash t end fits store'
  unfolding after
  after-Recorded setup id hash t end fits [] store e h = (store, refl, e)
  after-Recorded setup id hash t end fits (q ∷ calls) store e h =
      elim (dispatch-Leaves setup q store) [
        | inl same ↦ rw same (after-Recorded setup id hash t end fits calls store e h.1)
        | inr (j, g, put) ↦ rw put (
            after-Recorded setup id hash t end fits calls
              (record_event setup.window j g q.now store).1
              (record_event-Recorded setup.window id hash t end fits j g q.now store e h.0) h.1)
      ]

  deliver-passed :
      (setup : Setup p R) (q : Request p) (doc : Value Float) (e : Envelope Float)
      (store : Dict Entry) (r : R)
      → (deliver p setup q doc e (some store)).0 ≡ succeeded r
      → ((record_event setup.window e.id (payload_hash p q doc) q.now store).0
          ≢ replayed_within_window)
        × ((record_event setup.window e.id (payload_hash p q doc) q.now store).0
            ≢ replayed_hash_mismatch)
  unfolding deliver
  deliver-passed setup q doc e store r h = (λ n. ground arith, λ n. ground arith)

  deliver-replayed :
      (setup : Setup p R) (q : Request p) (doc : Value Float) (e : Envelope Float)
      (store : Dict Entry)
      → record_event setup.window e.id (payload_hash p q doc) q.now store
        ≡ (replayed_within_window, store)
      → (deliver p setup q doc e (some store)).0 ≡ replayed
  unfolding deliver
  deliver-replayed setup q doc e store h = ground arith

  -- a success records its event, so that any further success of it lies outside the window
  success-Recorded :
      (setup : Setup p R) (q : Request p) (store : Dict Entry) (r : R) (end : Time)
      (fits : end ≤ q.now + setup.window * 1000000)
      → (dispatch_event p setup q (some store)).0 ≡ succeeded r
      → (id : String) → event_id p q ≡ some id
      → (hash : String) × (store' : Dict Entry) × ((dispatch_event p setup q (some store)).1
          ≡ some store')
        × Recorded setup.window id hash q.now end fits store'
  success-Recorded setup q store r end fits h id i =
      let d = succeeded-IsDelivered p setup q (some store) r h in
      let (fresh, same) =
        deliver-passed setup q d.doc d.e store r (ap (λ x. x.0) (sym d.delivered) ∙ h) in
      let j : d.e.id ≡ id = some-injective _ _ (sym (id-read p q d.doc d.e d.read d.valid) ∙ i) in
      (
        payload_hash p q d.doc,
        (record_event setup.window d.e.id (payload_hash p q d.doc) q.now store).1,
        ap (λ x. x.1) d.delivered ∙ deliver-Leaves setup q d.doc d.e store,
        subst
            (λ k.
              lookup k (record_event setup.window d.e.id (payload_hash p q d.doc) q.now store).1
              ≡ some (record { payload_hash = payload_hash p q d.doc; recorded_at = some q.now }))
            j (passed-Recorded setup.window d.e.id (payload_hash p q d.doc) q.now store fresh same),
      )

  replayed-succeeded : (r : R) → replayed ≢ succeeded r
  replayed-succeeded r h = ground arith

  -- On a recorded event there is no success inside the window.
  no-success :
      (setup : Setup p R) (q : Request p) (id hash : String) (t : Time)
      (fits : q.now ≤ t + setup.window * 1000000) (store : Dict Entry) (r : R)
      → Recorded setup.window id hash t q.now fits store
      → event_id p q ≡ some id
      → (dispatch_event p setup q (some store)).0 ≢ succeeded r
  no-success setup q id hash t fits store r e i h =
      let d = succeeded-IsDelivered p setup q (some store) r h in
      let j : id ≡ d.e.id = some-injective _ _ (sym i ∙ id-read p q d.doc d.e d.read d.valid) in
      let replay =
        replay-Recorded setup.window d.e.id hash t q.now fits (payload_hash p q d.doc) store
          (subst (λ k. Recorded setup.window k hash t q.now fits store) j e) in
      replayed-succeeded r (
        sym (deliver-replayed setup q d.doc d.e store replay) ∙ ap (λ x. x.0) (sym d.delivered) ∙ h)

  -- Two calls that succeed for the same event id, with any other calls between them that are not
  -- later than the second one, are more than the window of the store apart.
  pub successes_apart :
      (setup : Setup p R) (q q' : Request p) (calls : List (Request p)) (store : Dict Entry)
      (r r' : R) (id : String)
      → event_id p q ≡ some id
      → event_id p q' ≡ some id
      → All (λ c. c.now ≤ q'.now) calls
      → (dispatch_event p setup q (some store)).0 ≡ succeeded r
      → (dispatch_event p setup q' (after setup calls (dispatch_event p setup q (some store)).1)).0
        ≡ succeeded r'
      → q.now + setup.window * 1000000 < q'.now
  successes_apart setup q q' calls store r r' id i i' times h h' =
      elim (Bool-cases (leb q'.now (q.now + setup.window * 1000000))) [
        | inr late ↦ ground arith
        | inl early ↦
            let fits = leb→le q'.now (q.now + setup.window * 1000000) early in
            let (hash, store1, e1, rec1) = success-Recorded setup q store r q'.now fits h id i in
            let (store2, e2, rec2) =
              after-Recorded setup id hash q.now q'.now fits calls store1 rec1 times in
            absurd (
              no-success setup q' id hash q.now fits store2 r' rec2 i' (
                subst (λ s. (dispatch_event p setup q' s).0 ≡ succeeded r')
                  (ap (after setup calls) e1 ∙ e2) h'))
      ]
