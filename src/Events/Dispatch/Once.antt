-- ===== src/Events/Dispatch/Once.antt =====
-- What a call of `dispatch_event` that runs its handler has passed, and that it runs once.
use cortxt.Prelude.{
  ◌≡◌, inl, inr, refl, sym, ap, ◌∙◌, true, Option, none, some, arith, Option-cases,
}
use cortxt.Value.{Value, obj}
use cortxt.Platform.{Platform}
use cortxt.Dict.{Dict, lookup}
use cortxt.Events.Schema.{Schema}
use cortxt.Events.Validation.{validate_data}
use cortxt.Events.Envelope.{Envelope, validate_envelope}
use cortxt.Events.Idempotency.{Entry}
use cortxt.Events.Dispatch.{
  succeeded, Request, Setup, signature_ok, resolve, route, deliver, check_data, check_document,
  dispatch_event,
}

module _ (p : Platform) {R : Type 0} where
  open p use {Float}

  -- What stands behind a success.
  pub record IsDelivered (setup : Setup p R) (q : Request p) (store : Option (Dict Entry)) (r : R)
      : Type 0 where
    pub signed : signature_ok p q ≡ true
    pub doc : Value Float
    pub read : resolve p q ≡ some doc
    pub e : Envelope Float
    pub valid : validate_envelope p doc ≡ some e
    pub s : Schema Float
    pub known : lookup e.type setup.registry ≡ some s
    pub fits : validate_data p (obj e.contents) s ≡ none
    pub handler : Envelope Float → Option R
    pub routed : lookup e.type setup.handlers ≡ some handler
    pub returned : handler e ≡ some r
    pub delivered : dispatch_event p setup q store ≡ deliver p setup q doc e store

  -- the parts, from the last step to the first
  route-succeeded :
      (setup : Setup p R) (e : Envelope Float) (r : R)
      → route p setup e ≡ succeeded r
      → (handler : Envelope Float → Option R) × (lookup e.type setup.handlers ≡ some handler)
        × (handler e ≡ some r)
  unfolding route
  route-succeeded setup e r h = elim (Option-cases (lookup e.type setup.handlers)) [
    | inl n ↦ absurd (ground arith)
    | inr (handler, s) ↦ (handler, s, ground arith)
  ]

  deliver-succeeded :
      (setup : Setup p R) (q : Request p) (doc : Value Float) (e : Envelope Float)
      (store : Option (Dict Entry)) (r : R)
      → (deliver p setup q doc e store).0 ≡ succeeded r
      → route p setup e ≡ succeeded r
  unfolding deliver
  deliver-succeeded setup q doc e none r h = h
  deliver-succeeded setup q doc e (some store) r h = ground arith

  data-succeeded :
      (setup : Setup p R) (q : Request p) (doc : Value Float) (e : Envelope Float)
      (store : Option (Dict Entry)) (r : R)
      → (check_data p setup q doc e store).0 ≡ succeeded r
      → (s : Schema Float) × (lookup e.type setup.registry ≡ some s)
        × (validate_data p (obj e.contents) s ≡ none)
        × ((check_data p setup q doc e store) ≡ deliver p setup q doc e store)
  unfolding check_data
  data-succeeded setup q doc e store r h = elim (Option-cases (lookup e.type setup.registry)) [
    | inl n ↦ absurd (ground arith)
    | inr (s, known) ↦ elim (Option-cases (validate_data p (obj e.contents) s)) [
      | inl n ↦ (s, known, n, ground arith)
      | inr (x, bad) ↦ absurd (ground arith)
    ]
  ]

  document-succeeded :
      (setup : Setup p R) (q : Request p) (doc : Option (Value Float)) (store : Option (Dict Entry))
      (r : R)
      → (check_document p setup q doc store).0 ≡ succeeded r
      → (v : Value Float) × (doc ≡ some v)
        × (e : Envelope Float) × (validate_envelope p v ≡ some e)
        × (check_document p setup q doc store ≡ check_data p setup q v e store)
  unfolding check_document
  document-succeeded setup q none store r h = absurd (ground arith)
  document-succeeded setup q (some v) store r h = elim (Option-cases (validate_envelope p v)) [
    | inl n ↦ absurd (ground arith)
    | inr (e, valid) ↦ (v, refl, e, valid, ground arith)
  ]

  dispatch-succeeded :
      (setup : Setup p R) (q : Request p) (store : Option (Dict Entry)) (r : R)
      → (dispatch_event p setup q store).0 ≡ succeeded r
      → (signature_ok p q ≡ true)
        × (dispatch_event p setup q store ≡ check_document p setup q (resolve p q) store)
  unfolding dispatch_event
  dispatch-succeeded setup q store r h = ground arith

  -- A call that succeeds passed the signature check, read a valid envelope of a registered type,
  -- with contents that the schema of the type accepts, and its handler returned the result.
  pub succeeded-IsDelivered :
      (setup : Setup p R) (q : Request p) (store : Option (Dict Entry)) (r : R)
      → (dispatch_event p setup q store).0 ≡ succeeded r
      → IsDelivered setup q store r
  succeeded-IsDelivered setup q store r h =
      let (signed, h1) = dispatch-succeeded setup q store r h in
      let (doc, read, e, valid, h2) =
        document-succeeded setup q (resolve p q) store r (ap (λ x. x.0) (sym h1) ∙ h) in
      let h12 = h1 ∙ h2 in
      let (s, known, fits, h3) =
        data-succeeded setup q doc e store r (ap (λ x. x.0) (sym h12) ∙ h) in
      let (handler, routed, returned) =
        route-succeeded setup e r
          (deliver-succeeded setup q doc e store r (ap (λ x. x.0) (sym (h12 ∙ h3)) ∙ h)) in
      record {
        signed = signed;
        doc = doc;
        read = read;
        e = e;
        valid = valid;
        s = s;
        known = known;
        fits = fits;
        handler = handler;
        routed = routed;
        returned = returned;
        delivered = h12 ∙ h3;
      }
