-- ===== src/Session/Tamper.antt =====
-- Two chains of agent-platform/runtime/session_state.py with one final hash have the same events, up to
-- a collision of SHA-256.
use cortxt.Prelude.{
  ℕ, suc, pos, String, Bool, true, false, ◌||◌, not, ◌≡◌, ◌≢◌, ◌⊎◌, inl, inr, refl, sym, ap, ◌∙◌,
  subst, Option, none, some, List, [], ◌∷◌, ◌==◌, ==_true, unequal, arith, Bool-cases,
  if◌then◌else◌,
}
use cortxt.Value.{Value, Items, Fields, int, str, obj, nil, cons, get, same_keys}
use cortxt.Platform.{Platform}
use cortxt.Events.Validation.{same_value, item_count}
use cortxt.Session.{
  Outcome, ok, session_error, integrity_error, raises, unsigned_of, digest, event_fields,
  check_event, check_events,
}
use cortxt.Session.Valid.{same-str}
use cortxt.Session.Chain.{ok-injective, bind-ok}

module _ (p : Platform) where
  open p use {Float}

  -- What an event shows that passes after the hash `previous`, with the hash `final`.
  record IsLinked (previous : String) (v final : Value Float) : Type 0 where
    d : Fields Float
    text : String
    shape : v ≡ obj d
    printed : p.canonical (unsigned_of p d) ≡ some text
    hashed : final ≡ str (p.sha256 text)
    after : get d "previous_hash" ≡ str previous

  digest-text :
      (d : Fields Float) (hash : String)
      → digest p d ≡ ok hash
      → (text : String) × (p.canonical d ≡ some text) × (hash ≡ p.sha256 text)
  unfolding digest
  digest-text d hash h = read (p.canonical d) refl h
    where
      read :
          (o : Option String)
          → p.canonical d ≡ o
          → elim o [ none ↦ raises | some text ↦ ok (p.sha256 text) ] ≡ ok hash
          → (text : String) × (p.canonical d ≡ some text) × (hash ≡ p.sha256 text)
      read none e k = absurd (ground arith)
      read (some text) e k = (text, e, sym (ok-injective _ _ k))

  check_event-IsLinked :
      (i : ℕ) (previous : String) (v final : Value Float)
      → check_event p i (str previous) v ≡ ok final
      → IsLinked previous v final
  unfolding check_event
  check_event-IsLinked i previous (obj d) final h =
      let (linked, rest) =
        passed (same_keys d event_fields) (same_value p (get d "sequence") (int (pos i)))
          (same_value p (get d "previous_hash") (str previous)) h in
      let (expected, made, tested) = bind-ok _ _ final rest in
      let (text, printed, is_hash) = digest-text (unsigned_of p d) expected made in
      let (same, answer) =
        kept (same_value p (get d "hash") (str expected)) (get d "hash") tested in
      record {
        d = d;
        text = text;
        shape = refl;
        printed = printed;
        hashed = sym answer ∙ same-str p (get d "hash") expected same ∙ ap (λ x. str x) is_hash;
        after = same-str p (get d "previous_hash") previous linked;
      }
    where
      passed :
          (keys sequence linked : Bool) {rest : Outcome (Value Float)}
          → (if not keys
              then session_error integrity_error
              else if not sequence || not linked
              then session_error integrity_error
              else rest)
            ≡ ok final
          → (linked ≡ true) × (rest ≡ ok final)
      passed false sequence linked k = absurd (ground arith)
      passed true false linked k = absurd (ground arith)
      passed true true false k = absurd (ground arith)
      passed true true true k = (refl, k)

      kept :
          (b : Bool) (v : Value Float)
          → (if b then ok v else session_error integrity_error) ≡ ok final
          → (b ≡ true) × (v ≡ final)
      kept false v k = absurd (ground arith)
      kept true v k = (refl, ok-injective _ _ k)
  check_event-IsLinked i previous v final h = absurd (ground arith)

  -- Two texts with one digest.
  abbrev Collision : Type 0
  Collision = (s : String) × (t : String) × (s ≢ t) × (p.sha256 s ≡ p.sha256 t)

  -- The texts that the events are hashed as; what is no dictionary has none.
  abbrev pub texts : Items Float → List (Option String)
  texts nil = []
  texts (cons (obj d) events) = p.canonical (unsigned_of p d) ∷ texts events
  texts (cons v events) = none ∷ texts events

  texts-obj :
      (v : Value Float) (d : Fields Float) (text : String) (events : Items Float)
      → v ≡ obj d
      → p.canonical (unsigned_of p d) ≡ some text
      → texts (cons v events) ≡ some text ∷ texts events
  texts-obj v d text events e h = ap (λ x. texts (cons x events)) e ∙ ap (λ o. o ∷ texts events) h

  -- The canonical text of an event shows the hash before it.
  abbrev pub IsPrinter : Type 0
  IsPrinter =
      (d e : Fields Float) (text s t : String)
      → p.canonical (unsigned_of p d) ≡ some text
      → p.canonical (unsigned_of p e) ≡ some text
      → get d "previous_hash" ≡ str s
      → get e "previous_hash" ≡ str t
      → s ≡ t

  str-injective : (s t : String) → ◌≡◌ {A = Value Float} (str s) (str t) → s ≡ t
  str-injective s t h = ground arith

  -- One digest of two texts: they are one text, or a collision.
  same_or_collision : (s t : String) → p.sha256 s ≡ p.sha256 t → (s ≡ t) ⊎ Collision
  same_or_collision s t h = elim (Bool-cases (s == t)) [
    | inl e ↦ inl (==_true s t e)
    | inr e ↦ inr (s, t, unequal s t e, h)
  ]

  -- The rest of a chain after an event that is linked.
  check_events-rest :
      (i : ℕ) (previous : String) (v final : Value Float) (events : Items Float)
      → check_events p i (str previous) (cons v events) ≡ ok final
      → (link : (h : Value Float) × IsLinked previous v h) × (check_events p
            (suc i)
            (str (p.sha256 link.1.text))
            events
          ≡ ok final)
  unfolding check_events
  check_events-rest i previous v final events h =
      let (hash, one, others) = bind-ok _ _ final h in
      let link = check_event-IsLinked i previous v hash one in
      ((hash, link), subst (λ x. check_events p (suc i) x events ≡ ok final) link.hashed others)

  heads :
      (a b : String) (x y h k : Value Float) (xs ys : Items Float) (l : IsLinked a x h)
      (m : IsLinked b y k)
      → IsPrinter
      → texts xs ≡ texts ys
      → (l.text ≡ m.text) ⊎ Collision
      → ((a ≡ b) × (texts (cons x xs) ≡ texts (cons y ys))) ⊎ Collision
  heads a b x y h k xs ys l m printer tails (inr c) = inr c
  heads a b x y h k xs ys l m printer tails (inl same) = inl (
    printer l.d m.d m.text a b (l.printed ∙ ap (λ t. some t) same) m.printed l.after m.after,
    texts-obj x l.d l.text xs l.shape l.printed
        ∙ ap (λ t. some t ∷ texts xs) same
        ∙ ap (λ ts. some m.text ∷ ts) tails
        ∙ sym (texts-obj y m.d m.text ys m.shape m.printed),
  )

  -- Two lists of as many events that pass as chains up to one final hash, where the canonical text
  -- of an event shows the hash before it, start after the same hash and hash the same texts, or two
  -- different texts have one SHA-256.
  pub check_events_lem :
      (i : ℕ) (a b final : String) (xs ys : Items Float)
      → IsPrinter
      → item_count xs ≡ item_count ys
      → check_events p i (str a) xs ≡ ok (str final)
      → check_events p i (str b) ys ≡ ok (str final)
      → ((a ≡ b) × (texts xs ≡ texts ys)) ⊎ Collision
  unfolding check_events
  check_events_lem i a b final nil nil printer n h k = inl (
    str-injective a final (ok-injective _ _ h) ∙ sym (str-injective b final (ok-injective _ _ k)),
    refl,
  )
  check_events_lem i a b final nil (cons y ys) printer n h k = absurd (omega (arith, n))
  check_events_lem i a b final (cons x xs) nil printer n h k = absurd (omega (arith, n))
  check_events_lem i a b final (cons x xs) (cons y ys) printer n h k =
      let (l, after_x) = check_events-rest i a x (str final) xs h in
      let (m, after_y) = check_events-rest i b y (str final) ys k in
      whole_chain l.1 m.1 (
        check_events_lem (suc i) (p.sha256 l.1.text) (p.sha256 m.1.text) final xs ys printer
          (omega (arith, n)) after_x after_y)
    where
      whole_chain :
          {h k : Value Float} (l : IsLinked a x h) (m : IsLinked b y k)
          → ((p.sha256 l.text ≡ p.sha256 m.text) × (texts xs ≡ texts ys)) ⊎ Collision
          → ((a ≡ b) × (texts (cons x xs) ≡ texts (cons y ys))) ⊎ Collision
      whole_chain l m (inr c) = inr c
      whole_chain {h = h} {k = k} l m (inl (same, tails)) =
          heads a b x y h k xs ys l m printer tails (same_or_collision l.text m.text same)
