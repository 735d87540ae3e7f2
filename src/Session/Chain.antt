-- ===== src/Session/Chain.antt =====
-- The chain of a session: what `event` adds to a valid chain keeps it valid.
use cortxt.Prelude.{
  ℕ, suc, ◌+◌, ℤ, pos, String, ◌≡◌, inl, inr, refl, sym, subst, arith, ==_refl, codes, Bool-cases,
}
use cortxt.Value.{
  Value, Items, Fields, int, str, obj, nil, cons, get, lookup, same_keys, keys_within, has_all, has,
}
use cortxt.Platform.{Platform}
use cortxt.Events.Validation.{same_value, item_count}
use cortxt.Session.{
  Outcome, ok, session_error, raises, ◌>>=◌, matches_event_type, unsigned, signed, digest, event,
  check_event, check_events, snoc,
}

pub ok-injective : {A : Type 0} (a b : A) → ok a ≡ ok b → a ≡ b
ok-injective a b h = ground arith

pub bind-ok :
    {A B : Type 0} (o : Outcome A) (f : A → Outcome B) (b : B)
    → (o >>= f) ≡ ok b
    → (a : A) × (o ≡ ok a) × (f a ≡ ok b)
unfolding ◌>>=◌
bind-ok (ok a) f b h = (a, refl, h)
bind-ok (session_error c) f b h = absurd (ground arith)
bind-ok raises f b h = absurd (ground arith)

pub ok-bind :
    {A B : Type 0} (o : Outcome A) (f : A → Outcome B) (a : A) (b : B)
    → o ≡ ok a
    → f a ≡ ok b
    → (o >>= f) ≡ ok b
unfolding ◌>>=◌
ok-bind o f a b h k = rw h k

module _ (p : Platform) where
  open p use {Float}

  -- what an event that is built looks like
  pub event-signed :
      (n : ℤ) (type : String) (payload : Fields Float) (previous : Value Float) (now : String)
      (e : Value Float)
      → event p n type payload previous now ≡ ok e
      → (hash : String) × (digest p (unsigned p (int n) (str type) (obj payload) previous (str now))
          ≡ ok hash)
        × (e ≡ obj (signed p (int n) (str type) (obj payload) previous (str now) hash))
  unfolding event
  event-signed n type payload previous now e h =
      elim (Bool-cases (matches_event_type (codes type))) [
        | inl m ↦
            let (hash, d, f) = bind-ok _ _ e (rw (event, m) at h) in
            (hash, d, ok-injective _ _ (sym f))
        | inr m ↦ absurd (ground arith)
      ]

  pub check_event-signed :
      (i : ℕ) (type payload now : Value Float) (previous hash : String)
      → digest p (unsigned p (int (pos i)) type payload (str previous) now) ≡ ok hash
      → check_event p i
          (str previous)
          (obj (signed p (int (pos i)) type payload (str previous) now hash))
        ≡ ok (str hash)
  unfolding check_event get lookup same_keys keys_within has_all has same_value ◌>>=◌
  check_event-signed i type payload now previous hash h =
      ground (arith, ==_refl previous, h, ==_refl hash)

  pub snoc-check_events :
      (i : ℕ) (previous last final : Value Float) (events : Items Float) (e : Value Float)
      → check_events p i previous events ≡ ok last
      → check_event p (i + item_count events) last e ≡ ok final
      → check_events p i previous (snoc p events e) ≡ ok final
  unfolding check_events snoc
  snoc-check_events i previous last final nil e h c =
      ok-bind _ _ final final
        (subst (λ v. check_event p i v e ≡ ok final) (sym (ok-injective _ _ h))
          (subst (λ n. check_event p n last e ≡ ok final) (omega arith) c))
        refl
  snoc-check_events i previous last final (cons x events) e h c =
      let (hash, one, others) = bind-ok _ _ last h in
      ok-bind _ _ hash final one (
        snoc-check_events (suc i) hash last final events e others
          (subst (λ n. check_event p n last e ≡ ok final) (omega arith) c))
