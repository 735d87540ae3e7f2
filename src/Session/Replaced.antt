-- ===== src/Session/Replaced.antt =====
-- The fields of a session document of agent-platform/runtime/session_state.py after its events are
-- replaced.
use cortxt.Prelude.{
  String, ◌≡◌, inl, inr, refl, true, false, some, arith, ◌==◌, eq_iff, List, [], ◌∷◌, Option-cases,
}
use cortxt.Value.{Items, Fields, arr, end, field, get, lookup, same_keys, keys_within, has_all, has}
use cortxt.Platform.{Platform}
use cortxt.Session.{put_events}

module _ (p : Platform) where
  open p use {Float}

  pub lookup-put_events :
      (key : String) (events : Items Float) (d : Fields Float)
      → (key == "events") ≡ false
      → lookup key (put_events p events d) ≡ lookup key d
  unfolding lookup put_events
  lookup-put_events key events end h = refl
  lookup-put_events key events (field k v d) h =
      ground (
        arith,
        lookup-put_events key events d,
        eq_iff k key,
        eq_iff k "events",
        eq_iff key "events",
      )

  pub lookup-put_events_own :
      (events : Items Float) (d : Fields Float)
      → has d "events" ≡ true
      → lookup "events" (put_events p events d) ≡ some (arr events)
  unfolding lookup put_events has
  lookup-put_events_own events end h = ground arith
  lookup-put_events_own events (field k v d) h = ground (arith, lookup-put_events_own events d)

  pub get-put_events :
      (key : String) (events : Items Float) (d : Fields Float)
      → (key == "events") ≡ false
      → get (put_events p events d) key ≡ get d key
  unfolding get
  get-put_events key events d h = rw (get, lookup-put_events key events d h) refl

  pub get-put_events_own :
      (events : Items Float) (d : Fields Float)
      → has d "events" ≡ true
      → get (put_events p events d) "events" ≡ arr events
  unfolding get
  get-put_events_own events d h = rw (get, lookup-put_events_own events d h) refl

  pub has-get :
      (d : Fields Float) (key : String) (events : Items Float)
      → get d key ≡ arr events
      → has d key ≡ true
  unfolding get has
  has-get d key events h = elim (Option-cases (lookup key d)) [
    | inl n ↦ absurd (ground arith)
    | inr (v, found) ↦ rw found refl
  ]

  pub has-put_events :
      (key : String) (events : Items Float) (d : Fields Float)
      → has (put_events p events d) key ≡ has d key
  unfolding lookup put_events has
  has-put_events key events end = refl
  has-put_events key events (field k v d) =
      ground (arith, has-put_events key events d, eq_iff k key, eq_iff k "events")

  pub keys_within-put_events :
      (names : List String) (events : Items Float) (d : Fields Float)
      → keys_within names (put_events p events d) ≡ keys_within names d
  unfolding keys_within put_events
  keys_within-put_events names events end = refl
  keys_within-put_events names events (field k v d) =
      ground (arith, keys_within-put_events names events d)

  pub has_all-put_events :
      (names : List String) (events : Items Float) (d : Fields Float)
      → has_all names (put_events p events d) ≡ has_all names d
  unfolding has_all
  has_all-put_events [] events d = refl
  has_all-put_events (k ∷ names) events d =
      rw (has-put_events k events d, has_all-put_events names events d) refl

  pub same_keys-put_events :
      (names : List String) (events : Items Float) (d : Fields Float)
      → same_keys (put_events p events d) names ≡ same_keys d names
  unfolding same_keys
  same_keys-put_events names events d =
      rw (keys_within-put_events names events d, has_all-put_events names events d) refl
