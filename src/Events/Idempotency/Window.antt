-- ===== src/Events/Idempotency/Window.antt =====
-- Within the window of an event its replay is suppressed; outside, only the same payload passes.
use cortxt.Prelude.{
  ℕ, ◌+◌, ◌*◌, ◌≤◌, ◌<◌, String, ◌≡◌, ◌≢◌, refl, true, none, some, List, [], ◌∷◌, arith, ◌==◌,
  eq_iff, ==_refl, All, length, if◌then◌else◌,
}
use cortxt.Dict.{Dict, lookup, insert, lookup-insert}
use cortxt.Platform.{Time}
use cortxt.Events.Idempotency.{
  Entry, processed, replayed_within_window, accepted_outside_window, replayed_hash_mismatch,
  record_known, record_event, recent, keep_recent, prune,
}

-- what is done to a store
pub data Action : Type 0 where
  recording : String → String → Time → Action
  pruning : Time → Action

unfoldable pub time_of : Action → Time
time_of (recording id hash now) = now
time_of (pruning now) = now

pub apply : ℕ → Action → Dict Entry → Dict Entry
apply window (recording id hash now) store = (record_event window id hash now store).1
apply window (pruning now) store = (prune window none now store).1

pub apply_all : ℕ → List Action → Dict Entry → Dict Entry
apply_all window [] store = store
apply_all window (a ∷ actions) store = apply_all window actions (apply window a store)

length-keep_recent :
    (n : ℕ) (now : Time) (store : Dict Entry) → length (keep_recent n now store) ≤ length store
unfolding keep_recent
length-keep_recent n now [] = omega arith
length-keep_recent n now ((k, e) ∷ store) = ground (arith, length-keep_recent n now store)

-- the number removed is 0 only where nothing is removed
keep_recent-all :
    (n : ℕ) (now : Time) (store : Dict Entry)
    → length store ≤ length (keep_recent n now store)
    → keep_recent n now store ≡ store
unfolding keep_recent
keep_recent-all n now [] h = refl
keep_recent-all n now ((k, e) ∷ store) h =
    ground (arith, keep_recent-all n now store, length-keep_recent n now store)

pub prune-keep_recent :
    (n : ℕ) (now : Time) (store : Dict Entry) → (prune n none now store).1 ≡ keep_recent n now store
unfolding prune
prune-keep_recent n now store =
    ground (arith, keep_recent-all n now store, length-keep_recent n now store)

lookup-keep_recent :
    (n : ℕ) (now : Time) (id : String) (e : Entry) (store : Dict Entry)
    → lookup id store ≡ some e
    → recent n now e ≡ true
    → lookup id (keep_recent n now store) ≡ some e
unfolding keep_recent lookup
lookup-keep_recent n now id e [] h r = cc
lookup-keep_recent n now id e ((k, e') ∷ store) h r =
    ground (arith, lookup-keep_recent n now id e store)

-- The entry of an event, while it is in its window: nothing changes it.
module _ (window : ℕ) (id hash : String) (t end : Time) (fits : end ≤ t + window * 1000000) where
  abbrev pub Recorded : Dict Entry → Type 0
  Recorded store = lookup id store ≡ some (record { payload_hash = hash; recorded_at = some t })

  pub record_event-Recorded :
      (j h : String) (now : Time) (store : Dict Entry)
      → Recorded store
      → now ≤ end
      → Recorded (record_event window j h now store).1
  unfolding record_event record_known
  record_event-Recorded j h now store e le = ground (
    arith,
    eq_iff j id,
    lookup-insert j id (record { payload_hash = h; recorded_at = some now }) store,
  )

  prune-Recorded :
      (now : Time) (store : Dict Entry)
      → Recorded store
      → now ≤ end
      → Recorded (prune window none now store).1
  unfolding recent
  prune-Recorded now store e le = rw prune-keep_recent (
      lookup-keep_recent window now id (record { payload_hash = hash; recorded_at = some t }) store
        e (ground arith))

  apply_all-Recorded :
      (actions : List Action) (store : Dict Entry)
      → Recorded store
      → All (λ a. time_of a ≤ end) actions
      → Recorded (apply_all window actions store)
  unfolding apply_all apply time_of
  apply_all-Recorded [] store e h = e
  apply_all-Recorded (recording j g now ∷ actions) store e h =
      apply_all-Recorded actions (record_event window j g now store).1
        (record_event-Recorded j g now store e h.0) h.1
  apply_all-Recorded (pruning now ∷ actions) store e h =
      apply_all-Recorded actions (prune window none now store).1 (prune-Recorded now store e h.0)
        h.1

  first-Recorded :
      (store : Dict Entry)
      → (record_event window id hash t store).0 ≡ processed
      → Recorded (record_event window id hash t store).1
  unfolding record_event record_known
  first-Recorded store new = ground (
    arith,
    lookup-insert id id (record { payload_hash = hash; recorded_at = some t }) store,
    ==_refl id,
  )

  pub replay-Recorded :
      (h : String) (store : Dict Entry)
      → Recorded store
      → record_event window id h end store ≡ (replayed_within_window, store)
  unfolding record_event record_known
  replay-Recorded h store e = ground arith

-- what passes is recorded, with its payload and its time
pub passed-Recorded :
    (window : ℕ) (id hash : String) (t : Time) (store : Dict Entry)
    → (record_event window id hash t store).0 ≢ replayed_within_window
    → (record_event window id hash t store).0 ≢ replayed_hash_mismatch
    → lookup id (record_event window id hash t store).1
      ≡ some (record { payload_hash = hash; recorded_at = some t })
unfolding record_event record_known
passed-Recorded window id hash t store fresh same = ground (
  arith,
  lookup-insert id id (record { payload_hash = hash; recorded_at = some t }) store,
  ==_refl id,
)

-- An event that is recorded as new at time t is not processed again up to the end of its window:
-- after any later records and prunes up to time `end`, a record of the same id at `end`, with
-- any payload, is answered as a replay and changes nothing.
pub replay_suppressed :
    (window : ℕ) (id hash hash' : String) (t end : Time) (store : Dict Entry)
    (actions : List Action)
    → (record_event window id hash t store).0 ≡ processed
    → end ≤ t + window * 1000000
    → All (λ a. time_of a ≤ end) actions
    → let later = apply_all window actions (record_event window id hash t store).1 in
      record_event window id hash' end later ≡ (replayed_within_window, later)
replay_suppressed window id hash hash' t end store actions new fits times =
    replay-Recorded window id hash t end fits hash' _ (
      apply_all-Recorded window id hash t end fits actions (record_event window id hash t store).1
        (first-Recorded window id hash t end fits store new) times)

-- Outside its window a replay passes only with the payload that was recorded, and what passes
-- starts a new window; any other payload is refused and changes nothing.
replay_outside :
    (window : ℕ) (id hash hash' : String) (t now : Time) (store : Dict Entry)
    → lookup id store ≡ some (record { payload_hash = hash; recorded_at = some t })
    → t + window * 1000000 < now
    → record_event window id hash' now store ≡ (
        if hash == hash'
        then (
          accepted_outside_window,
          insert id (record { payload_hash = hash'; recorded_at = some now }) store,
        )
        else (replayed_hash_mismatch, store))
unfolding record_event record_known
replay_outside window id hash hash' t now store e late = ground arith
