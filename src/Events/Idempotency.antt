-- ===== src/Events/Idempotency.antt =====
-- `IdempotencyStore` of agent-platform/events/idempotency.py. A missing or unreadable file reads
-- as an empty dictionary. Times are microseconds, and the windows whole seconds.
pub mod Window
use cortxt.Prelude.{
  ℕ, ◌+◌, ◌-◌, ◌*◌, String, Bool, true, false, Option, none, some, List, [], ◌∷◌, leb, ltb, ◌==◌,
  length, if◌then◌else◌,
}
use cortxt.Dict.{Dict, lookup, insert}
use cortxt.Platform.{Time}

-- `recorded_at` is the time that the text stands for, and `none` where it cannot be parsed.
pub record Entry : Type 0 where
  pub payload_hash : String
  pub recorded_at : Option Time

pub data Status : Type 0 where
  processed replayed_within_window accepted_outside_window replayed_hash_mismatch : Status

-- `age <= window_seconds`, where the age of what cannot be parsed is 0
unfoldable pub within : ℕ → Time → Option Time → Bool
within seconds now none = true
within seconds now (some t) = leb now (t + seconds * 1000000)

abbrev stamp : String → Time → Entry
stamp payload_hash now = record { payload_hash = payload_hash; recorded_at = some now }

unfoldable pub record_known : ℕ → String → String → Time → Entry → Dict Entry → Status × Dict Entry
unfolding within
record_known window event_id payload_hash now entry store =
    if within window now entry.recorded_at
    then (replayed_within_window, store)
    else if entry.payload_hash == payload_hash
    then (accepted_outside_window, insert event_id (stamp payload_hash now) store)
    else (replayed_hash_mismatch, store)

-- `record`
unfoldable pub record_event : ℕ → String → String → Time → Dict Entry → Status × Dict Entry
record_event window event_id payload_hash now store = elim (lookup event_id store) [
  | none ↦ (processed, insert event_id (stamp payload_hash now) store)
  | some entry ↦ record_known window event_id payload_hash now entry store
]

-- an entry survives `prune` if its time can be parsed and is recent
unfoldable pub recent : ℕ → Time → Entry → Bool
recent seconds now entry = elim entry.recorded_at [
  | none ↦ false
  | some t ↦ leb now (t + seconds * 1000000)
]

unfoldable pub keep_recent : ℕ → Time → Dict Entry → Dict Entry
unfolding recent
keep_recent seconds now [] = []
keep_recent seconds now ((k, e) ∷ store) =
    let rest = keep_recent seconds now store in if recent seconds now e then (k, e) ∷ rest else rest

-- `prune`: the number removed, and the store that is left
unfoldable pub prune : ℕ → Option ℕ → Time → Dict Entry → ℕ × Dict Entry
unfolding keep_recent
prune window max_age now store =
    let seconds : ℕ = elim max_age [ none ↦ window | some m ↦ m ] in
    let kept = keep_recent seconds now store in
    let removed = length store - length kept in (removed, if ltb 0 removed then kept else store)
