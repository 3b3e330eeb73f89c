-- ===== src/Recovery/Stored.antt =====
-- What is stored of a failed command can be read as a recording of its output.
use cmdshape.Base.{
  ℕ, ◌+◌, ◌≤◌, ◌<◌, ◌^◌, true, false, List, [], ◌∷◌, map, none, some, Text, ℤ, length, All, ltb,
  ◌≡◌, ◌⊎◌, refl, ap, inl, inr, Bool-cases, arith,
}
use cmdshape.Contracts.{stdout, stderr}
use cmdshape.Replay.{
  ReplayEvent, validate_sequence, write_sequenced_events, replayed, read_event_readers,
}
use cmdshape.Replay.Merge.{IsRecorded, read_event_readers-write}
use cmdshape.Recovery.Order.{HasDistinctNames}
use cmdshape.Recovery.Kept.{has_entry-rotate}
use cmdshape.Recovery.{
  max_artifact_size, Entry, RecoveryEvent, prepared, oversized, collect_events,
  prepare_recovery_events, artifact, nothing, store, rotate, is_success, is_candidate, newer,
  has_entry,
}

abbrev pub as_replay : RecoveryEvent → ReplayEvent
as_replay e = record { sequence = e.sequence; stream = e.stream; line = e.payload }

abbrev pub size_of : List RecoveryEvent → ℕ
size_of [] = 0
size_of (e ∷ events) = length e.payload + size_of events

collect_events-all :
    (total : ℕ) (events : List RecoveryEvent)
    → total + size_of events ≤ max_artifact_size
    → collect_events total events ≡ some (map as_replay events, total + size_of events)
unfolding collect_events
collect_events-all total [] h = ap (λ n. some ([], n)) (omega arith)
collect_events-all total (e ∷ events) h =
    let small : ltb max_artifact_size (total + length e.payload) ≡ false = ground (arith, h) in
    let later = collect_events-all (total + length e.payload) events (omega (arith, h)) in
    let sum : total + length e.payload + size_of events
        ≡ total + (length e.payload + size_of events) =
      omega arith in
    rw (small, later, sum) refl

collect_events-none :
    (total : ℕ) (events : List RecoveryEvent)
    → total ≤ max_artifact_size
    → max_artifact_size < total + size_of events
    → collect_events total events ≡ none
unfolding collect_events
collect_events-none total [] h k = absurd (omega (arith, h, k))
collect_events-none total (e ∷ events) h k =
    elim (Bool-cases (ltb max_artifact_size (total + length e.payload))) [
      | inl large ↦ rw large refl
      | inr small ↦
          let later =
            collect_events-none (total + length e.payload) events (ground (arith, small))
              (omega (arith, k)) in
          rw (small, later) refl
    ]

prepare-all :
    (events : List RecoveryEvent)
    → size_of events ≤ max_artifact_size
    → validate_sequence (map as_replay events) ≡ none
    → prepare_recovery_events events ≡ prepared (map as_replay events) (size_of events)
unfolding prepare_recovery_events
prepare-all events h valid =
    let collected = collect_events-all 0 events (omega (arith, h)) in
    let size : 0 + size_of events ≡ size_of events = omega arith in
    rw (collected, prepare_recovery_events, valid, size) refl

prepare-oversized :
    (events : List RecoveryEvent)
    → max_artifact_size < size_of events
    → prepare_recovery_events events ≡ oversized
unfolding prepare_recovery_events
prepare-oversized events h =
    rw (collect_events-none 0 events (omega arith) (omega (arith, h)), prepare_recovery_events) refl

-- The events of a command that failed, numbered without a gap and of a megabyte at most, are stored
-- with their size, where the new entry is a directory that is not too old, has a name of its own and
-- comes before all others; the directory is rotated with the new entry in it, which the rotation
-- leaves there; and what is stored, read as a recording, is these events, byte for byte and in order.
pub store_lem :
    (cutoff exit_code : ℤ) (entry : Entry) (first : RecoveryEvent) (events : List RecoveryEvent)
    (entries : List Entry)
    → is_success exit_code ≡ false
    → size_of (first ∷ events) ≤ max_artifact_size
    → length (map as_replay (first ∷ events)) ≤ 2 ^ 63
    → validate_sequence (map as_replay (first ∷ events)) ≡ none
    → All IsRecorded (map as_replay (first ∷ events))
    → is_candidate cutoff entry ≡ true
    → HasDistinctNames (entry ∷ entries)
    → All (λ e. newer entry e ≡ true) entries
    → (out : Text) × (err : Text) × (store cutoff entry (first ∷ events) exit_code entries
        ≡ artifact out err (size_of (first ∷ events)) (rotate cutoff (entry ∷ entries)))
      × (has_entry entry.name (rotate cutoff (entry ∷ entries)) ≡ true)
      × (read_event_readers out err ≡ replayed (map as_replay (first ∷ events)))
unfolding store
store_lem cutoff exit_code entry first events entries fails small few valid recorded on apart
      above =
    let replay_events = map as_replay (first ∷ events) in
    let there = has_entry-rotate cutoff entry entries on apart above in
    (
      write_sequenced_events replay_events stdout,
      write_sequenced_events replay_events stderr,
      rw (fails, prepare-all (first ∷ events) small valid, store, there) refl,
      there,
      read_event_readers-write replay_events few valid recorded,
    )

-- Nothing is stored of a command that succeeded, nor of one with more than a megabyte of output,
-- whatever the numbers of its events.
pub store-nothing :
    (cutoff exit_code : ℤ) (entry : Entry) (events : List RecoveryEvent) (entries : List Entry)
    → (is_success exit_code ≡ true) ⊎ (max_artifact_size < size_of events)
    → store cutoff entry events exit_code entries ≡ nothing
unfolding store
store-nothing cutoff exit_code entry [] entries h = refl
store-nothing cutoff exit_code entry (first ∷ events) entries (inl success) = rw success refl
store-nothing cutoff exit_code entry (first ∷ events) entries (inr large) =
    elim (Bool-cases (is_success exit_code)) [
      | inl success ↦ rw success refl
      | inr fails ↦ rw (fails, prepare-oversized (first ∷ events) large, store) refl
    ]
