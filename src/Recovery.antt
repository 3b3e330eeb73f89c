-- ===== src/Recovery.antt =====
-- internal/recovery/recovery.go: the raw output of failed commands that is kept for a while. The
-- directory of the recordings is the list of its entries, a time is the number of its nanoseconds,
-- and no system call fails.
pub mod Order
pub mod Kept
pub mod Newest
pub mod Stored
mod Tests
use cmdshape.Base.{
  any, ℕ, ◌+◌, ◌*◌, Bool, true, false, not, ◌&&◌, ◌||◌, List, [], ◌∷◌, map, Option, none, some,
  Text, ℤ, pos, int_less, length, drop, select, sort_by, text_less, text_eq, ltb, ◌==◌, negsuc,
  if◌then◌else◌,
}
use cmdshape.Contracts.{Stream, stdout, stderr}
use cmdshape.Replay.{ReplayEvent, ReplayError, validate_sequence, write_sequenced_events}

abbrev pub max_artifacts : ℕ
max_artifacts = 20

abbrev pub max_artifact_size : ℕ
max_artifact_size = 1024 * 1024

-- An entry of the directory; a `recoveryCandidate` is one that is a directory.
pub record Entry : Type 0 where
  pub name : Text
  pub is_dir : Bool
  pub mod_time : ℤ

-- `compareRecoveryCandidates`, where it is below 0: the newer one first, and among those of one time
-- the higher name.
unfoldable pub newer : Entry → Entry → Bool
newer left right =
    int_less right.mod_time left.mod_time
    || (not (int_less left.mod_time right.mod_time) && text_less right.name left.name)

abbrev pub is_candidate : ℤ → Entry → Bool
is_candidate cutoff e = e.is_dir && not (int_less e.mod_time cutoff)

-- `os.RemoveAll`
unfoldable pub remove_all : Text → List Entry → List Entry
remove_all name entries = select (λ e. not (text_eq e.name name)) entries

-- The candidates that `retainedRecoveryCandidates` returns.
unfoldable pub retained_recovery_candidates : ℤ → List Entry → List Entry
retained_recovery_candidates cutoff entries = select (is_candidate cutoff) entries

-- The directory behind it: a directory that is too old is gone.
unfoldable pub remove_expired : ℤ → List Entry → List Entry
remove_expired cutoff entries = select (λ e. not e.is_dir || is_candidate cutoff e) entries

-- The loop of `removeOverflowRecoveryArtifacts`
unfoldable pub remove_each : List Entry → List Entry → List Entry
remove_each [] entries = entries
remove_each (item ∷ items) entries = remove_each items (remove_all item.name entries)

unfoldable pub remove_overflow : List Entry → List Entry → List Entry
remove_overflow items entries = remove_each (drop max_artifacts items) entries

unfoldable pub rotate : ℤ → List Entry → List Entry
rotate cutoff entries =
    remove_overflow (sort_by newer (retained_recovery_candidates cutoff entries))
      (remove_expired cutoff entries)

-- `Event`
pub record RecoveryEvent : Type 0 where
  pub sequence : ℤ
  pub stream : Stream
  pub payload : Text

pub data Prepared : Type 0 where
  prepared : List ReplayEvent → ℕ → Prepared
  oversized : Prepared
  invalid : ReplayError → Prepared

-- The loop of `prepareRecoveryEvents`; `none` where the size goes beyond the limit.
unfoldable pub collect_events : ℕ → List RecoveryEvent → Option (List ReplayEvent × ℕ)
collect_events total [] = some ([], total)
collect_events total (event ∷ events) =
    let size = total + length event.payload in
    let rest = collect_events size events in
    if ltb max_artifact_size size then none else elim rest [
      | none ↦ none
      | some (replay_events, whole) ↦ some (
        record { sequence = event.sequence; stream = event.stream; line = event.payload }
            ∷ replay_events,
        whole,
      )
    ]

unfoldable pub prepare_recovery_events : List RecoveryEvent → Prepared
prepare_recovery_events events = elim (collect_events 0 events) [
  | none ↦ oversized
  | some (replay_events, total) ↦ elim (validate_sequence replay_events) [
    | some e ↦ invalid e
    | none ↦ prepared replay_events total
  ]
]

-- `os.Stat` on the directory of a recording.
unfoldable pub has_entry : Text → List Entry → Bool
has_entry name entries = any (λ e. text_eq e.name name) entries

-- What `Store` leaves: nothing, an error, the error of `os.Stat` where the rotation has removed the new
-- recording, or the two texts of an artifact with its size, and the
-- directory once the artifact's entry is in it and it has been rotated.
pub data Outcome : Type 0 where
  nothing : Outcome
  failed : ReplayError → Outcome
  not_found : Outcome
  artifact : Text → Text → ℕ → List Entry → Outcome

abbrev pub is_success : ℤ → Bool
is_success (pos n) = n == 0
is_success (negsuc n) = false

unfoldable pub store : ℤ → Entry → List RecoveryEvent → ℤ → List Entry → Outcome
store cutoff entry [] exit_code entries = nothing
store cutoff entry (event ∷ events) exit_code entries =
    if is_success exit_code then nothing else elim (prepare_recovery_events (event ∷ events)) [
      | oversized ↦ nothing
      | invalid e ↦ failed e
      | prepared replay_events total ↦
          let rotated = rotate cutoff (entry ∷ entries) in
          if has_entry entry.name rotated
          then artifact (write_sequenced_events replay_events stdout)
              (write_sequenced_events replay_events stderr) total rotated
          else not_found
    ]
