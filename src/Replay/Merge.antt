-- ===== src/Replay/Merge.antt =====
-- A recording that is written and read is the recording.
use cmdshape.Base.{
  int_less_asym, int_less_trans, ℕ, suc, ◌+◌, ◌^◌, ◌<◌, ◌≤◌, true, List, [], ◌∷◌, ◌++◌, map, none,
  concat, ℤ, pos, negsuc, int_less, length, select, ◌≡◌, ◌⊎◌, refl, ap, ◌∙◌, inl, inr, Bool-cases,
  arith, All, IsStrict, AllAbove, IsAscending, insert_sorted, sort_by, insert_sorted-above,
  sort_by-ascending, select-IsAscending, select-AllAbove, sort_by-middle,
}
use cmdshape.Contracts.{Stream, stdout, stderr, stream_eq, stream_eq_sound}
use cmdshape.Replay.Base64.{IsBytes}
use cmdshape.Replay.Lines.{IsWritable, read_sequenced_reader-write}
use cmdshape.Replay.{
  ReplayEvent, sequence_less, write_sequenced_event, write_sequenced, write_sequenced_events,
  replayed, read_sequenced_reader, same_int, validate_from, validate_sequence, merge_and_validate,
  read_event_readers,
}

sequence_less-IsStrict : IsStrict sequence_less
sequence_less-IsStrict = record {
  asym = λ a b h. int_less_asym a.sequence b.sequence h;
  trans = λ a b c h k. int_less_trans a.sequence b.sequence c.sequence h k;
}

same_int-pos : (a : ℤ) (n : ℕ) → same_int a (pos n) ≡ true → a ≡ pos n
same_int-pos (pos a) n h = ap pos (ground (arith, h))
same_int-pos (negsuc a) n h = absurd (cc)

-- Events that are numbered from an index on.
abbrev pub IsNumbered : ℕ → List ReplayEvent → Type 0
IsNumbered idx [] = Unit
IsNumbered idx (e ∷ es) = (e.sequence ≡ pos idx) × IsNumbered (suc idx) es

pub validate_from-IsNumbered :
    (idx : ℕ) (es : List ReplayEvent) → validate_from idx es ≡ none → IsNumbered idx es
unfolding validate_from
validate_from-IsNumbered idx [] h = tt
validate_from-IsNumbered idx (e ∷ es) h = elim (Bool-cases (same_int e.sequence (pos idx))) [
  | inl same ↦ (
    same_int-pos e.sequence idx same,
    validate_from-IsNumbered (suc idx) es (rw (same, validate_from) at h),
  )
  | inr other ↦ absurd (let bad = rw (other, validate_from) at h in cc)
]

pub IsNumbered-AllAbove :
    (e : ReplayEvent) (m idx : ℕ) (es : List ReplayEvent)
    → e.sequence ≡ pos m
    → m < idx
    → IsNumbered idx es
    → AllAbove sequence_less e es
IsNumbered-AllAbove e m idx [] at_m h numbered = tt
IsNumbered-AllAbove e m idx (x ∷ es) at_m h (number, rest) =
    let below : sequence_less e x ≡ true =
      ap (λ i. int_less i x.sequence) at_m ∙ ap (int_less (pos m)) number ∙ ground (arith, h) in
    (below, IsNumbered-AllAbove e m (suc idx) es at_m (omega (arith, h)) rest)

IsNumbered-IsAscending :
    (idx : ℕ) (es : List ReplayEvent) → IsNumbered idx es → IsAscending sequence_less es
IsNumbered-IsAscending idx [] h = tt
IsNumbered-IsAscending idx (e ∷ es) (number, rest) = (
  IsNumbered-AllAbove e idx (suc idx) es number (omega arith) rest,
  IsNumbered-IsAscending (suc idx) es rest,
)

abbrev pub in_stream : Stream → List ReplayEvent → List ReplayEvent
in_stream stream events = select (λ e. stream_eq e.stream stream) events

-- What the program records: events of the two streams, with the bytes of their lines.
abbrev pub IsRecorded : ReplayEvent → Type 0
IsRecorded e = ((e.stream ≡ stdout) ⊎ (e.stream ≡ stderr)) × IsBytes e.line

-- Sorting the events of the two streams together restores their order.
sort-streams :
    (idx : ℕ) (es : List ReplayEvent)
    → IsNumbered idx es
    → All IsRecorded es
    → sort_by sequence_less (in_stream stdout es ++ in_stream stderr es) ≡ es
sort-streams idx [] numbered recorded = refl
sort-streams idx (e ∷ es) (number, rest) ((of, _), recorded) =
    let above = IsNumbered-AllAbove e idx (suc idx) es number (omega arith) rest in
    let sorted = sort-streams (suc idx) es rest recorded in
    let first = insert_sorted-above sequence_less e es above in
    elim of [
      | inl out ↦ simp out (ap (insert_sorted sequence_less e) sorted ∙ first)
      | inr err ↦ simp err (
          sort_by-middle sequence_less sequence_less-IsStrict e (in_stream stdout es)
            (in_stream stderr es)
            (select-AllAbove sequence_less (λ x. stream_eq x.stream stdout) e es above)
          ∙ ap (insert_sorted sequence_less e) sorted
          ∙ first)
    ]

pub in_stream-IsWritable :
    (stream : Stream) (idx : ℕ) (es : List ReplayEvent)
    → idx + length es ≤ 2 ^ 63
    → IsNumbered idx es
    → All IsRecorded es
    → All (IsWritable stream) (in_stream stream es)
in_stream-IsWritable stream idx [] small numbered recorded = tt
in_stream-IsWritable stream idx (e ∷ es) small (number, rest) ((_, bytes), recorded) =
    let later = in_stream-IsWritable stream (suc idx) es (omega (arith, small)) rest recorded in
    elim (Bool-cases (stream_eq e.stream stream)) [
      | inl same ↦
          rw (same, All)
            (
              ((idx, number, omega (arith, small)), stream_eq_sound e.stream stream same, bytes),
              later,
            )
      | inr other ↦ rw other later
    ]

-- What is written of a stream is in the order of the recording.
pub write_sequenced_events-in_stream :
    (stream : Stream) (events : List ReplayEvent)
    → validate_sequence events ≡ none
    → write_sequenced_events events stream
      ≡ concat (map write_sequenced_event (in_stream stream events))
unfolding write_sequenced_events write_sequenced validate_sequence
write_sequenced_events-in_stream stream events valid =
    let ascending = IsNumbered-IsAscending 0 events (validate_from-IsNumbered 0 events valid) in
    ap (λ (es : List ReplayEvent). concat (map write_sequenced_event es))
      (sort_by-ascending sequence_less (in_stream stream events)
        (select-IsAscending sequence_less (λ e. stream_eq e.stream stream) events ascending))

-- The events of a recording, numbered without a gap, are written to a text for each stream, plain or
-- encoded as their lines require; reading the two texts and merging them gives back the same events
-- in the same order, whatever bytes their lines have.
pub read_event_readers-write :
    (events : List ReplayEvent)
    → length events ≤ 2 ^ 63
    → validate_sequence events ≡ none
    → All IsRecorded events
    → read_event_readers
        (write_sequenced_events events stdout)
        (write_sequenced_events events stderr)
      ≡ replayed events
unfolding read_event_readers validate_sequence merge_and_validate
read_event_readers-write events small valid recorded =
    let numbered = validate_from-IsNumbered 0 events valid in
    let read : (s : Stream)
        → read_sequenced_reader s (write_sequenced_events events s)
          ≡ replayed (in_stream s events) =
      λ s.
        ap (read_sequenced_reader s) (write_sequenced_events-in_stream s events valid)
        ∙ read_sequenced_reader-write s (in_stream s events)
            (in_stream-IsWritable s 0 events (omega (arith, small)) numbered recorded) in
    let sorted = sort-streams 0 events numbered recorded in
    rw (read stdout, read stderr, merge_and_validate, sorted, valid) (ap replayed sorted)
