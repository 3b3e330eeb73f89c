-- ===== src/Replay/Merged.antt =====
-- internal/replay/fixture.go: ReadMergedEventReaders, which reads the two texts of a recording side by
-- side and yields their events one by one.
pub mod Written
use cmdshape.Base.{
  ℕ, zero, suc, ◌+◌, ◌^◌, ◌<◌, ◌≤◌, Bool, true, false, not, ◌&&◌, List, [], ◌∷◌, ◌++◌, map, Option,
  none, some, Text, concat, ℤ, pos, int_less, length, length-append, select, ◌≡◌, ◌⊎◌, refl, sym,
  ap, ◌∙◌, inl, inr, Bool-cases, arith, All, AllAbove, select-AllAbove, if◌then◌else◌, ltb,
}
use cmdshape.Contracts.{Stream, stdout, stderr, stream_eq}
use cmdshape.Replay.Lines.{IsWritable, parse_event-write, write_first}
use cmdshape.Replay.Merge.{
  IsNumbered, validate_from-IsNumbered, IsNumbered-AllAbove, in_stream, IsRecorded,
  in_stream-IsWritable, write_sequenced_events-in_stream,
}
use cmdshape.Replay.{
  ReplayEvent, ReplayError, sequence_break, sequence_less, write_sequenced_event,
  write_sequenced_events, Replayed, replayed, replay_error, ◌>>-◌, split_line, parse_event,
  same_int, validate_sequence,
}

-- `eventReader.next`: the event and what is left; `none` at the end.
unfoldable pub next_event : Stream → Text → Replayed (Option (ReplayEvent × Text))
next_event stream [] = replayed none
next_event stream (c ∷ input) =
    let (line, rest) = split_line (c ∷ input) in
    parse_event stream line >>- λ event. replayed (some (event, rest))

-- The side that is next, `true` for the left one, with its event and what is left of it.
unfoldable pub choose :
    Option (ReplayEvent × Text) → Option (ReplayEvent × Text) → Option (Bool × (ReplayEvent × Text))
choose none none = none
choose (some l) none = some (true, l)
choose none (some r) = some (false, r)
choose (some l) (some r) =
    if int_less l.0.sequence r.0.sequence then some (true, l) else some (false, r)

-- The events that are yielded, and the error behind them.
abbrev pub Yielded : Type 0
Yielded = List ReplayEvent × Option ReplayError

unfoldable pub yield_event : ReplayEvent → Yielded → Yielded
yield_event event (events, err) = (event ∷ events, err)

-- The loop, on fuel: a round yields an event.
unfoldable pub merged_loop :
    ℕ → ℕ → Option (ReplayEvent × Text) → Option (ReplayEvent × Text) → Yielded
merged_loop zero expected left right = ([], none)
merged_loop (suc fuel) expected left right = elim (choose left right) [
  | none ↦ ([], none)
  | some (use_left, (current, rest)) ↦
      if same_int current.sequence (pos expected)
      then yield_event current (
          if use_left
          then elim (next_event stdout rest) [
            | replay_error e ↦ ([], some e)
            | replayed next ↦ merged_loop fuel (suc expected) next right
          ]
          else elim (next_event stderr rest) [
            | replay_error e ↦ ([], some e)
            | replayed next ↦ merged_loop fuel (suc expected) left next
          ])
      else ([], some (sequence_break (pos expected) current.sequence))
]

-- `ReadMergedEventReaders`; there are no more events than bytes.
unfoldable pub read_merged_event_readers : Text → Text → Yielded
read_merged_event_readers out err = elim (next_event stdout out) [
  | replay_error e ↦ ([], some e)
  | replayed left ↦ elim (next_event stderr err) [
    | replay_error e ↦ ([], some e)
    | replayed right ↦ merged_loop (suc (length out + length err)) 0 left right
  ]
]
