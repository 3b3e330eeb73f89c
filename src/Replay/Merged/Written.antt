-- ===== src/Replay/Merged/Written.antt =====
-- What is yielded of a written recording.
use cmdshape.Base.{
  int_less_asym, ℕ, zero, suc, ◌+◌, ◌^◌, ◌≤◌, true, false, List, [], ◌∷◌, ◌++◌, map, Option, none,
  some, Text, concat, pos, length, length-append, ◌≡◌, refl, sym, ap, ◌∙◌, inl, inr, arith, All,
  AllAbove, select-AllAbove,
}
use cmdshape.Contracts.{Stream, stdout, stderr, stream_eq}
use cmdshape.Replay.Lines.{IsWritable, parse_event-write, write_first}
use cmdshape.Replay.Merge.{
  IsNumbered, validate_from-IsNumbered, IsNumbered-AllAbove, in_stream, IsRecorded,
  in_stream-IsWritable, write_sequenced_events-in_stream,
}
use cmdshape.Replay.{
  ReplayEvent, sequence_less, write_sequenced_event, write_sequenced_events, replayed, split_line,
  same_int, validate_sequence,
}
use cmdshape.Replay.Merged.{next_event, choose, yield_event, merged_loop, read_merged_event_readers}

written : List ReplayEvent → Text
written es = concat (map write_sequenced_event es)

-- The reader in front of what is written for some events.
pending : List ReplayEvent → Option (ReplayEvent × Text)
pending [] = none
pending (e ∷ es) = some (e, written es)

next_event-written :
    (stream : Stream) (es : List ReplayEvent)
    → All (IsWritable stream) es
    → next_event stream (written es) ≡ replayed (pending es)
unfolding next_event written pending
next_event-written stream [] h = refl
next_event-written stream (e ∷ es) (first, rest) =
    let more = written es in
    let (c, t, start) = write_first stream e first in
    let (split, parsed) = parse_event-write stream e more first in
    let begin = ap (λ (s : Text). s ++ more) start in
    let parts : split_line (c ∷ (t ++ more)) ≡ (write_sequenced_event e, more) =
      ap split_line (sym begin) ∙ split in
    ap (next_event stream) begin ∙ rw (parts, parsed) refl

-- The event that is next in the recording is the one that is chosen.
choose-stdout :
    (e : ReplayEvent) (rest : Text) (err : List ReplayEvent)
    → AllAbove sequence_less e err
    → choose (some (e, rest)) (pending err) ≡ some (true, (e, rest))
unfolding choose pending
choose-stdout e rest [] h = refl
choose-stdout e rest (r ∷ err) (below, _) = rw below refl

choose-stderr :
    (e : ReplayEvent) (rest : Text) (out : List ReplayEvent)
    → AllAbove sequence_less e out
    → choose (pending out) (some (e, rest)) ≡ some (false, (e, rest))
unfolding choose pending
choose-stderr e rest [] h = refl
choose-stderr e rest (l ∷ out) (below, _) = rw (int_less_asym e.sequence l.sequence below) refl

same_int_numbered :
    (e : ReplayEvent) (n : ℕ) → e.sequence ≡ pos n → same_int e.sequence (pos n) ≡ true
same_int_numbered e n h = ap (λ i. same_int i (pos n)) h ∙ ground arith

merged_loop-left :
    (fuel idx : ℕ) (left right next : Option (ReplayEvent × Text)) (e : ReplayEvent) (rest : Text)
    → choose left right ≡ some (true, (e, rest))
    → same_int e.sequence (pos idx) ≡ true
    → next_event stdout rest ≡ replayed next
    → merged_loop (suc fuel) idx left right ≡ yield_event e (merged_loop fuel (suc idx) next right)
unfolding merged_loop
merged_loop-left fuel idx left right next e rest c s n = rw (c, s, n, merged_loop) refl

merged_loop-right :
    (fuel idx : ℕ) (left right next : Option (ReplayEvent × Text)) (e : ReplayEvent) (rest : Text)
    → choose left right ≡ some (false, (e, rest))
    → same_int e.sequence (pos idx) ≡ true
    → next_event stderr rest ≡ replayed next
    → merged_loop (suc fuel) idx left right ≡ yield_event e (merged_loop fuel (suc idx) left next)
unfolding merged_loop
merged_loop-right fuel idx left right next e rest c s n = rw (c, s, n, merged_loop) refl

merged_loop-written :
    (fuel idx : ℕ) (es : List ReplayEvent)
    → length es ≤ fuel
    → idx + length es ≤ 2 ^ 63
    → IsNumbered idx es
    → All IsRecorded es
    → merged_loop (suc fuel) idx (pending (in_stream stdout es)) (pending (in_stream stderr es))
      ≡ (es, none)
unfolding pending
merged_loop-written fuel idx [] f small numbered recorded = unfold merged_loop choose in refl
merged_loop-written zero idx (e ∷ es) f small numbered recorded = absurd (omega (arith, f))
merged_loop-written (suc fuel) idx (e ∷ es) f small (number, rest) ((of, bytes), recorded) =
    let out_es = in_stream stdout es in
    let err_es = in_stream stderr es in
    let above = IsNumbered-AllAbove e idx (suc idx) es number (omega arith) rest in
    let above_in : (s : Stream) → AllAbove sequence_less e (in_stream s es) =
      λ s. select-AllAbove sequence_less (λ x. stream_eq x.stream s) e es above in
    let here = same_int_numbered e idx number in
    let next : (s : Stream)
        → next_event s (written (in_stream s es)) ≡ replayed (pending (in_stream s es)) =
      λ s.
        next_event-written s (in_stream s es)
          (in_stream-IsWritable s (suc idx) es (omega (arith, small)) rest recorded) in
    let later =
      merged_loop-written fuel (suc idx) es (omega (arith, f)) (omega (arith, small)) rest
        recorded in
    let yielded : yield_event e (merged_loop (suc fuel) (suc idx) (pending out_es) (pending err_es))
        ≡ (e ∷ es, none) =
      ap (yield_event e) later ∙ unfold yield_event in refl in
    elim of [
      | inl out ↦
          rw (ap (λ s. stream_eq s stdout) out, ap (λ s. stream_eq s stderr) out)
            (merged_loop-left (suc fuel) idx _ (pending err_es) (pending out_es) e (written out_es)
                (choose-stdout e (written out_es) err_es (above_in stderr)) here (next stdout)
              ∙ yielded)
      | inr err ↦
          rw (ap (λ s. stream_eq s stdout) err, ap (λ s. stream_eq s stderr) err)
            (merged_loop-right (suc fuel) idx (pending out_es) _ (pending err_es) e (written err_es)
                (choose-stderr e (written err_es) out_es (above_in stdout)) here (next stderr)
              ∙ yielded)
    ]

-- A written event has a byte at least, so that the fuel is enough.
length-written :
    (stream : Stream) (es : List ReplayEvent)
    → All (IsWritable stream) es
    → length es ≤ length (written es)
unfolding written
length-written stream [] h = omega arith
length-written stream (e ∷ es) (first, rest) =
    let (c, t, start) = write_first stream e first in
    omega (
      arith,
      length-append (write_sequenced_event e) (written es),
      ap length start,
      length-written stream es rest,
    )

length-streams :
    (es : List ReplayEvent)
    → All IsRecorded es
    → length es ≤ length (in_stream stdout es) + length (in_stream stderr es)
length-streams [] h = omega arith
length-streams (e ∷ es) ((inl out, _), recorded) =
    rw (ap (λ s. stream_eq s stdout) out, ap (λ s. stream_eq s stderr) out)
      (omega (arith, length-streams es recorded))
length-streams (e ∷ es) ((inr err, _), recorded) =
    rw (ap (λ s. stream_eq s stdout) err, ap (λ s. stream_eq s stderr) err)
      (omega (arith, length-streams es recorded))

written-stream :
    (s : Stream) (events : List ReplayEvent)
    → validate_sequence events ≡ none
    → write_sequenced_events events s ≡ written (in_stream s events)
unfolding written
written-stream s events valid = write_sequenced_events-in_stream s events valid

read_merged-loop :
    (out err : Text) (left right : Option (ReplayEvent × Text))
    → next_event stdout out ≡ replayed left
    → next_event stderr err ≡ replayed right
    → read_merged_event_readers out err ≡ merged_loop (suc (length out + length err)) 0 left right
unfolding read_merged_event_readers
read_merged-loop out err left right e f = rw (e, f, read_merged_event_readers) refl

-- Reading the two texts of a recording side by side, as it is done for output that is too large to
-- hold, yields the events of the recording in their order and then ends without an error; the rounds
-- of the model's loop are enough for it.
pub read_merged_event_readers-write :
    (events : List ReplayEvent)
    → length events ≤ 2 ^ 63
    → validate_sequence events ≡ none
    → All IsRecorded events
    → read_merged_event_readers
        (write_sequenced_events events stdout)
        (write_sequenced_events events stderr)
      ≡ (events, none)
unfolding validate_sequence
read_merged_event_readers-write events small valid recorded =
    let numbered = validate_from-IsNumbered 0 events valid in
    let writable : (s : Stream) → All (IsWritable s) (in_stream s events) =
      λ s. in_stream-IsWritable s 0 events (omega (arith, small)) numbered recorded in
    let enough : length events
        ≤ length (written (in_stream stdout events)) + length (written (in_stream stderr events)) =
      omega (
        arith,
        length-streams events recorded,
        length-written stdout (in_stream stdout events) (writable stdout),
        length-written stderr (in_stream stderr events) (writable stderr),
      ) in
    let out = written (in_stream stdout events) in
    let err = written (in_stream stderr events) in
    rw (written-stream stdout events valid, written-stream stderr events valid)
      (read_merged-loop out err (pending (in_stream stdout events))
          (pending (in_stream stderr events))
          (next_event-written stdout (in_stream stdout events) (writable stdout))
          (next_event-written stderr (in_stream stderr events) (writable stderr))
        ∙ merged_loop-written (length out + length err) 0 events enough (omega (arith, small))
            numbered recorded)
