-- ===== src/Replay/Lines.antt =====
-- A line that is written for an event is read as the event.
use cmdshape.Base.{
  ℕ, zero, suc, ◌^◌, ◌<◌, ◌≤◌, false, List, [], ◌∷◌, ◌++◌, map, some, Text, concat, ℤ, pos, length,
  length-append, cut, ◌==◌, ◌≡◌, refl, sym, ap, ◌∙◌, arith, All, All-append, All-map, append_assoc,
}
use cmdshape.Contracts.{Stream}
use cmdshape.Replay.Base64.{IsBytes}
use cmdshape.Replay.Numbers.{
  IsDigit, format_sequence_first, format_sequence-IsDigit, atoi-format_sequence,
}
use cmdshape.Replay.{
  ReplayEvent, format_sequence, atoi, write_payload, write_sequenced_event, decode_replay_payload,
  Replayed, replayed, split_line, parse_event, read_loop, read_sequenced_reader, ◌>>-◌,
}
use cmdshape.Replay.Payload.{IsInLine, write_payload-IsPayload, cut-append, split_line-append}

-- An event that `write_sequenced_event` can write: its number is not negative.
abbrev pub IsWritable : Stream → ReplayEvent → Type 0
IsWritable stream e =
    ((n : ℕ) × (e.sequence ≡ pos n) × (n < 2 ^ 63)) × (e.stream ≡ stream) × IsBytes e.line

parse_event-parts :
    (stream : Stream) (line : Text) (d : ℕ) (u payload body : Text) (sequence : ℤ)
    → cut b'|' line ≡ some (d ∷ u, payload)
    → atoi (d ∷ u) ≡ some sequence
    → decode_replay_payload payload ≡ some body
    → parse_event stream line
      ≡ replayed (record { sequence = sequence; stream = stream; line = body })
unfolding parse_event
parse_event-parts stream line d u payload body sequence e f g = rw (e, f, g, parse_event) refl

pub parse_event-write :
    (stream : Stream) (e : ReplayEvent) (rest : Text)
    → IsWritable stream e
    → (split_line (write_sequenced_event e ++ rest) ≡ (write_sequenced_event e, rest))
      × (parse_event stream (write_sequenced_event e) ≡ replayed e)
unfolding write_sequenced_event
parse_event-write stream e rest ((n, number, small), named, bytes) =
    let ((a, ends, in_line), decodes) = write_payload-IsPayload e.line bytes in
    let digits = format_sequence-IsDigit n in
    let s = format_sequence (pos n) in
    let in_digits : IsInLine s =
      All-map IsDigit (λ c. (c == 10) ≡ false) (λ c d. ground (arith, d)) s digits in
    let no_bar : All (λ c. (c == b'|') ≡ false) s =
      All-map IsDigit (λ c. (c == b'|') ≡ false) (λ c d. ground (arith, d)) s digits in
    let parts = s ++ b'|' ∷ a in
    let written : s ++ b'|' ∷ write_payload e.line ≡ parts ++ 10 ∷ [] =
      ap (λ (t : Text). s ++ b'|' ∷ t) ends ∙ sym (append_assoc s (b'|' ∷ a) (10 ∷ [])) in
    let whole : IsInLine parts =
      All-append (λ c. (c == 10) ≡ false) s (b'|' ∷ a) in_digits (refl, in_line) in
    let (d, u, start) = format_sequence_first n in
    let cut_here : cut b'|' (s ++ b'|' ∷ write_payload e.line)
        ≡ some (d ∷ u, write_payload e.line) =
      cut-append s (write_payload e.line) no_bar
      ∙ ap (λ (t : Text). some (t, write_payload e.line)) start in
    let number_here : atoi (d ∷ u) ≡ some (pos n) =
      ap atoi (sym start) ∙ atoi-format_sequence n small in
    rw number (
      ap (λ (t : Text). split_line (t ++ rest)) written
          ∙ ap split_line (append_assoc parts (10 ∷ []) rest)
          ∙ split_line-append parts rest whole
          ∙ ap (λ (t : Text). (t, rest)) (sym written),
      parse_event-parts stream _ d u (write_payload e.line) e.line (pos n) cut_here number_here
            decodes
          ∙ (ap (λ (x : Stream). replayed (record { sequence = pos n; stream = x; line = e.line }))
              (sym named)),
    )

read_loop_step :
    (fuel : ℕ) (stream : Stream) (c : ℕ) (t input line rest : Text) (e : ReplayEvent)
    → input ≡ c ∷ t
    → split_line input ≡ (line, rest)
    → parse_event stream line ≡ replayed e
    → read_loop (suc fuel) stream input
      ≡ (read_loop fuel stream rest >>- λ events. replayed (e ∷ events))
unfolding read_loop
read_loop_step fuel stream c t input line rest e start split parsed =
    let parts : split_line (c ∷ t) ≡ (line, rest) = ap split_line (sym start) ∙ split in
    ap (read_loop (suc fuel) stream) start ∙ rw (parts, parsed) refl

pub write_first :
    (stream : Stream) (e : ReplayEvent)
    → IsWritable stream e
    → (c : ℕ) × (t : Text) × (write_sequenced_event e ≡ c ∷ t)
unfolding write_sequenced_event
write_first stream e ((n, number, small), _, _) =
    let (c, t, start) = format_sequence_first n in
    (
      c,
      t ++ b'|' ∷ write_payload e.line,
      ap (λ i. format_sequence i ++ b'|' ∷ write_payload e.line) number
          ∙ ap (λ (s : Text). s ++ b'|' ∷ write_payload e.line) start,
    )

-- The events of one stream are read as they were written.
read_loop-write :
    (fuel : ℕ) (stream : Stream) (es : List ReplayEvent)
    → All (IsWritable stream) es
    → length (concat (map write_sequenced_event es)) ≤ fuel
    → read_loop fuel stream (concat (map write_sequenced_event es)) ≡ replayed es
read_loop-write zero stream [] h f = unfold read_loop in refl
read_loop-write (suc fuel) stream [] h f = unfold read_loop in refl
read_loop-write zero stream (e ∷ es) (first, rest) f =
    let (c, t, start) = write_first stream e first in
    let size = length-append (write_sequenced_event e) (concat (map write_sequenced_event es)) in
    let one = ap length start in absurd (omega (arith, size, one, f))
read_loop-write (suc fuel) stream (e ∷ es) (first, rest) f =
    let more = concat (map write_sequenced_event es) in
    let (c, t, start) = write_first stream e first in
    let (split, parsed) = parse_event-write stream e more first in
    let size = length-append (write_sequenced_event e) more in
    let one = ap length start in
    read_loop_step fuel stream c (t ++ more) (write_sequenced_event e ++ more)
      (write_sequenced_event e) more e (ap (λ (s : Text). s ++ more) start) split parsed
    ∙ ap (λ (r : Replayed (List ReplayEvent)). r >>- λ events. replayed (e ∷ events))
        (read_loop-write fuel stream es rest (omega (arith, size, one, f)))

pub read_sequenced_reader-write :
    (stream : Stream) (es : List ReplayEvent)
    → All (IsWritable stream) es
    → read_sequenced_reader stream (concat (map write_sequenced_event es)) ≡ replayed es
unfolding read_sequenced_reader
read_sequenced_reader-write stream es h = read_loop-write _ stream es h (omega arith)
