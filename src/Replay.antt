-- ===== src/Replay.antt =====
-- internal/replay/fixture.go: a recording of the output of a command, a text for each stream with a
-- line for each event, and how the two are written, read and merged. A text is a list of bytes.
pub mod Base64
pub mod Numbers
pub mod Payload
pub mod Lines
pub mod Merge
pub mod Merged
mod Tests
use cmdshape.Base.{
  ℕ, zero, suc, ◌+◌, ◌-◌, ◌^◌, Bool, true, false, not, ◌||◌, ◌&&◌, List, [], ◌∷◌, ◌++◌, map, Option,
  none, some, Text, codes, concat, ℤ, pos, negsuc, int_less, select, length, drop, drop_last,
  has_prefix, has_suffix, cut, sort_by, ltb, leb, ◌==◌, if◌then◌else◌, ◌>>=◌,
}
use cmdshape.Contracts.{Stream, stdout, stderr, stream_eq}
use cmdshape.Version.Decimal.{parse_uint, format_uint}
use cmdshape.Replay.Base64.{encode_base64, decode_base64}

-- `Event`
pub record ReplayEvent : Type 0 where
  pub sequence : ℤ
  pub stream : Stream
  pub line : Text

unfoldable pub zeros : ℕ → Text
zeros zero = []
zeros (suc n) = b'0' ∷ zeros n

-- `%05d`
unfoldable pub format_sequence : ℤ → Text
format_sequence (pos n) = zeros (5 - length (format_uint n)) ++ format_uint n
format_sequence (negsuc n) =
    b'-' ∷ (zeros (4 - length (format_uint (suc n))) ++ format_uint (suc n))

abbrev in_int64 : ℕ → Option ℤ
in_int64 n = if ltb n (2 ^ 63) then some (pos n) else none

abbrev negated : ℕ → Option ℤ
negated zero = some (pos 0)
negated (suc n) = if ltb n (2 ^ 63) then some (negsuc n) else none

-- `strconv.Atoi`, where an `int` has 64 bits
unfoldable pub atoi : Text → Option ℤ
atoi [] = none
atoi (c ∷ s) =
    if c == b'-'
    then parse_uint s >>= negated
    else if c == b'+'
    then parse_uint s >>= in_int64
    else parse_uint (c ∷ s) >>= in_int64

abbrev pub encoded_payload_prefix : Text
encoded_payload_prefix = codes "@cmdshape/base64:"

-- `strings.Count(line, "\n")`
abbrev pub count_breaks : Text → ℕ
count_breaks s = length (select (λ c. c == 10) s)

unfoldable pub replay_payload_needs_encoding : Text → Bool
replay_payload_needs_encoding line =
    if not (has_suffix line (10 ∷ [])) || not (count_breaks line == 1)
    then true
    else has_prefix line encoded_payload_prefix

unfoldable pub write_payload : Text → Text
write_payload line =
    if replay_payload_needs_encoding line
    then encoded_payload_prefix ++ (encode_base64 line ++ 10 ∷ [])
    else line

-- `WriteSequencedEvent`
unfoldable pub write_sequenced_event : ReplayEvent → Text
write_sequenced_event event = format_sequence event.sequence ++ b'|' ∷ write_payload event.line

abbrev pub sequence_less : ReplayEvent → ReplayEvent → Bool
sequence_less a b = int_less a.sequence b.sequence

-- `WriteSequencedMode`
unfoldable pub write_sequenced : List ReplayEvent → Text
write_sequenced events = concat (map write_sequenced_event (sort_by sequence_less events))

-- `WriteSequencedEventsMode`
unfoldable pub write_sequenced_events : List ReplayEvent → Stream → Text
write_sequenced_events events stream =
    write_sequenced (select (λ e. stream_eq e.stream stream) events)

-- `strings.CutPrefix`
unfoldable pub cut_prefix : Text → Text → Option Text
cut_prefix p s = if has_prefix s p then some (drop (length p) s) else none

unfoldable pub decode_replay_payload : Text → Option Text
decode_replay_payload payload = elim (cut_prefix encoded_payload_prefix payload) [
  | none ↦ some payload
  | some encoded ↦
      decode_base64 (if has_suffix encoded (10 ∷ []) then drop_last encoded else encoded)
]

pub data ReplayError : Type 0 where
  invalid_prefix invalid_sequence invalid_payload : ReplayError
  sequence_break : ℤ → ℤ → ReplayError

pub data Replayed {ℓ} (A : Type ℓ) : Type ℓ where
  replayed : A → Replayed A
  replay_error : ReplayError → Replayed A

infixl 5 ◌>>-◌
abbrev pub ◌>>-◌ {ℓ κ} : {A : Type ℓ} {B : Type κ} → Replayed A → (A → Replayed B) → Replayed B
replayed a >>- f = f a
replay_error e >>- f = replay_error e

-- `ReadString('\n')`: a line with its end, and what is left.
unfoldable pub split_line : Text → Text × Text
split_line [] = ([], [])
split_line (c ∷ s) =
    let (line, rest) = split_line s in if c == 10 then (c ∷ [], s) else (c ∷ line, rest)

-- The event of a line.
unfoldable pub parse_event : Stream → Text → Replayed ReplayEvent
parse_event stream line = elim (cut b'|' line) [
  | none ↦ replay_error invalid_prefix
  | some ([], payload) ↦ replay_error invalid_prefix
  | some (d ∷ digits, payload) ↦ elim (atoi (d ∷ digits)) [
    | none ↦ replay_error invalid_sequence
    | some sequence ↦ elim (decode_replay_payload payload) [
      | none ↦ replay_error invalid_payload
      | some body ↦ replayed (record { sequence = sequence; stream = stream; line = body })
    ]
  ]
]

-- The loop of `readSequencedFromReader`; a line takes a byte at least.
unfoldable pub read_loop : ℕ → Stream → Text → Replayed (List ReplayEvent)
read_loop zero stream input = replayed []
read_loop (suc fuel) stream [] = replayed []
read_loop (suc fuel) stream (c ∷ input) =
    let (line, rest) = split_line (c ∷ input) in
    let more = read_loop fuel stream rest in
    parse_event stream line >>- λ event. more >>- λ events. replayed (event ∷ events)

unfoldable pub read_sequenced_reader : Stream → Text → Replayed (List ReplayEvent)
read_sequenced_reader stream input = read_loop (length input) stream input

abbrev same_int : ℤ → ℤ → Bool
same_int a b = not (int_less a b) && not (int_less b a)

-- `ValidateSequence`, from an index on; `none` where there is no error.
unfoldable pub validate_from : ℕ → List ReplayEvent → Option ReplayError
validate_from idx [] = none
validate_from idx (event ∷ events) =
    let rest = validate_from (suc idx) events in
    if same_int event.sequence (pos idx)
    then rest
    else some (sequence_break (pos idx) event.sequence)

unfoldable pub validate_sequence : List ReplayEvent → Option ReplayError
validate_sequence events = validate_from 0 events

unfoldable pub merge_and_validate :
    List ReplayEvent → List ReplayEvent → Replayed (List ReplayEvent)
merge_and_validate out err =
    let events = sort_by sequence_less (out ++ err) in
    elim (validate_sequence events) [ some e ↦ replay_error e | none ↦ replayed events ]

-- `ReadEventReaders`
unfoldable pub read_event_readers : Text → Text → Replayed (List ReplayEvent)
read_event_readers out err = read_sequenced_reader stdout out >>- λ stdout_events.
    read_sequenced_reader stderr err >>- λ stderr_events.
    merge_and_validate stdout_events stderr_events
