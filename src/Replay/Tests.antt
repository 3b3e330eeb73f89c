-- ===== src/Replay/Tests.antt =====
-- A small recording.
use cmdshape.Base.{List, [], ◌∷◌, ◌++◌, none, codes, pos, inl, inr, ◌≡◌, refl, arith, All}
use cmdshape.Contracts.{stdout, stderr}
use cmdshape.Replay.{
  ReplayEvent, write_sequenced_event, write_sequenced_events, replayed, read_event_readers,
  validate_sequence, validate_from, write_payload, replay_payload_needs_encoding, format_sequence,
  zeros,
}
use cmdshape.Version.Decimal.{format_uint, format_digits}
use cmdshape.Replay.Base64.{encode_base64, symbol}
use cmdshape.Replay.Merge.{IsRecorded, read_event_readers-write}
use cmdshape.Replay.Merged.{read_merged_event_readers}
use cmdshape.Replay.Merged.Written.{read_merged_event_readers-write}

abbrev events : List ReplayEvent
events =
    (record { sequence = pos 0; stream = stdout; line = codes "ok" ++ 10 ∷ [] })
    ∷ (record { sequence = pos 1; stream = stderr; line = codes "no end" })
    ∷ (record { sequence = pos 2; stream = stdout; line = 255 ∷ 13 ∷ [] })
    ∷ []

events-valid : validate_sequence events ≡ none
unfolding validate_sequence validate_from
events-valid = refl

events-IsRecorded : All IsRecorded events
events-IsRecorded = (
  (inl refl, (omega arith, (omega arith, (omega arith, tt)))),
  (
    (
      inr refl,
      (omega arith, (omega arith, (omega arith, (omega arith, (omega arith, (omega arith, tt)))))),
    ),
    ((inl refl, (omega arith, (omega arith, tt))), tt),
  ),
)

read_event_readers-write_example :
    read_event_readers (write_sequenced_events events stdout) (write_sequenced_events events stderr)
    ≡ replayed events
read_event_readers-write_example =
    read_event_readers-write events (omega arith) events-valid events-IsRecorded

read_merged_event_readers-write_example :
    read_merged_event_readers
      (write_sequenced_events events stdout)
      (write_sequenced_events events stderr)
    ≡ (events, none)
read_merged_event_readers-write_example =
    read_merged_event_readers-write events (omega arith) events-valid events-IsRecorded

encoded :
    write_sequenced_event (record { sequence = pos 12; stream = stderr; line = codes "no" })
    ≡ codes "00012|@cmdshape/base64:bm8=" ++ 10 ∷ []
unfolding write_sequenced_event write_payload replay_payload_needs_encoding format_sequence zeros
    format_uint format_digits encode_base64 symbol
encoded = refl
