-- ===== src/Records.antt =====
-- internal/replay/fixture.go and internal/runner.go: the records that a stream of output is read in.
-- The reader is the list of the bytes still to come.
pub mod Whole
mod Tests
use cmdshape.Base.{
  ℕ, zero, suc, ◌*◌, Bool, true, false, ◌||◌, List, [], ◌∷◌, Option, none, some, Text, length, leb,
  ◌==◌, if◌then◌else◌,
}

abbrev pub stream_record_limit : ℕ
stream_record_limit = 8 * 1024 * 1024

-- Why a record ends: its delimiter, the limit on its size, or the end of the stream.
pub data RecordEnd : Type 0 where
  delimited at_limit at_end : RecordEnd

-- What is read behind the last byte so far, where `size` bytes have been read; the bytes left; and why
-- the record ends.
unfoldable pub read_rest : ℕ → ℕ → ℕ → Text → Text × Text × RecordEnd
read_rest limit size last [] = (
  [],
  [],
  if last == 10 || last == 13 then delimited else if leb limit size then at_limit else at_end,
)
read_rest limit size last (next ∷ input) =
    let (record_rest, left, end) = read_rest limit (suc size) next input in
    if last == 10
    then ([], next ∷ input, delimited)
    else if last == 13
    then if next == 10 then (next ∷ [], input, delimited) else ([], next ∷ input, delimited)
    else if leb limit size
    then ([], next ∷ input, at_limit)
    else (next ∷ record_rest, left, end)

-- `CompleteStreamRecord`
unfoldable pub complete_stream_record : ℕ → ℕ → Text → Text × Text × RecordEnd
complete_stream_record limit first input =
    let (record_rest, left, end) = read_rest limit 1 first input in (first ∷ record_rest, left, end)

-- `ReadStreamRecord`; `none` at the end of the stream.
unfoldable pub read_stream_record : ℕ → Text → Option (Text × Text × RecordEnd)
read_stream_record limit [] = none
read_stream_record limit (first ∷ input) = some (complete_stream_record limit first input)

-- The loop of `drainStream`: the records handed on, for as many rounds as the fuel allows.
unfoldable pub drain : ℕ → ℕ → Text → List Text
drain zero limit input = []
drain (suc fuel) limit input = elim (read_stream_record limit input) [
  | none ↦ []
  | some (line, left, at_end) ↦ line ∷ []
  | some (line, left, delimited) ↦ line ∷ drain fuel limit left
  | some (line, left, at_limit) ↦ line ∷ drain fuel limit left
]

-- Every round but the last takes a byte at least.
unfoldable pub drain_stream : ℕ → Text → List Text
drain_stream limit input = drain (length input) limit input
