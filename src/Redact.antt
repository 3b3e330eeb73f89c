-- ===== src/Redact.antt =====
-- internal/runner.go: the redaction of confidential texts, of a whole text and of a stream that comes
-- in parts. A text is a list of bytes; the writer behind takes every write.
pub mod Scan
pub mod Streaming
mod Tests
use cmdshape.Base.{
  ℕ, zero, suc, ◌+◌, ◌-◌, min, Bool, true, false, List, [], ◌∷◌, ◌++◌, map, Option, none, some,
  Text, codes, length, take, drop, is_empty, has_prefix, replace_all, if◌then◌else◌,
}

abbrev pub stars : Text
stars = codes "***"

-- `redactConfidential`
unfoldable pub redact_confidential : Text → List Text → Text
redact_confidential input [] = input
redact_confidential input (token ∷ tokens) =
    redact_confidential (if is_empty token then input else replace_all input token stars) tokens

-- `bytes.Index`
unfoldable pub index_of : Text → Text → Option ℕ
index_of [] old = if is_empty old then some 0 else none
index_of (c ∷ s) old =
    if has_prefix (c ∷ s) old
    then some 0
    else elim (index_of s old) [ some i ↦ some (suc i) | none ↦ none ]

-- A `streamingReplacer`, less the writer behind it.
pub record Replacer : Type 0 where
  pub old : Text
  pub pending : Text

-- `writeAll`: nothing is written of an empty text.
abbrev pub as_write : Text → List Text → List Text
as_write [] writes = writes
as_write (c ∷ p) writes = (c ∷ p) ∷ writes

-- What a stage writes to the one behind it, write by write, and its pending bytes afterwards. The
-- loop of `drain` on fuel: a round that finds the old text takes a byte at least.
unfoldable pub drain_loop : ℕ → Bool → Text → Text → List Text × Text
drain_loop zero final old pending = ([], pending)
drain_loop (suc fuel) final old pending = elim (index_of pending old) [
  | some i ↦
      let (writes, left) = drain_loop fuel final old (drop (i + length old) pending) in
      (as_write (take i pending) (stars ∷ writes), left)
  | none ↦
      let held = if final then 0 else length old - 1 in
      let flush = length pending - min (length pending) held in
      (as_write (take flush pending) [], drop flush pending)
]

unfoldable pub drain : Bool → Replacer → List Text × Replacer
drain final r =
    let (writes, left) = drain_loop (suc (length r.pending)) final r.old r.pending in
    (writes, record r { pending = left })

-- `streamingReplacer.Write`
unfoldable pub write_replacer : Replacer → Text → List Text × Replacer
write_replacer r p = drain false (record r { pending = r.pending ++ p })

-- The writes of a stage for parts that come one after the other.
unfoldable pub write_parts : Replacer → List Text → List Text × Replacer
write_parts r [] = ([], r)
write_parts r (part ∷ parts) =
    let (now, r') = write_replacer r part in
    let (later, r'') = write_parts r' parts in (now ++ later, r'')

-- Everything that a stage writes: for the parts, and when it is flushed.
unfoldable pub stage : Text → List Text → List Text
stage token parts =
    let (writes, r) = write_parts (record { old = token; pending = [] }) parts in
    let (last, _) = drain true r in writes ++ last

-- A `redactingWriter`: a stage for each token that is not empty, each writing to the next. A stage
-- keeps nothing but its own pending bytes, and the flush goes from the first stage to the last; so
-- what the last stage writes is what it writes for all that the stage before it has written.
unfoldable pub redact_stream : List Text → List Text → List Text
redact_stream [] parts = parts
redact_stream (token ∷ tokens) parts =
    redact_stream tokens (if is_empty token then parts else stage token parts)
