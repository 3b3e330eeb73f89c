-- ===== src/Engine/Buffer.antt =====
-- internal/engine/buffer.go: the ordered buffer of the lines that a filter has retained.
pub mod Order
pub mod Remove
pub mod Counts
use Prim.Native.Nat.{max}
use mathlib.Core.List.{reverse}
use cmdshape.Base.{
  ℕ, zero, suc, ◌+◌, ◌-◌, ◌%◌, ◌^◌, Bool, true, false, ◌&&◌, ◌||◌, List, [], ◌∷◌, ◌++◌, map, Text,
  length, select, ltb, leb, ◌==◌, if◌then◌else◌, has_suffix, u64_mod,
}
use cmdshape.Contracts.{Stream, stream_eq}

pub record BufferEntry : Type 0 where
  pub sequence : ℕ
  pub stream : Stream
  pub original : Text
  pub transformed : Text
  pub line : Text
  pub newline : Bool

-- `counts` has an entry 0 where the source's map has none.
pub record OrderedBuffer : Type 0 where
  pub entries : List BufferEntry
  pub counts : Stream → ℕ
  pub next_sequence : ℕ

unfoldable pub new_ordered_buffer : OrderedBuffer
new_ordered_buffer = record { entries = []; counts = λ _. 0; next_sequence = 0 }

unfoldable pub new_buffer_entry : ℕ → Stream → Text → Text → BufferEntry
new_buffer_entry sequence stream original transformed = record {
  sequence = sequence;
  stream = stream;
  original = original;
  transformed = transformed;
  line = transformed;
  newline = has_suffix transformed (10 ∷ []);
}

-- `counts[stream]++` and `counts[stream]--`
unfoldable pub increment : Stream → (Stream → ℕ) → Stream → ℕ
increment s counts t = if stream_eq s t then counts t + 1 else counts t

unfoldable pub decrement : Stream → (Stream → ℕ) → Stream → ℕ
decrement s counts t = if stream_eq s t then counts t - 1 else counts t

-- `sequence + 1` in uint64
unfoldable pub next_u64 : ℕ → ℕ
next_u64 n = (n + 1) % u64_mod

unfoldable pub add_at : ℕ → Stream → Text → Text → OrderedBuffer → OrderedBuffer
unfolding new_buffer_entry increment next_u64
add_at sequence stream original transformed b = record {
  entries = b.entries ++ new_buffer_entry sequence stream original transformed ∷ [];
  counts = increment stream b.counts;
  next_sequence = max b.next_sequence (next_u64 sequence);
}

unfoldable pub add : Stream → Text → OrderedBuffer → OrderedBuffer
unfolding add_at next_u64
add stream line b =
    let added = add_at b.next_sequence stream line line b in
    record added { next_sequence = next_u64 added.next_sequence }

-- Is the entry in the stream? The combined stream holds every entry.
unfoldable pub in_stream : Stream → BufferEntry → Bool
in_stream stream e = stream_eq stream Stream.combined || stream_eq e.stream stream

-- What the backward loop of `RemoveLastEntries` has when it is done with the list: the entries that
-- it removed and those that it kept, both in order, and the counts.
pub record Removal : Type 0 where
  pub removed : List BufferEntry
  pub kept : List BufferEntry
  pub counts : Stream → ℕ

remove_step : Stream → ℕ → BufferEntry → Removal → Removal
unfolding decrement
remove_step stream count e r =
    if ltb (length r.removed) count && in_stream stream e
    then record { removed = e ∷ r.removed; kept = r.kept; counts = decrement e.stream r.counts }
    else record r { kept = e ∷ r.kept }

-- The loop goes from the last entry to the first.
remove_loop : Stream → ℕ → (Stream → ℕ) → List BufferEntry → Removal
remove_loop stream count counts [] = record { removed = []; kept = []; counts = counts }
remove_loop stream count counts (e ∷ es) =
    remove_step stream count e (remove_loop stream count counts es)

unfoldable pub remove_last_entries : Stream → ℕ → OrderedBuffer → List BufferEntry × OrderedBuffer
unfolding remove_loop remove_step
remove_last_entries stream count b =
    let r = remove_loop stream count b.counts b.entries in
    if count == 0 || length b.entries == 0
    then ([], b)
    else (r.removed, record b { entries = r.kept; counts = r.counts })

unfoldable pub remove_last : Stream → ℕ → OrderedBuffer → ℕ × OrderedBuffer
unfolding remove_last_entries
remove_last stream count b = let r = remove_last_entries stream count b in (length r.0, r.1)

-- `slices.SortStableFunc` by sequence: an entry goes before the first later one that is greater.
unfoldable pub insert_entry : BufferEntry → List BufferEntry → List BufferEntry
insert_entry e [] = e ∷ []
insert_entry e (x ∷ xs) =
    let rest = insert_entry e xs in if leb e.sequence x.sequence then e ∷ x ∷ xs else x ∷ rest

unfoldable pub sort_by_sequence : List BufferEntry → List BufferEntry
unfolding insert_entry
sort_by_sequence [] = []
sort_by_sequence (e ∷ es) = insert_entry e (sort_by_sequence es)

unfoldable pub sorted_entries : OrderedBuffer → List BufferEntry
unfolding sort_by_sequence
sorted_entries b = sort_by_sequence b.entries

unfoldable pub lines : Stream → OrderedBuffer → List Text
unfolding sorted_entries
lines stream b = map (λ e. e.line) (select (in_stream stream) (sorted_entries b))

unfoldable pub count : Stream → OrderedBuffer → ℕ
count stream b = if stream_eq stream Stream.combined then length b.entries else b.counts stream

-- the concatenation of a part of each entry
abbrev pub concat_by : (BufferEntry → Text) → List BufferEntry → Text
concat_by f [] = []
concat_by f (e ∷ es) = f e ++ concat_by f es

unfoldable pub joined : Stream → OrderedBuffer → Text
unfolding sorted_entries
joined stream b = concat_by (λ e. e.transformed) (select (in_stream stream) (sorted_entries b))

unfoldable pub len : OrderedBuffer → ℕ
len b = length b.entries

unfoldable pub clear : OrderedBuffer → OrderedBuffer
clear b = record { entries = []; counts = λ _. 0; next_sequence = 0 }
