-- ===== src/Engine/Buffer/Counts.antt =====
-- The counts of the streams agree with the entries, after every operation.
use Prim.Native.Nat.{min}
use cmdshape.Base.{
  ℕ, suc, ◌+◌, ◌≤◌, List, [], ◌∷◌, ◌≡◌, refl, ap, arith, length, length-append, length-drop, select,
  select-append, if◌then◌else◌, ◌∙◌, sym, Text,
}
use cmdshape.Engine.Buffer.Remove.{remove_last_entries_lem, remove_last_entries-parts}
use cmdshape.Contracts.{Stream, stream_eq, combined, stdout, stderr, unset}
use cmdshape.Engine.Buffer.{
  BufferEntry, OrderedBuffer, in_stream, remove_loop, remove_step, remove_last_entries, decrement,
  increment, add_at, add, new_ordered_buffer, clear, count, remove_last, new_buffer_entry,
}

-- How many of the entries belong to a stream.
abbrev pub tally : Stream → List BufferEntry → ℕ
tally t es = length (select (λ e. stream_eq e.stream t) es)

abbrev pub IsCounted : OrderedBuffer → Type 0
IsCounted b = (t : Stream) → b.counts t ≡ tally t b.entries

remove_loop-counts :
    (s : Stream) (n : ℕ) (counts : Stream → ℕ) (t : Stream) (es : List BufferEntry)
    → tally t es ≤ counts t
    → (remove_loop s n counts es).counts t + tally t es
      ≡ counts t + tally t (remove_loop s n counts es).kept
unfolding remove_loop remove_step decrement
remove_loop-counts s n counts t [] h = refl
remove_loop-counts s n counts t (e ∷ es) h = ground (arith, remove_loop-counts s n counts t es)

pub add_at-IsCounted :
    (q : ℕ) (s : Stream) (o t : Text) (b : OrderedBuffer)
    → IsCounted b
    → IsCounted (add_at q s o t b)
unfolding add_at increment new_buffer_entry
add_at-IsCounted q s o t b h u = rw select-append (rw length-append (ground (arith, h u)))

pub remove_last_entries-IsCounted :
    (s : Stream) (n : ℕ) (b : OrderedBuffer) → IsCounted b → IsCounted (remove_last_entries s n b).1
unfolding remove_last_entries
remove_last_entries-IsCounted s n b h t =
    ground (arith, h t, remove_loop-counts s n b.counts t b.entries)

add-IsCounted : (s : Stream) (l : Text) (b : OrderedBuffer) → IsCounted b → IsCounted (add s l b)
unfolding add
add-IsCounted s l b h = add_at-IsCounted b.next_sequence s l l b h

-- The operations that change the buffer.
pub data Operation : Type 0 where
  adding : Stream → Text → Operation
  adding_at : ℕ → Stream → Text → Text → Operation
  removing_last : Stream → ℕ → Operation
  clearing : Operation

abbrev pub perform : Operation → OrderedBuffer → OrderedBuffer
perform (adding s l) b = add s l b
perform (adding_at q s o t) b = add_at q s o t b
perform (removing_last s n) b = (remove_last_entries s n b).1
perform clearing b = clear b

abbrev pub perform_all : List Operation → OrderedBuffer → OrderedBuffer
perform_all [] b = b
perform_all (o ∷ os) b = perform_all os (perform o b)

perform-IsCounted : (o : Operation) (b : OrderedBuffer) → IsCounted b → IsCounted (perform o b)
unfolding clear
perform-IsCounted (adding s l) b h = add-IsCounted s l b h
perform-IsCounted (adding_at q s o t) b h = add_at-IsCounted q s o t b h
perform-IsCounted (removing_last s n) b h = remove_last_entries-IsCounted s n b h
perform-IsCounted clearing b h = λ t. refl

perform_all-IsCounted :
    (os : List Operation) (b : OrderedBuffer) → IsCounted b → IsCounted (perform_all os b)
perform_all-IsCounted [] b h = h
perform_all-IsCounted (o ∷ os) b h = perform_all-IsCounted os _ (perform-IsCounted o b h)

-- Every entry is in the combined stream, and an entry of another stream is in that stream alone.
length-in_stream :
    (s : Stream) (es : List BufferEntry)
    → length (select (in_stream s) es) ≡ (if stream_eq s combined then length es else tally s es)
unfolding in_stream
length-in_stream combined [] = refl
length-in_stream combined (e ∷ es) = ap suc (length-in_stream combined es)
length-in_stream stdout es = refl
length-in_stream stderr es = refl
length-in_stream unset es = refl

pub count_lem :
    (s : Stream) (b : OrderedBuffer)
    → IsCounted b
    → count s b ≡ length (select (in_stream s) b.entries)
unfolding count
count_lem s b h = ground (arith, length-in_stream s b.entries, h s)

-- Whatever operations are performed on a new buffer, its count of a stream is the number of entries
-- that the buffer holds of it, and the count of the combined stream is the number of all entries.
pub count-perform_all :
    (os : List Operation) (s : Stream)
    → count s (perform_all os new_ordered_buffer)
      ≡ length (select (in_stream s) (perform_all os new_ordered_buffer).entries)
unfolding new_ordered_buffer
count-perform_all os s = count_lem s _ (perform_all-IsCounted os new_ordered_buffer (λ t. refl))

-- In a buffer whose counts are right, `RemoveLast` answers how many entries it has removed: as many
-- as asked for, or all that the stream counted; and the stream counts so many fewer.
pub remove_last_lem :
    (s : Stream) (n : ℕ) (b : OrderedBuffer)
    → IsCounted b
    → ((remove_last s n b).0 ≡ min n (count s b))
      × (count s (remove_last s n b).1 + (remove_last s n b).0 ≡ count s b)
unfolding remove_last
remove_last_lem s n b h =
    let kept = remove_last_entries-IsCounted s n b h in
    let (taken, _) = remove_last_entries_lem s n b in
    let parts = remove_last_entries-parts s n b in
    let size = ap length taken ∙ length-drop _ (select (in_stream s) b.entries) in
    let total = sym (length-append _ (remove_last_entries s n b).0) ∙ ap length parts in
    let before = count_lem s b h in
    let after = count_lem s (remove_last_entries s n b).1 kept in (omega arith, omega arith)
