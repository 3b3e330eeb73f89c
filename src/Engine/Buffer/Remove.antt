-- ===== src/Engine/Buffer/Remove.antt =====
-- `RemoveLastEntries` against its specification.
use Prim.Native.Nat.{min}
use cmdshape.Base.{
  ℕ, ◌+◌, ◌-◌, ◌<◌, Bool, true, false, ◌||◌, List, [], ◌∷◌, ◌++◌, ◌≡◌, refl, ap, arith, length,
  length-append, length-select, append-nil, drop, take_last, select, ltb, ◌==◌, Bool-cases,
  if◌then◌else◌, inl, inr, ◌∙◌, sym,
}
use cmdshape.Contracts.{Stream}
use cmdshape.Engine.Buffer.{
  BufferEntry, OrderedBuffer, Removal, in_stream, remove_loop, remove_step, remove_last_entries,
}

abbrev pub out_of_stream : Stream → BufferEntry → Bool
out_of_stream s e = if in_stream s e then false else true

-- What the loop ends with over a list of entries.
record IsSplit (s : Stream) (n : ℕ) (es : List BufferEntry) (r : Removal) : Type 0 where
  parts : select (in_stream s) r.kept ++ r.removed ≡ select (in_stream s) es
  others : select (out_of_stream s) r.kept ≡ select (out_of_stream s) es
  size : length r.removed ≡ min n (length (select (in_stream s) es))
  full : length r.removed < n → select (in_stream s) r.kept ≡ []

-- Where the loop has begun to remove: in front of it nothing has changed.
record IsCut (s : Stream) (n : ℕ) (es : List BufferEntry) (r : Removal) : Type 0 where
  front : List BufferEntry
  back : List BufferEntry
  whole : es ≡ front ++ back
  kept : r.kept ≡ front ++ select (out_of_stream s) back
  removed : r.removed ≡ select (in_stream s) back
  open_front : length r.removed < n → front ≡ []

remove_step-IsCut :
    (s : Stream) (n : ℕ) (e : BufferEntry) (es : List BufferEntry) (r : Removal)
    → IsCut s n es r
    → IsCut s n (e ∷ es) (remove_step s n e r)
unfolding remove_step
remove_step-IsCut s n e es r i = elim (Bool-cases (ltb (length r.removed) n)) [
  | inl more ↦
      let at_front : i.front ≡ [] = i.open_front (ground arith) in
      let all_back : es ≡ i.back = i.whole ∙ ap (λ (t : List BufferEntry). t ++ i.back) at_front in
      let rest : r.kept ≡ select (out_of_stream s) i.back =
        i.kept ∙ ap (λ (t : List BufferEntry). t ++ select (out_of_stream s) i.back) at_front in
      elim (Bool-cases (in_stream s e)) [
        | inl here ↦ rw here (
            rw more (record {
              front = [];
              back = e ∷ i.back;
              whole = ap (λ (t : List BufferEntry). e ∷ t) all_back;
              kept = rw here rest;
              removed = rw here (ap (λ (t : List BufferEntry). e ∷ t) i.removed);
              open_front = λ h. refl;
            }))
        | inr out ↦ rw out (
            rw more (record {
              front = [];
              back = e ∷ i.back;
              whole = ap (λ (t : List BufferEntry). e ∷ t) all_back;
              kept = rw out (ap (λ (t : List BufferEntry). e ∷ t) rest);
              removed = rw out i.removed;
              open_front = λ h. refl;
            }))
      ]
  | inr done ↦ rw done (record {
    front = e ∷ i.front;
    back = i.back;
    whole = ap (λ (t : List BufferEntry). e ∷ t) i.whole;
    kept = ap (λ (t : List BufferEntry). e ∷ t) i.kept;
    removed = i.removed;
    open_front = λ h. absurd (ground arith);
  })
]

remove_loop-IsCut :
    (s : Stream) (n : ℕ) (counts : Stream → ℕ) (es : List BufferEntry)
    → IsCut s n es (remove_loop s n counts es)
unfolding remove_loop
remove_loop-IsCut s n counts [] = record {
  front = [];
  back = [];
  whole = refl;
  kept = refl;
  removed = refl;
  open_front = λ h. refl;
}
remove_loop-IsCut s n counts (e ∷ es) =
    remove_step-IsCut s n e es _ (remove_loop-IsCut s n counts es)

remove_step-IsSplit :
    (s : Stream) (n : ℕ) (e : BufferEntry) (es : List BufferEntry) (r : Removal)
    → IsSplit s n es r
    → IsSplit s n (e ∷ es) (remove_step s n e r)
unfolding remove_step
remove_step-IsSplit s n e es r i = elim (Bool-cases (in_stream s e)) [
  | inl here ↦ elim (Bool-cases (ltb (length r.removed) n)) [
    | inl more ↦
        let none_kept : select (in_stream s) r.kept ≡ [] = i.full (ground arith) in
        rw here (
          rw more (record {
            parts = ground arith;
            others = ground arith;
            size = ground arith;
            full = λ h. ground arith;
          }))
    | inr done ↦ rw here (
        rw done (record {
          parts = ground arith;
          others = ground arith;
          size = ground arith;
          full = ground arith;
        }))
  ]
  | inr out ↦ record {
    parts = ground arith;
    others = ground arith;
    size = ground arith;
    full = ground arith;
  }
]

remove_loop-IsSplit :
    (s : Stream) (n : ℕ) (counts : Stream → ℕ) (es : List BufferEntry)
    → IsSplit s n es (remove_loop s n counts es)
unfolding remove_loop
remove_loop-IsSplit s n counts [] = record {
  parts = refl;
  others = refl;
  size = omega arith;
  full = λ h. refl;
}
remove_loop-IsSplit s n counts (e ∷ es) =
    remove_step-IsSplit s n e es _ (remove_loop-IsSplit s n counts es)

drop-length_append {ℓ} : {A : Type ℓ} (xs ys : List A) → drop (length xs) (xs ++ ys) ≡ ys
drop-length_append [] ys = refl
drop-length_append (x ∷ xs) ys = drop-length_append xs ys

drop-length {ℓ} : {A : Type ℓ} (xs : List A) → drop (length xs) xs ≡ []
drop-length [] = refl
drop-length (x ∷ xs) = drop-length xs

take_last-append {ℓ} :
    {A : Type ℓ} (n : ℕ) (ms xs ys : List A)
    → xs ++ ys ≡ ms
    → length ys ≡ min n (length ms)
    → ys ≡ take_last n ms
take_last-append n ms xs ys e h =
    let total : length ms ≡ length xs + length ys = ap length (sym e) ∙ length-append xs ys in
    let cut_at : length ms - n ≡ length xs = omega arith in
    rw cut_at (rw (← e) (sym (drop-length_append xs ys)))

-- What is kept of the stream and what is returned is the stream.
pub remove_last_entries-parts :
    (s : Stream) (n : ℕ) (b : OrderedBuffer)
    → select (in_stream s) (remove_last_entries s n b).1.entries ++ (remove_last_entries s n b).0
      ≡ select (in_stream s) b.entries
unfolding remove_last_entries
remove_last_entries-parts s n b = elim (Bool-cases (n == 0 || length b.entries == 0)) [
  | inl early ↦ rw early (append-nil _)
  | inr go ↦
      let i : IsSplit s n b.entries (remove_loop s n b.counts b.entries) =
        remove_loop-IsSplit s n b.counts b.entries in
      rw go i.parts
]

-- `RemoveLastEntries` takes out the last entries of the stream, as many as asked for or all that
-- there are, and returns them in order; every other entry stays where it was: the entries fall into
-- a front that is kept as it is, and a back of which the entries of the stream are returned and the
-- others are kept in order.
pub remove_last_entries_lem :
    (s : Stream) (n : ℕ) (b : OrderedBuffer)
    → ((remove_last_entries s n b).0 ≡ take_last n (select (in_stream s) b.entries))
      × ((front : List BufferEntry) × (back : List BufferEntry) × (b.entries ≡ front ++ back)
          × ((remove_last_entries s n b).1.entries ≡ front ++ select (out_of_stream s) back)
          × ((remove_last_entries s n b).0 ≡ select (in_stream s) back))
unfolding remove_last_entries
remove_last_entries_lem s n b = elim (Bool-cases (n == 0 || length b.entries == 0)) [
  | inl early ↦
      let empty : 0 ≡ min n (length (select (in_stream s) b.entries)) =
        ground (arith, length-select (in_stream s) b.entries) in
      rw early (
        take_last-append n _ (select (in_stream s) b.entries) [] (append-nil _) empty,
        (b.entries, [], sym (append-nil b.entries), sym (append-nil b.entries), refl),
      )
  | inr go ↦
      let i : IsSplit s n b.entries (remove_loop s n b.counts b.entries) =
        remove_loop-IsSplit s n b.counts b.entries in
      let cut : IsCut s n b.entries (remove_loop s n b.counts b.entries) =
        remove_loop-IsCut s n b.counts b.entries in
      rw go (
        take_last-append n _ _ _ i.parts i.size,
        (cut.front, cut.back, cut.whole, cut.kept, cut.removed),
      )
]
