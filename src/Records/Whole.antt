-- ===== src/Records/Whole.antt =====
-- The records of a stream are the stream.
use cmdshape.Base.{
  ℕ, zero, suc, ◌+◌, ◌≤◌, ◌<◌, max, Bool, true, false, List, [], ◌∷◌, ◌++◌, ◌≡◌, refl, sym, ap, ◌∙◌,
  Text, length, length-append, All, leb, ◌==◌, if◌then◌else◌, join, append-nil, arith,
}
use cmdshape.Records.{
  RecordEnd, delimited, at_limit, at_end, read_rest, complete_stream_record, read_stream_record,
  drain, drain_stream,
}

-- What is read of an input and what is left are the input, nothing is left at the end of the stream,
-- and no more is read than the limit has room for, but for the second byte of a delimiter.
record IsRead (limit size : ℕ) (input : Text) (r : Text × Text × RecordEnd) : Type 0 where
  whole : r.0 ++ r.1 ≡ input
  at_the_end : (r.2 ≡ at_end) → r.1 ≡ []
  most : size + length r.0 ≤ suc (max size limit)

read_rest-IsRead :
    (limit size last : ℕ) (input : Text) → IsRead limit size input (read_rest limit size last input)
unfolding read_rest
read_rest-IsRead limit size last [] = record {
  whole = refl;
  at_the_end = λ e. refl;
  most = omega arith;
}
read_rest-IsRead limit size last (next ∷ input) =
    choose (last == 10) (last == 13) (next == 10) (leb limit size) refl
      (read_rest limit (suc size) next input) (read_rest-IsRead limit (suc size) next input)
  where
    choose :
        (feed return next_feed full : Bool)
        → leb limit size ≡ full
        → (r : Text × Text × RecordEnd) → IsRead limit (suc size) input r
        → IsRead limit size (next ∷ input) (
            if feed
            then ([], next ∷ input, delimited)
            else if return
            then if next_feed then (next ∷ [], input, delimited) else ([], next ∷ input, delimited)
            else if full
            then ([], next ∷ input, at_limit)
            else (next ∷ r.0, r.1, r.2))
    choose true return next_feed full e r h = record {
      whole = refl;
      at_the_end = λ k. absurd (cc);
      most = omega arith;
    }
    choose false true true full e r h = record {
      whole = refl;
      at_the_end = λ k. absurd (cc);
      most = omega arith;
    }
    choose false true false full e r h = record {
      whole = refl;
      at_the_end = λ k. absurd (cc);
      most = omega arith;
    }
    choose false false next_feed true e r h = record {
      whole = refl;
      at_the_end = λ k. absurd (cc);
      most = omega arith;
    }
    choose false false next_feed false e r h =
        let room : size < limit = ground arith in
        record {
          whole = ap (λ (t : Text). next ∷ t) h.whole;
          at_the_end = h.at_the_end;
          most = omega (arith, h.most, room);
        }

join-cons : (line : Text) (lines : List Text) → join (line ∷ lines) [] ≡ line ++ join lines []
join-cons line [] = sym (append-nil line)
join-cons line (next ∷ lines) = refl

-- The lines are the input, and none is empty or larger than the limit and one byte.
abbrev pub IsWhole : ℕ → Text → List Text → Type 0
IsWhole limit input lines =
    (join lines [] ≡ input)
    × All (λ line. (1 ≤ length line) × (length line ≤ suc (max 1 limit))) lines

add_line-IsWhole :
    (limit first : ℕ) (input : Text) (r : Text × Text × RecordEnd) (lines : List Text)
    → IsRead limit 1 input r
    → IsWhole limit r.1 lines
    → IsWhole limit (first ∷ input) ((first ∷ r.0) ∷ lines)
add_line-IsWhole limit first input r lines h (joined, sizes) = (
  join-cons (first ∷ r.0) lines
      ∙ ap (λ (t : Text). (first ∷ r.0) ++ t) joined
      ∙ ap (λ (t : Text). first ∷ t) h.whole,
  ((omega arith, omega (arith, h.most)), sizes),
)

by_end-IsWhole :
    (limit first fuel : ℕ) (input : Text) (go_on : Text → List Text)
    → ((t : Text) → length t ≤ fuel → IsWhole limit t (go_on t))
    → length input ≤ fuel
    → (r : Text × Text × RecordEnd) → IsRead limit 1 input r
    → IsWhole limit (first ∷ input) (elim r.2 [
      | at_end ↦ (first ∷ r.0) ∷ []
      | delimited ↦ (first ∷ r.0) ∷ go_on r.1
      | at_limit ↦ (first ∷ r.0) ∷ go_on r.1
    ])
by_end-IsWhole limit first fuel input go_on ih size (a, left, at_end) h =
    add_line-IsWhole limit first input (a, left, at_end) [] h (sym (h.at_the_end refl), tt)
by_end-IsWhole limit first fuel input go_on ih size (a, left, delimited) h =
    let parts = ap length h.whole in
    let sum = length-append a left in
    add_line-IsWhole limit first input (a, left, delimited) (go_on left) h
      (ih left (omega (arith, parts, sum, size)))
by_end-IsWhole limit first fuel input go_on ih size (a, left, at_limit) h =
    let parts = ap length h.whole in
    let sum = length-append a left in
    add_line-IsWhole limit first input (a, left, at_limit) (go_on left) h
      (ih left (omega (arith, parts, sum, size)))

-- The bytes left are fewer than those there were, so that the fuel is enough.
drain-IsWhole :
    (fuel limit : ℕ) (input : Text)
    → length input ≤ fuel
    → IsWhole limit input (drain fuel limit input)
unfolding drain read_stream_record complete_stream_record
drain-IsWhole zero limit [] h = (refl, tt)
drain-IsWhole zero limit (first ∷ input) h = absurd (omega (arith, h))
drain-IsWhole (suc fuel) limit [] h = (refl, tt)
drain-IsWhole (suc fuel) limit (first ∷ input) h =
    by_end-IsWhole limit first fuel input (drain fuel limit) (λ t k. drain-IsWhole fuel limit t k)
      (omega (arith, h)) (read_rest limit 1 first input) (read_rest-IsRead limit 1 first input)

-- The records that a stream is read in are the stream, byte for byte: put together they are all of
-- it, none is empty, and none is larger than the limit by more than the second byte of a delimiter.
pub drain_stream-IsWhole :
    (limit : ℕ) (input : Text) → IsWhole limit input (drain_stream limit input)
unfolding drain_stream
drain_stream-IsWhole limit input = drain-IsWhole (length input) limit input (omega arith)
