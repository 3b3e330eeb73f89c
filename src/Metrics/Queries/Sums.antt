-- ===== src/Metrics/Queries/Sums.antt =====
-- The row that the records of one name ask for, in sums.
use cmdshape.Base.{
  ℕ, ◌+◌, ◌%◌, Bool, true, false, ◌&&◌, ◌||◌, not, List, [], ◌∷◌, Option, none, some, Text, ℤ,
  int_less, is_empty, text_eq, length, select, u64_mod, if◌then◌else◌, ◌≡◌, refl, ap, ◌∙◌, arith,
}
use cmdshape.Metrics.{RunRecord}
use cmdshape.Metrics.Totals.{word, add64, Totals, Row, no_totals, count_record}
use cmdshape.Metrics.Queries.{QueryOptions, is_zero, is_positive, matches_options, fill_row}
use cmdshape.Metrics.Queries.Scan.{matching, visit_all}

-- A record is asked for where it is not from before the threshold, if there is one, is of the tool, if
-- one is given, and has failed, if that is asked for.
abbrev pub is_asked : QueryOptions → ℤ → RunRecord → Bool
is_asked opts threshold r =
    (not (is_positive threshold) || not (int_less r.timestamp_unix threshold))
    && ((is_empty opts.tool || text_eq r.tool opts.tool)
        && (not opts.failed || not (is_zero r.exit_code)))

abbrev pub asked : QueryOptions → ℤ → List RunRecord → List RunRecord
asked opts threshold recs = select (is_asked opts threshold) recs

tests :
    (since before no_tool of_tool failed zero_code : Bool)
    → (if since && before
        then false
        else if not no_tool && not of_tool
        then false
        else if failed && zero_code
        then false
        else true)
      ≡ ((not since || not before) && ((no_tool || of_tool) && (not failed || not zero_code)))
tests since before no_tool of_tool failed zero_code = ground arith

matches_options-is_asked :
    (opts : QueryOptions) (threshold : ℤ) (r : RunRecord)
    → matches_options r opts threshold ≡ is_asked opts threshold r
unfolding matches_options
matches_options-is_asked opts threshold r =
    tests (is_positive threshold) (int_less r.timestamp_unix threshold) (is_empty opts.tool)
      (text_eq r.tool opts.tool) opts.failed (is_zero r.exit_code)

pub matching-asked :
    (opts : QueryOptions) (threshold : ℤ) (recs : List RunRecord)
    → matching opts threshold recs ≡ asked opts threshold recs
matching-asked opts threshold [] = refl
matching-asked opts threshold (r ∷ recs) =
    ap (λ b. if b then r ∷ matching opts threshold recs else matching opts threshold recs)
      (matches_options-is_asked opts threshold r)
    ∙ ap (λ (t : List RunRecord). if is_asked opts threshold r then r ∷ t else t)
        (matching-asked opts threshold recs)

-- The sum of a number of each record, a negative one as the word in two's complement.
abbrev pub sum_words : (RunRecord → ℤ) → List RunRecord → ℕ
sum_words f [] = 0
sum_words f (r ∷ recs) = word (f r) + sum_words f recs

abbrev pub totals_of : ℕ → ℕ → ℕ → Totals
totals_of commands raw kept = record no_totals {
  commands = commands % u64_mod;
  raw_bytes = raw % u64_mod;
  kept_bytes = kept % u64_mod;
}

add_mod : (a b : ℕ) → (a % u64_mod + b) % u64_mod ≡ (a + b) % u64_mod
add_mod a b = omega arith

same_totals : (a b c a' b' c' : ℕ) → a ≡ a' → b ≡ b' → c ≡ c' → totals_of a b c ≡ totals_of a' b' c'
same_totals a b c a' b' c' e f g =
    ap (λ n. totals_of n b c) e ∙ ap (λ n. totals_of a' n c) f ∙ ap (λ n. totals_of a' b' n) g

count_record-totals :
    (r : RunRecord) (a b c : ℕ)
    → count_record r (totals_of a b c)
      ≡ totals_of (a + 1) (b + word r.raw_bytes) (c + word r.kept_bytes)
unfolding count_record
count_record-totals r a b c =
    let counted = λ (x y z : ℕ). record no_totals { commands = x; raw_bytes = y; kept_bytes = z } in
    ap
      (λ n.
        counted n (add64 (b % u64_mod) (word r.raw_bytes))
          (add64 (c % u64_mod) (word r.kept_bytes)))
      (add_mod a 1)
    ∙ ap (λ n. counted ((a + 1) % u64_mod) n (add64 (c % u64_mod) (word r.kept_bytes)))
        (add_mod b (word r.raw_bytes))
    ∙ ap (λ n. counted ((a + 1) % u64_mod) ((b + word r.raw_bytes) % u64_mod) n)
        (add_mod c (word r.kept_bytes))

pub visit_all-totals :
    (recs : List RunRecord) (a b c : ℕ)
    → visit_all count_record recs (totals_of a b c)
      ≡ totals_of
          (a + length recs)
          (b + sum_words (λ r. r.raw_bytes) recs)
          (c + sum_words (λ r. r.kept_bytes) recs)
visit_all-totals [] a b c = same_totals a b c _ _ _ (omega arith) (omega arith) (omega arith)
visit_all-totals (r ∷ recs) a b c =
    ap (visit_all count_record recs) (count_record-totals r a b c)
    ∙ visit_all-totals recs (a + 1) (b + word r.raw_bytes) (c + word r.kept_bytes)
    ∙ same_totals _ _ _ _ _ _ (omega arith) (omega arith) (omega arith)

-- The row of the records with that name, none where there are none: its commands are their number,
-- its sizes their sums, as 64-bit words, and the rest is what `fillDerivedMetrics` makes of these.
abbrev pub row_for : Text → List RunRecord → Option Row
row_for name [] = none
row_for name (r ∷ recs) = some (
    fill_row (record {
      name = name;
      totals =
          totals_of (length (r ∷ recs)) (sum_words (λ r. r.raw_bytes) (r ∷ recs))
            (sum_words (λ r. r.kept_bytes) (r ∷ recs));
    }))

-- The row of some records, as the visits have made it.
abbrev pub visited_row : Text → List RunRecord → Option Row
visited_row name [] = none
visited_row name (r ∷ recs) =
    some (fill_row (record { name = name; totals = visit_all count_record (r ∷ recs) no_totals }))

pub visited_row-row_for :
    (name : Text) (recs : List RunRecord) → visited_row name recs ≡ row_for name recs
visited_row-row_for name [] = refl
visited_row-row_for name (r ∷ recs) =
    ap (λ (t : Totals). some (fill_row (record { name = name; totals = t })))
      (visit_all-totals (r ∷ recs) 0 0 0
        ∙ same_totals _ _ _ _ _ _ (omega arith) (omega arith) (omega arith))
