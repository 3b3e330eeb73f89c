-- ===== src/Metrics/Queries/Scan.antt =====
-- What a scan makes of a store whose values decode, and of one with a value that does not.
use cmdshape.Base.{
  true, List, [], ◌∷◌, ◌++◌, some, Text, ℤ, ◌≡◌, refl, sym, ap, ◌∙◌, Bool-cases, inl, inr, select,
  append-nil,
}
use cmdshape.Metrics.{RunRecord}
use cmdshape.Metrics.Record.{SourceJson}
use cmdshape.Metrics.Decode.{DecodeError, decoded, decode_error, decode_run_record}
use cmdshape.Metrics.Totals.{no_totals, count_record}
use cmdshape.Metrics.Queries.{
  QueryOptions, matches_options, scanned, undecodable, Entries, scan_entries, scan_run_records,
  query_summary, RowMap, query_rows, finish_query, sorted_rows, count_into, count_missed,
  top_opportunities, query_missed_opportunities, CountMap,
}

-- The values of the entries decode to these records.
abbrev pub HoldRecords : SourceJson → Entries → List RunRecord → Type 0
HoldRecords json [] [] = Unit
HoldRecords json [] (r ∷ recs) = ⊥
HoldRecords json ((key, value) ∷ entries) [] = ⊥
HoldRecords json ((key, value) ∷ entries) (r ∷ recs) =
    (decode_run_record json value ≡ decoded r) × HoldRecords json entries recs

-- The records that a query looks at.
abbrev pub matching : QueryOptions → ℤ → List RunRecord → List RunRecord
matching opts threshold recs = select (λ r. matches_options r opts threshold) recs

module _ {ℓ} {S : Type ℓ} where
  abbrev pub visit_all : (RunRecord → S → S) → List RunRecord → S → S
  visit_all visit [] s = s
  visit_all visit (r ∷ recs) s = visit_all visit recs (visit r s)

  module _ (json : SourceJson) (opts : QueryOptions) (threshold : ℤ)
      (visit : RunRecord → S → S) where
    pub scan_entries_lem :
        (entries more : Entries) (recs : List RunRecord) (s : S)
        → HoldRecords json entries recs
        → scan_entries json opts threshold visit (entries ++ more) s
          ≡ scan_entries json opts threshold visit more
              (visit_all visit (matching opts threshold recs) s)
    unfolding scan_entries
    scan_entries_lem [] more [] s h = refl
    scan_entries_lem [] more (r ∷ recs) s h = absurd h
    scan_entries_lem ((key, value) ∷ entries) more [] s h = absurd h
    scan_entries_lem ((key, value) ∷ entries) more (r ∷ recs) s (e, h) =
        elim (Bool-cases (matches_options r opts threshold)) [
          | inl yes_it_does ↦
              rw (e, yes_it_does, scan_entries) (scan_entries_lem entries more recs (visit r s) h)
          | inr it_does_not ↦
              rw (e, it_does_not, scan_entries) (scan_entries_lem entries more recs s h)
        ]

    -- All the values decode.
    pub scan-HoldRecords :
        (entries : Entries) (recs : List RunRecord) (s : S)
        → HoldRecords json entries recs
        → scan_run_records json opts threshold visit (some entries) s
          ≡ scanned true (visit_all visit (matching opts threshold recs) s)
    unfolding scan_run_records scan_entries
    scan-HoldRecords entries recs s h =
        ap (λ (t : Entries). scan_entries json opts threshold visit t s) (sym (append-nil entries))
        ∙ scan_entries_lem entries [] recs s h

    -- The first value that does not is the error.
    pub scan-undecodable :
        (entries more : Entries) (recs : List RunRecord) (key value : Text) (err : DecodeError)
        (s : S)
        → HoldRecords json entries recs
        → decode_run_record json value ≡ decode_error err
        → scan_run_records json opts threshold visit (some (entries ++ (key, value) ∷ more)) s
          ≡ undecodable key err
    unfolding scan_run_records scan_entries
    scan-undecodable entries more recs key value err s h bad =
        scan_entries_lem entries ((key, value) ∷ more) recs s h ∙ rw (bad, scan_entries) refl

-- A value that does not decode fails each of the queries, with its own error and its key, and
-- nothing of what was counted before is returned.
pub queries-undecodable :
    (rows : RowMap → RowMap) (counts : CountMap → CountMap) (json : SourceJson)
    (opts : QueryOptions) (threshold limit : ℤ) (key_of : RunRecord → Text) (entries more : Entries)
    (recs : List RunRecord) (key value : Text) (err : DecodeError)
    → HoldRecords json entries recs
    → decode_run_record json value ≡ decode_error err
    → (query_summary json opts threshold (some (entries ++ (key, value) ∷ more))
        ≡ undecodable key err)
      × (query_rows rows json opts threshold (some (entries ++ (key, value) ∷ more)) key_of
          ≡ undecodable key err)
      × (query_missed_opportunities counts json opts threshold
            (some (entries ++ (key, value) ∷ more))
            limit
          ≡ undecodable key err)
unfolding query_summary query_rows query_missed_opportunities
queries-undecodable rows counts json opts threshold limit key_of entries more recs key value err h
      bad =
    (
      rw
          (
            scan-undecodable json opts threshold count_record entries more recs key value err
                no_totals h bad,
            query_summary,
          )
          refl,
      ap (finish_query (sorted_rows rows)) (
          scan-undecodable json opts threshold (count_into key_of) entries more recs key value err
            [] h bad),
      ap (finish_query (top_opportunities counts limit)) (
          scan-undecodable json opts threshold count_missed entries more recs key value err [] h
            bad),
    )
