-- ===== src/Metrics/Tests.antt =====
-- The metrics of small stores.
mod Bucket
use cmdshape.Base.{
  ℕ, suc, Bool, true, false, List, [], ◌∷◌, ◌++◌, Option, none, some, Text, codes, ℤ, pos, negsuc,
  Perm, ◌≡◌, refl, arith, ◌↔◌, if◌then◌else◌, ◌+◌, ◌^◌, ◌<◌, text_less, ltb, ◌==◌, ◌||◌, ◌&&◌,
}
use mathlib.Core.List.Perm
use mathlib.Core.List.{Mem, mem-cons_self, mem-cons_of_mem, reverse, reverse_perm}
use cmdshape.Metrics.{Source, RunRecord, normalize_registry_sources}
use cmdshape.Metrics.Record.{
  SourceJson, is_blank, put_non_negative, get_bounded_int64, required_fields, read_non_negative,
  take_bytes, encode_run_record, encode_run_key,
}
use cmdshape.Metrics.Decode.{
  or_error, decode_run_record, decoded, decode_error, trailing_record_bytes,
  malformed_required_fields,
}
use cmdshape.Metrics.RoundTrip.{
  decode_run_record-encode_run_record, decode_run_record-trailing_bytes,
}
use cmdshape.Metrics.Stored.{IsEncodable, stored}
use cmdshape.Metrics.Keys.{encode_run_key_order, seconds}
use cmdshape.Metrics.Totals.{Totals, Row, no_totals, fill_derived_metrics}
use cmdshape.Metrics.Totals.Balance.{fill_derived_metrics_lem}
use cmdshape.Metrics.Queries.{
  QueryOptions, Entries, RowMap, fill_row, scanned, undecodable, query_summary, query_rows,
  query_missed_opportunities,
}
use cmdshape.Metrics.Queries.Scan.{HoldRecords, matching, queries-undecodable}
use cmdshape.Metrics.Queries.Rows.{query_rows-order_free}
use cmdshape.Metrics.Queries.Sums.{asked, row_for}
use cmdshape.Metrics.Queries.Counts.{named, query_rows-row_for}
use cmdshape.Metrics.Store.{
  is_old, commit_new, put_run, prune_old_runs, prune_old_event_ids, prune_runs_loop, prune_ids_loop,
  purge_loop, Db, SpoolEvent, commit_spool_event, purge_before,
}
use cmdshape.Metrics.Store.Once.{commit_spool_event_twice}
use cmdshape.Metrics.Store.Purge.{purge_before_lem}
use cmdshape.Metrics.Tests.Bucket.{ListBucket, bucket, bucket-IsBolt}

abbrev source : Source
source = record {
  source_kind = codes "embedded";
  source_dir = codes " a ";
  definitions = pos 3;
  compiled = negsuc 0;
  duration_ms = pos 7;
  error = [];
}

-- The text of the one list of sources that the tests have.
abbrev json : SourceJson
json = record {
  marshal = λ sources. some (codes "[{}]");
  unmarshal = λ raw. some (normalize_registry_sources (source ∷ []));
}

abbrev run_at : ℤ → RunRecord
run_at t = record {
  timestamp_unix = t;
  command = codes "go test";
  tool = [];
  dispatch = codes "go|test";
  raw_bytes = pos 10;
  kept_bytes = pos 3;
  exit_code = negsuc 1;
  duration_ms = pos 5;
  passthrough = false;
  filter_source_kind = codes "embedded";
  filter_path = codes "go.yml";
  filter_hash = [];
  registry_build_recorded = true;
  registry_build_ms = pos 2;
  registry_sources = source ∷ [];
}

solid : is_blank (codes "[{}]") ≡ false
unfolding is_blank
solid = refl

abbrev encodable : (t : ℕ) → t < 2 ^ 63 → IsEncodable json (run_at (pos t))
encodable t h = (
  (h, omega arith, omega arith, omega arith),
  (omega arith, omega arith, omega arith, omega arith),
  (omega arith, omega arith, omega arith),
  (omega arith, (codes "[{}]", refl, refl, solid, omega arith)),
)

decode_run_record-encode_run_record_example :
    decode_run_record json (encode_run_record json (run_at (pos 300)))
    ≡ decoded (stored (run_at (pos 300)))
decode_run_record-encode_run_record_example =
    decode_run_record-encode_run_record json (run_at (pos 300)) (encodable 300 (omega arith))

decode_run_record-trailing_bytes_example :
    decode_run_record json (encode_run_record json (run_at (pos 300)) ++ 0 ∷ [])
    ≡ decode_error trailing_record_bytes
decode_run_record-trailing_bytes_example =
    decode_run_record-trailing_bytes json (run_at (pos 300)) 0 [] (encodable 300 (omega arith)) refl

encode_run_key_order_example :
    text_less (encode_run_key (pos 300) 7) (encode_run_key (pos 1000) 2) ≡ (
      ltb (seconds (pos 300)) (seconds (pos 1000))
      || (seconds (pos 300) == seconds (pos 1000) && ltb 7 2))
encode_run_key_order_example =
    encode_run_key_order (pos 300) (pos 1000) 7 2 (omega arith) (omega arith) (omega arith)
      (omega arith)

abbrev counted : Totals
counted = record no_totals { commands = 2; raw_bytes = 10; kept_bytes = 5 }

fill_derived_metrics_lem_example :
    let d = fill_derived_metrics counted in
    (d.dropped_bytes ≡ 5)
    × (d.input_tokens ≡ 3)
    × (d.output_tokens ≡ 2)
    × (d.saved_tokens + d.output_tokens ≡ d.input_tokens)
fill_derived_metrics_lem_example = fill_derived_metrics_lem counted (omega arith) (omega arith)

abbrev every : QueryOptions
every = record { tool = []; failed = false }

abbrev two_runs : Entries
two_runs =
    (codes "1", encode_run_record json (run_at (pos 300)))
    ∷ (codes "2", encode_run_record json (run_at (pos 900)))
    ∷ []

abbrev command_of : RunRecord → Text
command_of rec = rec.command

two_runs-HoldRecords :
    HoldRecords json two_runs (stored (run_at (pos 300)) ∷ stored (run_at (pos 900)) ∷ [])
two_runs-HoldRecords = (
  decode_run_record-encode_run_record json (run_at (pos 300)) (encodable 300 (omega arith)),
  (decode_run_record-encode_run_record json (run_at (pos 900)) (encodable 900 (omega arith)), tt),
)

broken : decode_run_record json [] ≡ decode_error malformed_required_fields
unfolding decode_run_record or_error required_fields read_non_negative take_bytes
broken = refl

queries-undecodable_example :
    (query_summary json every (pos 0) (some (two_runs ++ (codes "3", []) ∷ []))
      ≡ undecodable (codes "3") malformed_required_fields)
    × (query_rows (λ m. m) json every (pos 0) (some (two_runs ++ (codes "3", []) ∷ [])) command_of
        ≡ undecodable (codes "3") malformed_required_fields)
    × (query_missed_opportunities
          (λ m. m)
          json
          every
          (pos 0)
          (some (two_runs ++ (codes "3", []) ∷ []))
          (pos 3)
        ≡ undecodable (codes "3") malformed_required_fields)
queries-undecodable_example =
    queries-undecodable (λ m. m) (λ m. m) json every (pos 0) (pos 3) command_of two_runs []
      (stored (run_at (pos 300)) ∷ stored (run_at (pos 900)) ∷ []) (codes "3") []
      malformed_required_fields two_runs-HoldRecords broken

query_rows-order_free_example :
    query_rows (λ m. m) json every (pos 0) (some two_runs) command_of
    ≡ query_rows reverse json every (pos 0) (some two_runs) command_of
query_rows-order_free_example =
    query_rows-order_free (λ m. m) reverse json every (pos 0) (some two_runs) command_of
      (λ m. Perm.refl m) (λ m. reverse_perm m)

abbrev tested : Row
tested = fill_row (record {
  name = codes "go test";
  totals = record no_totals { commands = 2; raw_bytes = 20; kept_bytes = 6 };
})

query_rows-row_for_example :
    (rows : List Row) × (query_rows (λ m. m) json every (pos 0) (some two_runs) command_of
      ≡ scanned true rows)
    × (Mem tested rows ↔ (
        row_for tested.name (
          named command_of tested.name
            (asked every (pos 0) (stored (run_at (pos 300)) ∷ stored (run_at (pos 900)) ∷ [])))
        ≡ some tested))
query_rows-row_for_example =
    query_rows-row_for (λ m. m) json every (pos 0) two_runs
      (stored (run_at (pos 300)) ∷ stored (run_at (pos 900)) ∷ []) command_of tested
      (λ m. Perm.refl m) two_runs-HoldRecords

abbrev empty_bucket : ListBucket
empty_bucket = (([], tt), 0)

abbrev empty_db : Db ListBucket
empty_db = record { runs = some empty_bucket; events = some empty_bucket }

abbrev event : SpoolEvent
event = record { id = codes "e1"; run = run_at (pos 300) }

-- The database after one commit.
committed :
    (db : Db ListBucket) × (commit_spool_event bucket json (pos 100) event empty_db ≡ some db)
unfolding commit_spool_event commit_new put_run prune_old_runs prune_old_event_ids prune_runs_loop
    prune_ids_loop is_old get_bounded_int64 encode_run_key put_non_negative
committed = (_, refl)

commit_spool_event_twice_example :
    commit_spool_event bucket json (pos 400) event committed.0 ≡ some committed.0
commit_spool_event_twice_example =
    commit_spool_event_twice bucket bucket-IsBolt json (pos 100) (pos 400) event empty_db
      committed.0 (omega arith) refl committed.1

abbrev old_key : Text
old_key = encode_run_key (pos 100) 1

abbrev young_key : Text
young_key = encode_run_key (pos 900) 2

in_order : text_less old_key young_key ≡ true
unfolding encode_run_key put_non_negative
in_order = refl

abbrev runs : ListBucket
runs = (((old_key, codes "a") ∷ (young_key, codes "b") ∷ [], ((in_order, tt), (tt, tt))), 2)

abbrev full_db : Db ListBucket
full_db = record { runs = some runs; events = some empty_bucket }

purged : (db : Db ListBucket) × (purge_before bucket (pos 500) full_db ≡ some (1, db))
unfolding purge_before purge_loop is_old get_bounded_int64 encode_run_key put_non_negative
purged = (_, refl)

purge_before_lem_example :
    (b : ListBucket) × (purged.0.runs ≡ some b)
    × (bucket.get_value old_key b ≡ (if is_old (pos 500) old_key then none else some (codes "a")))
purge_before_lem_example =
    purge_before_lem bucket bucket-IsBolt (pos 500) full_db purged.0 runs 1 old_key (codes "a")
      (
        (pos 100, 1, omega arith, omega arith, refl),
        ((pos 900, 2, omega arith, omega arith, refl), tt),
      )
      refl purged.1 mem-cons_self
