-- ===== src/Metrics/Queries.antt =====
-- internal/metrics/store.go: the queries over the records of a store. A store that can be read is
-- the list of its keys and values in the order of the keys, `none` where there is no file; `json`
-- reads the sources of a record, `threshold` is the result of `sinceThreshold`, and `iterate` is the
-- order in which a loop over a map meets its entries.
pub mod Scan
pub mod Sums
mod Order
pub mod Rows
pub mod Counts
use cmdshape.Base.{
  int_less, ℕ, ◌+◌, ◌%◌, ◌^◌, Bool, true, false, ◌||◌, ◌&&◌, not, List, [], ◌∷◌, map, Option, none,
  some, Text, ℤ, pos, negsuc, text_eq, is_empty, text_less, codes, length, take, ltb, leb, ◌==◌,
  if◌then◌else◌, update, values, sort_by,
}
use cmdshape.Metrics.{RunRecord}
use cmdshape.Metrics.Record.{SourceJson}
use cmdshape.Metrics.Decode.{DecodeError, Decoded, decoded, decode_error, decode_run_record}
use cmdshape.Metrics.Totals.{
  add64, rank, Totals, Row, no_totals, no_row, count_record, fill_derived_metrics,
}

-- `QueryOptions`, as far as `matchesOptions` reads it
pub record QueryOptions : Type 0 where
  pub tool : Text
  pub failed : Bool

abbrev pub is_zero : ℤ → Bool
is_zero (pos n) = n == 0
is_zero (negsuc n) = false

abbrev pub is_positive : ℤ → Bool
is_positive (pos n) = ltb 0 n
is_positive (negsuc n) = false

unfoldable pub matches_options : RunRecord → QueryOptions → ℤ → Bool
matches_options rec opts since =
    if is_positive since && int_less rec.timestamp_unix since
    then false
    else if not (is_empty opts.tool) && not (text_eq rec.tool opts.tool)
    then false
    else if opts.failed && is_zero rec.exit_code
    then false
    else true

-- The results of a scan: whether there is a store, and what the visits have made; or the error of the
-- first record that cannot be decoded, with its key.
pub data Scanned {ℓ} (S : Type ℓ) : Type ℓ where
  scanned : Bool → S → Scanned S
  undecodable : Text → DecodeError → Scanned S

abbrev pub Entries : Type 0
Entries = List (Text × Text)

module _ {ℓ} {S : Type ℓ} (json : SourceJson) (opts : QueryOptions) (threshold : ℤ) where
  unfoldable pub scan_entries : (RunRecord → S → S) → Entries → S → Scanned S
  scan_entries visit [] s = scanned true s
  scan_entries visit ((key, value) ∷ entries) s = elim (decode_run_record json value) [
    | decode_error e ↦ undecodable key e
    | decoded rec ↦
        let visited = scan_entries visit entries (visit rec s) in
        let skipped = scan_entries visit entries s in
        if matches_options rec opts threshold then visited else skipped
  ]

  unfoldable pub scan_run_records : (RunRecord → S → S) → Option Entries → S → Scanned S
  scan_run_records visit none s = scanned false s
  scan_run_records visit (some entries) s = scan_entries visit entries s

-- What a query makes of the results of its scan; nothing where there is no store.
abbrev pub finish_query {ℓ κ} :
    {S : Type ℓ} {B : Type κ} → (S → List B) → Scanned S → Scanned (List B)
finish_query f (scanned true s) = scanned true (f s)
finish_query f (scanned false s) = scanned false []
finish_query f (undecodable key e) = undecodable key e

module _ (json : SourceJson) (opts : QueryOptions) (threshold : ℤ) (store : Option Entries) where
  unfoldable pub query_summary : Scanned Totals
  query_summary = elim (scan_run_records json opts threshold count_record store no_totals) [
    | scanned found total ↦ scanned found (fill_derived_metrics total)
    | undecodable key e ↦ undecodable key e
  ]

abbrev pub RowMap : Type 0
RowMap = List (Text × Row)

-- A row for the key, counted.
unfoldable pub count_row : Text → RunRecord → Row → Row
count_row key rec row = record { name = key; totals = count_record rec row.totals }

-- The visitor of `QuerySummaryRows`
unfoldable pub count_into : (RunRecord → Text) → RunRecord → RowMap → RowMap
count_into key rec grouped = update (key rec) no_row (count_row (key rec) rec) grouped

-- The higher count first, and names in their order where the counts are the same.
abbrev pub count_less : ℕ → Text → ℕ → Text → Bool
count_less m s n t = ltb n m || (n == m && text_less s t)

-- The comparison of the rows, where it is below 0.
unfoldable pub row_less : Row → Row → Bool
row_less left right =
    count_less (rank left.totals.commands) left.name (rank right.totals.commands) right.name

unfoldable pub fill_row : Row → Row
fill_row row = record row { totals = fill_derived_metrics row.totals }

unfoldable pub sorted_rows : (RowMap → RowMap) → RowMap → List Row
sorted_rows iterate grouped = sort_by row_less (map fill_row (values (iterate grouped)))

-- The key of `QuerySummaryRowsByTool`
unfoldable pub tool_key : RunRecord → Text
tool_key rec = if is_empty rec.tool then codes "unknown" else rec.tool

module _ (iterate : RowMap → RowMap) (json : SourceJson) (opts : QueryOptions) (threshold : ℤ)
    (store : Option Entries) where
  unfoldable pub query_rows : (RunRecord → Text) → Scanned (List Row)
  query_rows key =
      finish_query (sorted_rows iterate)
        (scan_run_records json opts threshold (count_into key) store [])

  unfoldable pub query_summary_rows : Scanned (List Row)
  query_summary_rows = query_rows (λ rec. rec.command)

  unfoldable pub query_summary_rows_by_tool : Scanned (List Row)
  query_summary_rows_by_tool = query_rows tool_key

-- `MissedOpportunity`; the count is a word.
pub record MissedOpportunity : Type 0 where
  pub command : Text
  pub count : ℕ

unfoldable pub compare_missed_opportunities : MissedOpportunity → MissedOpportunity → Bool
compare_missed_opportunities left right =
    count_less (rank left.count) left.command (rank right.count) right.command

abbrev pub CountMap : Type 0
CountMap = List (Text × ℕ)

unfoldable pub opportunities : CountMap → List MissedOpportunity
opportunities [] = []
opportunities ((cmd, cnt) ∷ grouped) = record { command = cmd; count = cnt } ∷ opportunities grouped

abbrev default_missed_top_limit : ℕ
default_missed_top_limit = 5

unfoldable pub missed_limit : ℤ → ℕ
missed_limit limit = elim limit [
  | pos n ↦ if n == 0 then default_missed_top_limit else n
  | negsuc n ↦ default_missed_top_limit
]

-- The visitor of `QueryMissedOpportunities`
unfoldable pub count_missed : RunRecord → CountMap → CountMap
count_missed rec grouped =
    if rec.passthrough then update rec.command 0 (λ n. add64 n 1) grouped else grouped

unfoldable pub top_opportunities : (CountMap → CountMap) → ℤ → CountMap → List MissedOpportunity
top_opportunities iterate limit grouped =
    take (missed_limit limit)
      (sort_by compare_missed_opportunities (opportunities (iterate grouped)))

unfoldable pub query_missed_opportunities :
    (CountMap → CountMap)
    → SourceJson
    → QueryOptions
    → ℤ
    → Option Entries
    → ℤ
    → Scanned (List MissedOpportunity)
query_missed_opportunities iterate json opts threshold store limit =
    finish_query (top_opportunities iterate limit)
      (scan_run_records json opts threshold count_missed store [])
