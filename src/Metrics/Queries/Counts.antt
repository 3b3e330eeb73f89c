-- ===== src/Metrics/Queries/Counts.antt =====
-- What the rows of a summary count.
use cmdshape.Base.{
  true, List, [], ◌∷◌, map, none, some, Text, ℤ, ◌≡◌, refl, sym, ap, ◌∙◌, subst, inl, inr, ◌↔◌,
  Perm, Bool-cases, All, select, text_eq, text_eq_iff, values, get, get-group, group, gather,
  sort_by_perm,
}
use mathlib.Core.Option
use mathlib.Core.List.{Mem, mem-cons_self, mem-cons_of_mem}
use mathlib.Core.List.Perm
use cmdshape.Metrics.{RunRecord}
use cmdshape.Metrics.Record.{SourceJson}
use cmdshape.Metrics.Totals.{Totals, Row, no_row, no_totals, count_record}
use cmdshape.Metrics.Queries.{
  QueryOptions, scanned, Entries, finish_query, RowMap, count_row, count_into, row_less, fill_row,
  sorted_rows, query_rows,
}
use cmdshape.Metrics.Queries.Scan.{HoldRecords, matching, visit_all, scan-HoldRecords}
use cmdshape.Metrics.Queries.Sums.{asked, row_for, visited_row, visited_row-row_for, matching-asked}
use cmdshape.Metrics.Queries.Rows.{IsGrouped, count_into-IsGrouped, filled_mem, sorted_rows-perm}

-- The records with that name.
abbrev pub named : (RunRecord → Text) → Text → List RunRecord → List RunRecord
named key name recs = select (λ r. text_eq (key r) name) recs

All-named :
    (key : RunRecord → Text) (name : Text) (recs : List RunRecord)
    → All (λ r. key r ≡ name) (named key name recs)
All-named key name [] = tt
All-named key name (r ∷ recs) = elim (Bool-cases (text_eq (key r) name)) [
  | inl e ↦ rw (e, All) ((text_eq_iff (key r) name).0 e, All-named key name recs)
  | inr e ↦ rw e (All-named key name recs)
]

module _ (key : RunRecord → Text) where
  step : RunRecord → Row → Row
  step r row = count_row (key r) r row

  gather-some :
      (name : Text) (recs : List RunRecord) (t : Totals)
      → All (λ r. key r ≡ name) recs
      → gather key no_row step recs (some (record { name = name; totals = t }))
        ≡ some (record { name = name; totals = visit_all count_record recs t })
  unfolding step count_row
  gather-some name [] t h = refl
  gather-some name (r ∷ recs) t (e, h) = rw e (gather-some name recs (count_record r t) h)

  gather-visited_row :
      (name : Text) (recs : List RunRecord)
      → All (λ r. key r ≡ name) recs
      → Option.map fill_row (gather key no_row step recs none) ≡ visited_row name recs
  unfolding step count_row
  gather-visited_row name [] h = refl
  gather-visited_row name (r ∷ recs) (e, h) =
      rw e (ap (Option.map fill_row) (gather-some name recs (count_record r no_totals) h))

  visit_all-group :
      (recs : List RunRecord) (m : RowMap)
      → visit_all (count_into key) recs m ≡ group key no_row step recs m
  unfolding step count_into
  visit_all-group [] m = refl
  visit_all-group (r ∷ recs) m = visit_all-group recs (count_into key r m)

  visit_all-IsGrouped :
      (recs : List RunRecord) (m : RowMap)
      → IsGrouped m
      → IsGrouped (visit_all (count_into key) recs m)
  visit_all-IsGrouped [] m h = h
  visit_all-IsGrouped (r ∷ recs) m h =
      visit_all-IsGrouped recs (count_into key r m) (count_into-IsGrouped key r m h)

  -- What the map has for a name, once all the records are counted.
  get-visit_all :
      (name : Text) (recs : List RunRecord)
      → Option.map fill_row (get name (visit_all (count_into key) recs []))
        ≡ visited_row name (named key name recs)
  get-visit_all name recs =
      ap (λ (m : RowMap). Option.map fill_row (get name m)) (visit_all-group recs [])
      ∙ ap (Option.map fill_row) (get-group key no_row step name recs [])
      ∙ gather-visited_row name (named key name recs) (All-named key name recs)

filled-Mem :
    (m : RowMap) (name : Text) (row : Row)
    → Option.map fill_row (get name m) ≡ some row
    → Mem row (map fill_row (values m))
filled-Mem [] name row e = absurd (cc)
filled-Mem ((k, r) ∷ m) name row e = elim (Bool-cases (text_eq k name)) [
  | inl h ↦
      let same : fill_row r ≡ row = Option.some_inj.0 (sym (rw h refl) ∙ e) in
      subst (λ (x : Row). Mem x (fill_row r ∷ map fill_row (values m))) same mem-cons_self
  | inr h ↦ mem-cons_of_mem (fill_row r) (filled-Mem m name row (sym (rw h refl) ∙ e))
]

-- Where every value of the store decodes, the query succeeds, and a row is in its output if and only
-- if it is the row of the records that are asked for and have its name: there are such records, its
-- commands are their number, its sizes their sums as 64-bit words, and the rest is what
-- `fillDerivedMetrics` makes of these.
pub query_rows-row_for :
    (iterate : RowMap → RowMap) (json : SourceJson) (opts : QueryOptions) (threshold : ℤ)
    (entries : Entries) (recs : List RunRecord) (key : RunRecord → Text) (row : Row)
    → ((t : RowMap) → Perm (iterate t) t)
    → HoldRecords json entries recs
    → (rows : List Row) × (query_rows iterate json opts threshold (some entries) key
        ≡ scanned true rows)
      × (Mem row rows
          ↔ (row_for row.name (named key row.name (asked opts threshold recs)) ≡ some row))
unfolding query_rows
query_rows-row_for iterate json opts threshold entries recs key row shuffles h =
    let m = visit_all (count_into key) (matching opts threshold recs) [] in
    let grouped = visit_all-IsGrouped key (matching opts threshold recs) [] (tt, tt) in
    let filled = map fill_row (values m) in
    let sorted = Perm.mem_iff (sort_by_perm row_less filled) in
    let content =
      get-visit_all key row.name (matching opts threshold recs)
      ∙ visited_row-row_for row.name (named key row.name (matching opts threshold recs))
      ∙ ap (λ (t : List RunRecord). row_for row.name (named key row.name t))
          (matching-asked opts threshold recs) in
    (
      sorted_rows iterate m,
      ap (finish_query (sorted_rows iterate))
          (scan-HoldRecords json opts threshold (count_into key) entries recs [] h),
      rw (sorted_rows-perm iterate m shuffles grouped) (
        λ mem. sym content ∙ filled_mem m row grouped (sorted.0 mem),
        λ e. sorted.1 (filled-Mem m row.name row (content ∙ e)),
      ),
    )
