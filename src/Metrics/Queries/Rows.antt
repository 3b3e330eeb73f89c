-- ===== src/Metrics/Queries/Rows.antt =====
-- The rows of a summary: the order of the map that groups the records does not show in them, and
-- each of them counts the records that have its name.
use cmdshape.Base.{
  true, List, [], ◌∷◌, map, Option, none, some, Text, ℤ, ◌≡◌, refl, sym, ap, ◌∙◌, inl, inr, Perm,
  Bool-cases, text_eq, text_eq_iff, IsDistinct, AllEntries, values, get, IsComparable, sort_by,
  sort_by-perm, update-IsDistinct, update-AllEntries,
}
use mathlib.Core.Option
use mathlib.Core.List.{Mem, Memᴰ}
use mathlib.Core.List.Perm
use mathlib.Core.Logic.{∥∥₁_elim}
use cmdshape.Metrics.{RunRecord}
use cmdshape.Metrics.Record.{SourceJson}
use cmdshape.Metrics.Decode.{decode_run_record, Decoded-cases}
use cmdshape.Metrics.Totals.{Row, no_row}
use cmdshape.Metrics.Queries.{
  QueryOptions, matches_options, scanned, Entries, scan_entries, scan_run_records, finish_query,
  RowMap, count_row, count_into, row_less, fill_row, sorted_rows, query_rows,
}
use cmdshape.Metrics.Queries.Order.{row_less-IsStrict, row_less_total}

-- A grouped map: a key has one entry, and the row is named for it.
abbrev pub IsGrouped : RowMap → Type 0
IsGrouped m = IsDistinct m × AllEntries (λ k row. row.name ≡ k) m

Rows_set : IsSet (List Row)
Rows_set = hlevel

Option_row_set : IsSet (Option Row)
Option_row_set = hlevel

pub count_into-IsGrouped :
    (key : RunRecord → Text) (rec : RunRecord) (m : RowMap)
    → IsGrouped m
    → IsGrouped (count_into key rec m)
unfolding count_into count_row
count_into-IsGrouped key rec m (distinct, named) = (
  update-IsDistinct (key rec) no_row (count_row (key rec) rec) m distinct,
  update-AllEntries (λ k row. row.name ≡ k) (key rec) no_row (count_row (key rec) rec) m
      (λ row. refl) named,
)

fill_row-name : (row : Row) → (fill_row row).name ≡ row.name
unfolding fill_row
fill_row-name row = refl

-- A row of the output is the row of its name in the map.
filled_memᴰ :
    (m : RowMap) (row : Row)
    → IsGrouped m
    → Memᴰ row (map fill_row (values m))
    → Option.map fill_row (get row.name m) ≡ some row
filled_memᴰ [] row h d = elim d [ ]
filled_memᴰ ((k, r) ∷ m) row ((fresh, distinct), (named, rest)) (Memᴰ.head e) =
    let here : text_eq k row.name ≡ true =
      (text_eq_iff k row.name).1
        (sym named ∙ sym (fill_row-name r) ∙ ap (λ (x : Row). x.name) (sym e)) in
    rw here (ap some (sym e))
filled_memᴰ ((k, r) ∷ m) row ((fresh, distinct), (named, rest)) (Memᴰ.tail d) =
    let later = filled_memᴰ m row (distinct, rest) d in
    elim (Bool-cases (text_eq k row.name)) [
      | inl same ↦
          let missing : get row.name m ≡ none =
            ap (λ (j : Text). get j m) (sym ((text_eq_iff k row.name).0 same)) ∙ fresh in
          let none_here = ap (Option.map fill_row) missing in absurd (cc)
      | inr other ↦ rw other later
    ]

pub filled_mem :
    (m : RowMap) (row : Row)
    → IsGrouped m
    → Mem row (map fill_row (values m))
    → Option.map fill_row (get row.name m) ≡ some row
filled_mem m row h d = ∥∥₁_elim d (Option_row_set _ _) (λ p. filled_memᴰ m row h p)

-- Two rows of the output are the same or ordered.
filled-IsComparable :
    (m : RowMap) → IsGrouped m → IsComparable row_less row_less-IsStrict (map fill_row (values m))
filled-IsComparable m h a b ma mb = elim (Bool-cases (text_eq a.name b.name)) [
  | inl same ↦
      let fa = filled_mem m a h ma in
      let fb = filled_mem m b h mb in
      let e : Option.map fill_row (get a.name m) ≡ Option.map fill_row (get b.name m) =
        ap (λ (n : Text). Option.map fill_row (get n m)) ((text_eq_iff a.name b.name).0 same) in
      inl (Option.some_inj.0 (sym fa ∙ e ∙ fb))
  | inr other ↦
      inr (row_less_total a b (λ e. let same = (text_eq_iff a.name b.name).1 e in absurd (cc)))
]

pub sorted_rows-perm :
    (iterate : RowMap → RowMap) (m : RowMap)
    → ((t : RowMap) → Perm (iterate t) t)
    → IsGrouped m
    → sorted_rows iterate m ≡ sort_by row_less (map fill_row (values m))
unfolding sorted_rows
sorted_rows-perm iterate m shuffles h = sym (
    sort_by-perm row_less row_less-IsStrict Rows_set _ _
      (Perm.symm (Perm.map fill_row (Perm.map (λ (k, a). a) (shuffles m))))
      (filled-IsComparable m h))

finish_query-scan :
    (json : SourceJson) (opts : QueryOptions) (threshold : ℤ) (key : RunRecord → Text)
    (f g : RowMap → List Row)
    → ((m : RowMap) → IsGrouped m → f m ≡ g m)
    → (entries : Entries) (m : RowMap) → IsGrouped m
    → finish_query f (scan_entries json opts threshold (count_into key) entries m)
      ≡ finish_query g (scan_entries json opts threshold (count_into key) entries m)
unfolding scan_entries
finish_query-scan json opts threshold key f g same [] m h = ap (scanned true) (same m h)
finish_query-scan json opts threshold key f g same ((k, value) ∷ entries) m h =
    elim (Decoded-cases (decode_run_record json value)) [
      | inr (err, e) ↦ rw (e, scan_entries) refl
      | inl (rec, e) ↦ elim (Bool-cases (matches_options rec opts threshold)) [
        | inl on ↦
            rw (e, on, scan_entries)
              (finish_query-scan json opts threshold key f g same entries (count_into key rec m)
                (count_into-IsGrouped key rec m h))
        | inr off ↦
            rw (e, off, scan_entries)
              (finish_query-scan json opts threshold key f g same entries m h)
      ]
    ]

-- The rows of a summary, by command or by tool, and their order, do not depend on the order in which
-- the loop over the map meets its entries, whatever the store holds; nor does the error.
pub query_rows-order_free :
    (iterate iterate' : RowMap → RowMap) (json : SourceJson) (opts : QueryOptions) (threshold : ℤ)
    (store : Option Entries) (key : RunRecord → Text)
    → ((t : RowMap) → Perm (iterate t) t)
    → ((t : RowMap) → Perm (iterate' t) t)
    → query_rows iterate json opts threshold store key
      ≡ query_rows iterate' json opts threshold store key
unfolding query_rows scan_run_records
query_rows-order_free iterate iterate' json opts threshold none key h h' = refl
query_rows-order_free iterate iterate' json opts threshold (some entries) key h h' =
    finish_query-scan json opts threshold key (sorted_rows iterate) (sorted_rows iterate')
      (λ m grouped.
        sorted_rows-perm iterate m h grouped ∙ sym (sorted_rows-perm iterate' m h' grouped))
      entries [] (tt, tt)
