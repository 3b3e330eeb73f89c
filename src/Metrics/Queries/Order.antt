-- ===== src/Metrics/Queries/Order.antt =====
-- The comparisons that sort rows and missed opportunities order strictly.
use cmdshape.Base.{
  ℕ, true, false, Text, ◌≡◌, ◌≢◌, ◌⊎◌, inl, inr, IsStrict, Bool-cases, text_less, text_less_asym,
  text_less_trans, text_less_total, arith,
}
use cmdshape.Metrics.Totals.{rank, Row}
use cmdshape.Metrics.Queries.{count_less, row_less, MissedOpportunity, compare_missed_opportunities}

count_less_asym : (m n : ℕ) (s t : Text) → count_less m s n t ≡ true → count_less n t m s ≡ false
count_less_asym m n s t h = elim (Bool-cases (text_less s t)) [
  | inl k ↦ ground (arith, h, k, text_less_asym s t k)
  | inr k ↦ ground (arith, h, k)
]

count_less_trans :
    (m n o : ℕ) (s t u : Text)
    → count_less m s n t ≡ true
    → count_less n t o u ≡ true
    → count_less m s o u ≡ true
count_less_trans m n o s t u h k = elim (Bool-cases (text_less s t)) [
  | inl st ↦ elim (Bool-cases (text_less t u)) [
    | inl tu ↦ ground (arith, h, k, st, tu, text_less_trans s t u st tu)
    | inr tu ↦ ground (arith, h, k, st, tu)
  ]
  | inr st ↦ ground (arith, h, k, st)
]

count_less_total :
    (m n : ℕ) (s t : Text) → s ≢ t → (count_less m s n t ≡ true) ⊎ (count_less n t m s ≡ true)
count_less_total m n s t h = elim (text_less_total s t h) [
  | inl k ↦ ground (arith, k)
  | inr k ↦ ground (arith, k)
]

pub row_less-IsStrict : IsStrict row_less
unfolding row_less
row_less-IsStrict = record {
  asym = λ a b h. count_less_asym (rank a.totals.commands) (rank b.totals.commands) a.name b.name h;
  trans = λ a b c h k.
      count_less_trans (rank a.totals.commands) (rank b.totals.commands) (rank c.totals.commands)
        a.name b.name c.name h k;
}

pub row_less_total : (a b : Row) → a.name ≢ b.name → (row_less a b ≡ true) ⊎ (row_less b a ≡ true)
unfolding row_less
row_less_total a b h =
    count_less_total (rank a.totals.commands) (rank b.totals.commands) a.name b.name h

pub missed-IsStrict : IsStrict compare_missed_opportunities
unfolding compare_missed_opportunities
missed-IsStrict = record {
  asym = λ a b h. count_less_asym (rank a.count) (rank b.count) a.command b.command h;
  trans = λ a b c h k.
      count_less_trans (rank a.count) (rank b.count) (rank c.count) a.command b.command c.command h
        k;
}

pub missed_total :
    (a b : MissedOpportunity)
    → a.command ≢ b.command
    → (compare_missed_opportunities a b ≡ true) ⊎ (compare_missed_opportunities b a ≡ true)
unfolding compare_missed_opportunities
missed_total a b h = count_less_total (rank a.count) (rank b.count) a.command b.command h
