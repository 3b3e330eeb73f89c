-- ===== src/Metrics/Totals.antt =====
-- internal/metrics/store.go: the totals of a summary. An `int64` that the code adds to is the word
-- that it is stored in, a number below 2 ^ 64 in two's complement. The ratios, which are floating
-- point numbers, are left out.
pub mod Balance
use cmdshape.Base.{
  ℕ, ◌+◌, ◌-◌, ◌/◌, ◌%◌, ◌^◌, Bool, true, false, ◌||◌, ℤ, pos, negsuc, Text, ltb, leb, ◌==◌,
  u64_mod, [], if◌then◌else◌,
}
use cmdshape.Metrics.{RunRecord}

abbrev pub word : ℤ → ℕ
word (pos n) = n % u64_mod
word (negsuc n) = (u64_mod - 1 - n) % u64_mod

abbrev pub add64 : ℕ → ℕ → ℕ
add64 a b = (a + b) % u64_mod

abbrev pub sub64 : ℕ → ℕ → ℕ
sub64 a b = (a + u64_mod - b) % u64_mod

-- The place of a word among the signed numbers.
abbrev pub rank : ℕ → ℕ
rank w = (w + 2 ^ 63) % u64_mod

abbrev pub is_negative : ℕ → Bool
is_negative w = leb (2 ^ 63) w

-- `(v + 3) / 4`, which rounds to 0: where `v + 3` wraps, it is negative.
unfoldable pub tokens_from_bytes : ℕ → ℕ
tokens_from_bytes v =
    let sum = add64 v 3 in
    if is_negative v || v == 0
    then 0
    else if is_negative sum
    then sub64 0 ((u64_mod - sum) / 4)
    else sum / 4

-- `SummaryTotal`; with a name, a `SummaryRow` or a `SummaryToolRow`.
pub record Totals : Type 0 where
  pub commands : ℕ
  pub raw_bytes : ℕ
  pub kept_bytes : ℕ
  pub dropped_bytes : ℕ
  pub input_tokens : ℕ
  pub output_tokens : ℕ
  pub saved_tokens : ℕ

pub record Row : Type 0 where
  pub name : Text
  pub totals : Totals

abbrev pub no_totals : Totals
no_totals = record {
  commands = 0;
  raw_bytes = 0;
  kept_bytes = 0;
  dropped_bytes = 0;
  input_tokens = 0;
  output_tokens = 0;
  saved_tokens = 0;
}

abbrev pub no_row : Row
no_row = record { name = []; totals = no_totals }

-- What the visitors of `QuerySummary` and of the rows add for a record.
unfoldable pub count_record : RunRecord → Totals → Totals
count_record rec t = record t {
  commands = add64 t.commands 1;
  raw_bytes = add64 t.raw_bytes (word rec.raw_bytes);
  kept_bytes = add64 t.kept_bytes (word rec.kept_bytes);
}

-- `max(int64(0), min(rawBytes, keptBytes))`
unfoldable pub effective_kept_bytes : ℕ → ℕ → ℕ
effective_kept_bytes raw kept =
    let least = if leb (rank raw) (rank kept) then raw else kept in
    if is_negative least then 0 else least

-- `fillDerivedMetrics`
unfoldable pub fill_derived_metrics : Totals → Totals
unfolding effective_kept_bytes tokens_from_bytes
fill_derived_metrics t =
    let kept = effective_kept_bytes t.raw_bytes t.kept_bytes in
    let input = tokens_from_bytes t.raw_bytes in
    let output = tokens_from_bytes kept in
    record t {
      dropped_bytes = sub64 t.raw_bytes kept;
      input_tokens = input;
      output_tokens = output;
      saved_tokens = sub64 input output;
    }
