-- ===== src/Metrics/Totals/Balance.antt =====
-- The derived numbers of a summary balance.
use cmdshape.Base.{ℕ, ◌+◌, ◌-◌, ◌/◌, ◌^◌, ◌<◌, min, ◌≡◌, refl, arith}
use cmdshape.Metrics.Totals.{tokens_from_bytes, Totals, effective_kept_bytes, fill_derived_metrics}

tokens-rounded : (v : ℕ) → v < 2 ^ 63 - 3 → tokens_from_bytes v ≡ (v + 3) / 4
unfolding tokens_from_bytes
tokens-rounded v h = ground arith

effective-min :
    (raw kept : ℕ) → raw < 2 ^ 63 → kept < 2 ^ 63 → effective_kept_bytes raw kept ≡ min raw kept
unfolding effective_kept_bytes
effective-min raw kept h k = ground arith

-- Sizes that are not negative, as those of decoded records are, and below 2 ^ 63 - 3: what is dropped
-- is what the raw output has beyond the kept one, nothing where more was kept; a token is four bytes,
-- rounded up; and the tokens that are saved with those that go out are those that came in.
pub fill_derived_metrics_lem :
    (t : Totals)
    → t.raw_bytes < 2 ^ 63 - 3
    → t.kept_bytes < 2 ^ 63
    → let d = fill_derived_metrics t in
      (d.dropped_bytes ≡ t.raw_bytes - t.kept_bytes)
      × (d.input_tokens ≡ (t.raw_bytes + 3) / 4)
      × (d.output_tokens ≡ (min t.raw_bytes t.kept_bytes + 3) / 4)
      × (d.saved_tokens + d.output_tokens ≡ d.input_tokens)
unfolding fill_derived_metrics
fill_derived_metrics_lem t h k =
    let least = effective-min t.raw_bytes t.kept_bytes (omega (arith, h)) k in
    let input = tokens-rounded t.raw_bytes h in
    let output = tokens-rounded (min t.raw_bytes t.kept_bytes) (omega (arith, h)) in
    rw (least, input, output) (omega (arith, h, k), refl, refl, omega (arith, h, k))
