-- ===== src/Metrics/Decode.antt =====
-- internal/metrics/store.go: `decodeRunRecord`, with its errors.
use cmdshape.Base.{
  true, Option, none, some, Text, is_empty, codes, if◌then◌else◌, ◌≡◌, refl, ◌⊎◌, inl, inr,
}
use cmdshape.Metrics.{RunRecord}
use cmdshape.Metrics.Record.{
  SourceJson, decode_registry_sources, read_string, read_non_negative, required_fields,
}

-- The errors of `decodeRunRecord`.
pub data DecodeError : Type 0 where
  malformed_required_fields malformed_filter_source_kind malformed_filter_path : DecodeError
  malformed_filter_hash malformed_registry_build_duration : DecodeError
  malformed_registry_sources trailing_record_bytes : DecodeError

pub data Decoded : Type 0 where
  decoded : RunRecord → Decoded
  decode_error : DecodeError → Decoded

pub Decoded-cases :
    (d : Decoded)
    → ((rec : RunRecord) × (d ≡ decoded rec)) ⊎ ((e : DecodeError) × (d ≡ decode_error e))
Decoded-cases (decoded rec) = inl (rec, refl)
Decoded-cases (decode_error e) = inr (e, refl)

-- One read of `decodeRunRecord`, with the error that it returns where it fails.
unfoldable pub or_error {ℓ} : {A : Type ℓ} → Option A → DecodeError → (A → Decoded) → Decoded
or_error none e f = decode_error e
or_error (some a) e f = f a

-- `decodeRunRecord`, from the registry build on.
unfoldable pub decode_registry_build : SourceJson → RunRecord → Text → Decoded
decode_registry_build json rec raw =
    if is_empty raw
    then decoded rec
    else or_error (read_non_negative raw) malformed_registry_build_duration (λ (build_ms, r1).
      or_error (read_string r1) malformed_registry_sources (λ (raw_sources, r2).
        if is_empty r2
        then decoded (record rec {
          registry_build_recorded = true;
          registry_build_ms = build_ms;
          registry_sources = decode_registry_sources json raw_sources;
        })
        else decode_error trailing_record_bytes))

-- From the filter's source on.
unfoldable pub decode_filter : SourceJson → RunRecord → Text → Decoded
decode_filter json rec raw =
    if is_empty raw
    then decoded rec
    else or_error (read_string raw) malformed_filter_source_kind (λ (kind, r1).
      or_error (read_string r1) malformed_filter_path (λ (path, r2).
        or_error (read_string r2) malformed_filter_hash (λ (hash, r3).
          decode_registry_build json
            (record rec { filter_source_kind = kind; filter_path = path; filter_hash = hash }) r3)))

unfoldable pub name_tool : RunRecord → RunRecord
name_tool rec = record rec { tool = if is_empty rec.tool then codes "unknown" else rec.tool }

unfoldable pub decode_run_record : SourceJson → Text → Decoded
decode_run_record json b =
    or_error (required_fields b) malformed_required_fields
      (λ (rec, rest). decode_filter json (name_tool rec) rest)
