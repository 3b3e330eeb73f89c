-- ===== src/Metrics/RoundTrip.antt =====
-- internal/metrics/store.go: a record that is stored is read again.
use cmdshape.Base.{
  ℕ, true, false, List, [], ◌∷◌, ◌++◌, some, Text, ℤ, pos, negsuc, concat, concat-append, is_empty,
  trim_space-trim_space, ◌≡◌, refl, sym, ap, ◌∙◌, subst, arith, if◌then◌else◌, append-nil,
  append_assoc, Bool-cases, inl, inr,
}
use cmdshape.Metrics.{clamp, Source, RunRecord, normalize_source, normalize_registry_sources}
use cmdshape.Metrics.Record.{
  put_non_negative, put_int, put_encoded_string, put_boolean, SourceJson, is_blank,
  encode_registry_sources, decode_registry_sources, encode_registry_build, record_parts,
  encode_run_record, read_non_negative, read_string, take_bytes, required_fields,
}
use cmdshape.Metrics.Decode.{
  trailing_record_bytes, decoded, decode_error, or_error, decode_registry_build, decode_filter,
  name_tool, decode_run_record,
}
use cmdshape.Metrics.Stored.{
  IsReadable, IsEncodable, stored_required, stored_filter, stored_build, stored,
}
use cmdshape.Metrics.Reads.{
  IsShort, read_non_negative-put, read_signed-put, read_string-put, read_boolean-put,
}

clamp-clamp : (v : ℤ) → clamp (clamp v) ≡ clamp v
unfolding clamp
clamp-clamp (pos n) = refl
clamp-clamp (negsuc n) = refl

normalize_source-normalize_source :
    (s : Source) → normalize_source (normalize_source s) ≡ normalize_source s
unfolding normalize_source
normalize_source-normalize_source s =
    rw
      (
        trim_space-trim_space s.source_kind,
        trim_space-trim_space s.source_dir,
        trim_space-trim_space s.error,
        clamp-clamp s.definitions,
        clamp-clamp s.compiled,
        clamp-clamp s.duration_ms,
      )
      refl

normalize-normalize :
    (sources : List Source)
    → normalize_registry_sources (normalize_registry_sources sources)
      ≡ normalize_registry_sources sources
unfolding normalize_registry_sources
normalize-normalize [] = refl
normalize-normalize (s ∷ sources) =
    rw (normalize_source-normalize_source s)
      (ap (λ (t : List Source). normalize_source s ∷ t) (normalize-normalize sources))

normalize_registry_sources-nil : normalize_registry_sources [] ≡ []
unfolding normalize_registry_sources
normalize_registry_sources-nil = refl

decode-encode_registry_sources :
    (json : SourceJson) (sources : List Source)
    → IsReadable json sources
    → (decode_registry_sources json (encode_registry_sources json sources)
        ≡ normalize_registry_sources sources)
      × IsShort (encode_registry_sources json sources)
unfolding decode_registry_sources encode_registry_sources is_blank
decode-encode_registry_sources json [] h = (sym normalize_registry_sources-nil, omega arith)
decode-encode_registry_sources json (s ∷ sources) (raw, wrote, reads, solid, short) =
    let encoded : encode_registry_sources json (s ∷ sources) ≡ raw =
      rw (wrote, encode_registry_sources) refl in
    let decodes : decode_registry_sources json raw ≡ normalize_registry_sources (s ∷ sources) =
      rw (solid, reads, decode_registry_sources) (normalize-normalize (s ∷ sources)) in
    (ap (decode_registry_sources json) encoded ∙ decodes, subst IsShort (sym encoded) short)

required_fields-encode :
    (json : SourceJson) (rec : RunRecord) (rest : List Text)
    → IsEncodable json rec
    → required_fields (
        concat (
          put_non_negative rec.timestamp_unix
          ∷ put_encoded_string rec.command
          ∷ put_encoded_string rec.tool
          ∷ put_encoded_string rec.dispatch
          ∷ put_non_negative rec.raw_bytes
          ∷ put_non_negative rec.kept_bytes
          ∷ put_int rec.exit_code
          ∷ put_non_negative rec.duration_ms
          ∷ put_boolean rec.passthrough
          ∷ rest))
      ≡ some (stored_required rec, concat rest)
unfolding required_fields
required_fields-encode json rec rest ((ts, cm, tl, dp), (rb, kb, ec, du), _, _) =
    rw
      (
        read_non_negative-put rec.timestamp_unix _ ts,
        read_string-put rec.command _ cm,
        read_string-put rec.tool _ tl,
        read_string-put rec.dispatch _ dp,
        read_non_negative-put rec.raw_bytes _ rb,
        read_non_negative-put rec.kept_bytes _ kb,
        read_signed-put rec.exit_code _ ec,
        read_non_negative-put rec.duration_ms _ du,
        read_boolean-put rec.passthrough _,
      )
      refl

read_non_negative-solid :
    (raw s : Text) (v : ℤ) → read_non_negative raw ≡ some (v, s) → is_empty raw ≡ false
unfolding read_non_negative take_bytes
read_non_negative-solid [] s v e = absurd (cc)
read_non_negative-solid (b ∷ raw) s v e = refl

read_string-solid : (raw t s : Text) → read_string raw ≡ some (t, s) → is_empty raw ≡ false
unfolding read_string take_bytes
read_string-solid [] t s e = absurd (cc)
read_string-solid (b ∷ raw) t s e = refl

-- The fields of a registry build, with what stands behind them.
decode_registry_build-recorded :
    (json : SourceJson) (rec base : RunRecord) (rest : Text)
    → IsEncodable json rec
    → rec.registry_build_recorded ≡ true
    → decode_registry_build json base (encode_registry_build json rec ++ rest) ≡ (
        if is_empty rest
        then decoded (stored_build rec base)
        else decode_error trailing_record_bytes)
unfolding decode_registry_build encode_registry_build or_error
decode_registry_build-recorded json rec base rest (_, _, _, (ms, sources)) e =
    let text = encode_registry_sources json rec.registry_sources in
    let (same, short) = decode-encode_registry_sources json rec.registry_sources sources in
    let first = read_non_negative-put rec.registry_build_ms (put_encoded_string text ++ rest) ms in
    let second = read_string-put text rest short in
    let solid = read_non_negative-solid _ _ _ first in
    rw
      (
        e,
        append_assoc (put_non_negative rec.registry_build_ms) (put_encoded_string text) rest,
        solid,
        first,
        second,
        same,
      )
      refl

decode_registry_build-encode :
    (json : SourceJson) (rec base : RunRecord)
    → IsEncodable json rec
    → decode_registry_build json base (encode_registry_build json rec ++ [])
      ≡ decoded (stored_build rec base)
unfolding decode_registry_build encode_registry_build
decode_registry_build-encode json rec base h = elim (Bool-cases rec.registry_build_recorded) [
  | inl e ↦ decode_registry_build-recorded json rec base [] h e
  | inr e ↦ rw e refl
]

decode_filter-encode :
    (json : SourceJson) (rec base : RunRecord) (rest : Text)
    → IsEncodable json rec
    → decode_filter json base (
        put_encoded_string rec.filter_source_kind
        ++ (put_encoded_string rec.filter_path ++ (put_encoded_string rec.filter_hash ++ rest)))
      ≡ decode_registry_build json (stored_filter rec base) rest
unfolding decode_filter or_error
decode_filter-encode json rec base rest (_, _, (kind, path, hash), _) =
    let last = put_encoded_string rec.filter_hash ++ rest in
    let more = put_encoded_string rec.filter_path ++ last in
    let first = read_string-put rec.filter_source_kind more kind in
    rw
      (
        read_string-solid _ _ _ first,
        first,
        read_string-put rec.filter_path last path,
        read_string-put rec.filter_hash rest hash,
      )
      refl

-- A record whose numbers and texts fit the fields of the encoding, and whose sources JSON can read
-- again, comes back from its bytes with every field that it had: negative sizes, times and
-- durations as 0, an empty tool as "unknown", the sources normalised, and those of a build only
-- where one is recorded.
pub decode_run_record-encode_run_record :
    (json : SourceJson) (rec : RunRecord)
    → IsEncodable json rec
    → decode_run_record json (encode_run_record json rec) ≡ decoded (stored rec)
unfolding decode_run_record encode_run_record record_parts or_error
decode_run_record-encode_run_record json rec h =
    let base = name_tool (stored_required rec) in
    rw (required_fields-encode json rec _ h) (
      decode_filter-encode json rec base (encode_registry_build json rec ++ []) h
      ∙ decode_registry_build-encode json rec (stored_filter rec base) h)

-- Bytes behind the encoding of a record with a registry build are an error, whichever they are.
pub decode_run_record-trailing_bytes :
    (json : SourceJson) (rec : RunRecord) (b : ℕ) (more : Text)
    → IsEncodable json rec
    → rec.registry_build_recorded ≡ true
    → decode_run_record json (encode_run_record json rec ++ b ∷ more)
      ≡ decode_error trailing_record_bytes
unfolding decode_run_record encode_run_record record_parts or_error
decode_run_record-trailing_bytes json rec b more h on =
    let base = name_tool (stored_required rec) in
    let tail = (b ∷ more) ++ [] in
    let behind : encode_run_record json rec ++ b ∷ more
        ≡ concat (record_parts json rec ++ (b ∷ more) ∷ []) =
      ap (λ (t : Text). encode_run_record json rec ++ t) (sym (append-nil (b ∷ more)))
      ∙ sym (concat-append (record_parts json rec) ((b ∷ more) ∷ [])) in
    ap (decode_run_record json) behind
    ∙ rw (required_fields-encode json rec _ h) (
        decode_filter-encode json rec base (encode_registry_build json rec ++ tail) h
        ∙ decode_registry_build-recorded json rec (stored_filter rec base) tail h on)
