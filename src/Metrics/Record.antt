-- ===== src/Metrics/Record.antt =====
-- internal/metrics/store.go: a record of a run as the bytes of a bucket's value, and back. The code
-- fills a slice of the exact size from left to right; here the parts are put one behind the other.
-- The decoder's state is the bytes behind its offset.
use cmdshape.Base.{
  ◌>>=◌, ℕ, ◌-◌, ◌^◌, min, Bool, true, false, ◌&&◌, ◌||◌, List, [], ◌∷◌, ◌++◌, Option, none, some,
  Text, ℤ, pos, negsuc, length, take, drop, concat, ltb, leb, ◌==◌, if◌then◌else◌,
}
use cmdshape.Metrics.{Source, RunRecord, normalize_registry_sources}
use cmdshape.Metrics.Bytes.{put_be, get_be}

-- `putNonNegativeInt64AsU64`
unfoldable pub put_non_negative : ℤ → Text
put_non_negative (pos n) = put_be 8 n
put_non_negative (negsuc n) = put_be 8 0

-- `putIntAsU64`: two's complement
unfoldable pub put_int : ℤ → Text
put_int (pos n) = put_be 8 n
put_int (negsuc n) = put_be 8 (2 ^ 64 - 1 - n)

-- `putLengthU32` of a length, which is not negative
unfoldable pub put_length : ℕ → Text
put_length n = put_be 4 (min n (2 ^ 32 - 1))

-- `putEncodedString`
unfoldable pub put_encoded_string : Text → Text
put_encoded_string value = put_length (length value) ++ value

unfoldable pub put_boolean : Bool → Text
put_boolean passthrough = (if passthrough then 1 else 0) ∷ []

-- `strings.TrimSpace(raw) == ""` for bytes in UTF-8: nothing but the encodings of spaces.
unfoldable pub is_blank : Text → Bool
is_blank [] = true
is_blank (a ∷ []) = (leb 9 a && leb a 13) || a == 32
is_blank (a ∷ b ∷ []) =
    (((leb 9 a && leb a 13) || a == 32) && is_blank (b ∷ []))
    || (a == 0xc2 && (b == 0x85 || b == 0xa0))
is_blank (a ∷ b ∷ c ∷ s) =
    (((leb 9 a && leb a 13) || a == 32) && is_blank (b ∷ c ∷ s))
    || ((a == 0xc2 && (b == 0x85 || b == 0xa0)) && is_blank (c ∷ s))
    || (((a == 0xe1 && b == 0x9a && c == 0x80)
          || (a == 0xe2
              && b == 0x80
              && ((leb 0x80 c && leb c 0x8a) || c == 0xa8 || c == 0xa9 || c == 0xaf))
          || (a == 0xe2 && b == 0x81 && c == 0x9f)
          || (a == 0xe3 && b == 0x80 && c == 0x80))
        && is_blank s)

-- `json.Marshal` and `json.Unmarshal` of a slice of sources; `none` is an error.
pub record SourceJson : Type 0 where
  pub marshal : List Source → Option Text
  pub unmarshal : Text → Option (List Source)

unfoldable pub encode_registry_sources : SourceJson → List Source → Text
encode_registry_sources json [] = []
encode_registry_sources json (s ∷ sources) =
    elim (json.marshal (normalize_registry_sources (s ∷ sources))) [ some raw ↦ raw | none ↦ [] ]

unfoldable pub decode_registry_sources : SourceJson → Text → List Source
decode_registry_sources json raw =
    if is_blank raw
    then []
    else elim (json.unmarshal raw) [ some out ↦ normalize_registry_sources out | none ↦ [] ]

unfoldable pub encode_registry_build : SourceJson → RunRecord → Text
encode_registry_build json rec =
    if rec.registry_build_recorded
    then put_non_negative rec.registry_build_ms
      ++ put_encoded_string (encode_registry_sources json rec.registry_sources)
    else []

-- The parts that `encodeRunRecord` fills its slice with.
unfoldable pub record_parts : SourceJson → RunRecord → List Text
record_parts json rec =
    put_non_negative rec.timestamp_unix
    ∷ put_encoded_string rec.command
    ∷ put_encoded_string rec.tool
    ∷ put_encoded_string rec.dispatch
    ∷ put_non_negative rec.raw_bytes
    ∷ put_non_negative rec.kept_bytes
    ∷ put_int rec.exit_code
    ∷ put_non_negative rec.duration_ms
    ∷ put_boolean rec.passthrough
    ∷ put_encoded_string rec.filter_source_kind
    ∷ put_encoded_string rec.filter_path
    ∷ put_encoded_string rec.filter_hash
    ∷ encode_registry_build json rec
    ∷ []

unfoldable pub encode_run_record : SourceJson → RunRecord → Text
encode_run_record json rec = concat (record_parts json rec)

unfoldable pub encode_run_key : ℤ → ℕ → Text
encode_run_key timestamp seq = put_non_negative timestamp ++ put_be 8 seq

-- What a method of the decoder reads, and the bytes that are left; `none` is its `false`.
abbrev pub Read : Type 0 → Type 0
Read A = Option (A × Text)

unfoldable pub take_bytes : ℕ → Text → Read Text
take_bytes size raw = if ltb (length raw) size then none else some (take size raw, drop size raw)

-- `getBoundedInt64FromU64`
unfoldable pub get_bounded_int64 : Text → ℤ
get_bounded_int64 src = pos (min (get_be 0 src) (2 ^ 63 - 1))

-- `getBoundedSignedIntFromU64`, where an `int` has 64 bits: `int64(v)`, in two's complement
unfoldable pub get_signed_int : Text → ℤ
get_signed_int src =
    let v = get_be 0 src in if ltb v (2 ^ 63) then pos v else negsuc (2 ^ 64 - 1 - v)

unfoldable pub read_string : Text → Read Text
read_string raw = do
  (length_bytes, rest) ← take_bytes 4 raw
  take_bytes (get_be 0 length_bytes) rest

unfoldable pub read_non_negative : Text → Read ℤ
read_non_negative raw = do (value, rest) ← take_bytes 8 raw; some (get_bounded_int64 value, rest)

unfoldable pub read_signed : Text → Read ℤ
read_signed raw = do (value, rest) ← take_bytes 8 raw; some (get_signed_int value, rest)

unfoldable pub read_boolean : Text → Read Bool
read_boolean raw = do
  (value, rest) ← take_bytes 1 raw
  let b = get_be 0 value in if ltb 1 b then none else some (b == 1, rest)

-- `requiredFields`
unfoldable pub required_fields : Text → Read RunRecord
required_fields raw = do
  (timestamp, r1) ← read_non_negative raw
  (command, r2) ← read_string r1
  (tool, r3) ← read_string r2
  (dispatch, r4) ← read_string r3
  (raw_size, r5) ← read_non_negative r4
  (kept_size, r6) ← read_non_negative r5
  (exit, r7) ← read_signed r6
  (duration, r8) ← read_non_negative r7
  (passed, r9) ← read_boolean r8
  some (
    record {
      timestamp_unix = timestamp;
      command = command;
      tool = tool;
      dispatch = dispatch;
      raw_bytes = raw_size;
      kept_bytes = kept_size;
      exit_code = exit;
      duration_ms = duration;
      passthrough = passed;
      filter_source_kind = [];
      filter_path = [];
      filter_hash = [];
      registry_build_recorded = false;
      registry_build_ms = pos 0;
      registry_sources = [];
    },
    r9,
  )
