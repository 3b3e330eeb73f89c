-- ===== src/Metrics/Stored.antt =====
-- A record as it comes back from a store.
use cmdshape.Base.{true, false, List, [], ◌∷◌, some, Text, pos, ◌≡◌, if◌then◌else◌}
use cmdshape.Metrics.{clamp, Source, RunRecord, normalize_registry_sources}
use cmdshape.Metrics.Record.{SourceJson, is_blank}
use cmdshape.Metrics.Decode.{name_tool}
use cmdshape.Metrics.Reads.{IsInt64, IsShort}

-- What JSON makes of the sources of a record: text that is not blank and can be read again.
abbrev pub IsReadable : SourceJson → List Source → Type 0
IsReadable json [] = Unit
IsReadable json (s ∷ sources) =
    let plain = normalize_registry_sources (s ∷ sources) in
    (raw : Text) × (json.marshal plain ≡ some raw)
    × (json.unmarshal raw ≡ some plain)
    × (is_blank raw ≡ false)
    × IsShort raw

-- A record with numbers and texts that the fields of the encoding can hold.
abbrev pub IsEncodable : SourceJson → RunRecord → Type 0
IsEncodable json rec =
    (IsInt64 rec.timestamp_unix × IsShort rec.command × IsShort rec.tool × IsShort rec.dispatch)
    × (IsInt64 rec.raw_bytes
        × IsInt64 rec.kept_bytes
        × IsInt64 rec.exit_code
        × IsInt64 rec.duration_ms)
    × (IsShort rec.filter_source_kind × IsShort rec.filter_path × IsShort rec.filter_hash)
    × (IsInt64 rec.registry_build_ms × IsReadable json rec.registry_sources)

-- A record as it comes back: nothing is negative but the exit code, a tool has a name, and a record
-- without a registry build has none of a build's numbers.
abbrev pub stored_required : RunRecord → RunRecord
stored_required rec = record {
  timestamp_unix = clamp rec.timestamp_unix;
  command = rec.command;
  tool = rec.tool;
  dispatch = rec.dispatch;
  raw_bytes = clamp rec.raw_bytes;
  kept_bytes = clamp rec.kept_bytes;
  exit_code = rec.exit_code;
  duration_ms = clamp rec.duration_ms;
  passthrough = rec.passthrough;
  filter_source_kind = [];
  filter_path = [];
  filter_hash = [];
  registry_build_recorded = false;
  registry_build_ms = pos 0;
  registry_sources = [];
}

abbrev pub stored_filter : RunRecord → RunRecord → RunRecord
stored_filter rec base = record base {
  filter_source_kind = rec.filter_source_kind;
  filter_path = rec.filter_path;
  filter_hash = rec.filter_hash;
}

abbrev pub stored_build : RunRecord → RunRecord → RunRecord
stored_build rec base =
    if rec.registry_build_recorded
    then record base {
      registry_build_recorded = true;
      registry_build_ms = clamp rec.registry_build_ms;
      registry_sources = normalize_registry_sources rec.registry_sources;
    }
    else base

abbrev pub stored : RunRecord → RunRecord
stored rec = stored_build rec (stored_filter rec (name_tool (stored_required rec)))
