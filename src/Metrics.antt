-- ===== src/Metrics.antt =====
-- internal/metrics/store.go: the records of runs, as the rest of the component reads them. A number
-- of type `int64` is a ℤ; a text is a list of bytes, in the sources of a registry one of code points.
pub mod Bytes
pub mod Record
pub mod Decode
pub mod Stored
pub mod Reads
pub mod RoundTrip
pub mod Totals
pub mod Queries
pub mod Keys
pub mod Store
mod Tests
use cmdshape.Base.{Bool, List, [], map, Text, ℤ, pos, negsuc, trim_space}

-- `max(v, 0)`
unfoldable pub clamp : ℤ → ℤ
clamp (pos n) = pos n
clamp (negsuc n) = pos 0

-- `RegistrySourceBuildMetric`
pub record Source : Type 0 where
  pub source_kind : Text
  pub source_dir : Text
  pub definitions : ℤ
  pub compiled : ℤ
  pub duration_ms : ℤ
  pub error : Text

-- `runRecord`
pub record RunRecord : Type 0 where
  pub timestamp_unix : ℤ
  pub command : Text
  pub tool : Text
  pub dispatch : Text
  pub raw_bytes : ℤ
  pub kept_bytes : ℤ
  pub exit_code : ℤ
  pub duration_ms : ℤ
  pub passthrough : Bool
  pub filter_source_kind : Text
  pub filter_path : Text
  pub filter_hash : Text
  pub registry_build_recorded : Bool
  pub registry_build_ms : ℤ
  pub registry_sources : List Source

-- `normalizeRegistrySources`
unfoldable pub normalize_source : Source → Source
normalize_source s = record {
  source_kind = trim_space s.source_kind;
  source_dir = trim_space s.source_dir;
  definitions = clamp s.definitions;
  compiled = clamp s.compiled;
  duration_ms = clamp s.duration_ms;
  error = trim_space s.error;
}

unfoldable pub normalize_registry_sources : List Source → List Source
normalize_registry_sources sources = map normalize_source sources
