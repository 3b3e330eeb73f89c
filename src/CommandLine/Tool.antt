-- ===== src/CommandLine/Tool.antt =====
-- internal/parser.go: `canonicalToolName`.
pub mod Base
use cmdshape.Base.{
  ℕ, ◌-◌, Bool, true, false, ◌||◌, List, [], ◌∷◌, Option, none, some, Text, codes, text_eq, ◌==◌,
  if◌then◌else◌, has_suffix, length, take, to_lower, any,
}

-- `wrapperToolVocabulary`
unfoldable pub wrapper_tool : Text → Option Text
wrapper_tool name =
    if text_eq name (codes "gradlew")
    then some (codes "gradle")
    else if text_eq name (codes "mvnw") || text_eq name (codes "mvnwdebug")
    then some (codes "mvn")
    else none

-- is it one of the characters of `/\`?
abbrev pub is_separator : ℕ → Bool
is_separator r = r == b'/' || r == b'\\'

-- What follows the last separator, the whole if there is none.
unfoldable pub trim_path_to_base : Text → Text
trim_path_to_base [] = []
trim_path_to_base (r ∷ rs) =
    let rest = trim_path_to_base rs in
    if any is_separator rs then rest else if is_separator r then rs else r ∷ rs

abbrev pub executable_suffixes : List Text
executable_suffixes = codes ".exe" ∷ codes ".cmd" ∷ codes ".bat" ∷ codes ".ps1" ∷ []

-- The loop over the suffixes, `lower` being the name in lower case.
unfoldable pub trim_first_suffix : Text → Text → List Text → Text
trim_first_suffix lower name [] = name
trim_first_suffix lower name (suffix ∷ suffixes) =
    let rest = trim_first_suffix lower name suffixes in
    if has_suffix lower suffix then take (length name - length suffix) name else rest

unfoldable pub trim_executable_suffix : Text → Text
trim_executable_suffix name = trim_first_suffix (to_lower name) name executable_suffixes

unfoldable pub canonical_tool_name : Text → Text
canonical_tool_name name =
    let base = trim_path_to_base name in
    let stem = trim_executable_suffix base in
    elim (wrapper_tool (to_lower base)) [
      | some mapped ↦ mapped
      | none ↦
          if text_eq stem base
          then base
          else elim (wrapper_tool (to_lower stem)) [ some mapped ↦ mapped | none ↦ stem ]
    ]
