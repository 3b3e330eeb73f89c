-- ===== src/Upgrade.antt =====
-- internal/lifecycle/upgrade.go: which version an upgrade goes to, and the checksum that a downloaded
-- asset is held to.
pub mod Checksums
pub mod Forward
pub mod Archive
mod Tests
use cmdshape.Base.{
  ltb, not, contains, ◌*◌, ℕ, Bool, true, false, ◌&&◌, ◌||◌, List, [], ◌∷◌, ◌++◌, Option, none,
  some, Text, codes, length, drop, is_empty, has_prefix, text_eq, trim_space, is_space, to_lower,
  split, leb, ◌==◌, if◌then◌else◌,
}
use cmdshape.Version.{Semantic, parse, less, format}

-- `strings.Fields`, with what has been read of the field at hand.
unfoldable pub fields_onto : Text → Text → List Text
fields_onto current [] = if is_empty current then [] else current ∷ []
fields_onto current (c ∷ s) =
    let next = fields_onto [] s in
    let same = fields_onto (current ++ c ∷ []) s in
    if is_space c then if is_empty current then next else current ∷ next else same

-- `strings.TrimPrefix`
unfoldable pub trim_prefix : Text → Text → Text
trim_prefix s prefix = if has_prefix s prefix then drop (length prefix) s else s

-- The checksum in the first field of a line, where the second one names the asset.
unfoldable pub sum_of_fields : Text → List Text → Option Text
sum_of_fields asset_name (sum ∷ named ∷ []) =
    if text_eq (trim_prefix (trim_prefix named (codes "*")) (codes "./")) asset_name
    then some sum
    else none
sum_of_fields asset_name fields = none

unfoldable pub sum_of_line : Text → Text → Option Text
sum_of_line asset_name line = sum_of_fields asset_name (fields_onto [] (trim_space line))

abbrev pub is_hex : ℕ → Bool
is_hex c = leb b'0' c && leb c b'9' || leb b'a' c && leb c b'f' || leb b'A' c && leb c b'F'

-- `hex.DecodeString` returns no error, for an even number of digits.
abbrev pub all_hex : Text → Bool
all_hex [] = true
all_hex (c ∷ s) = is_hex c && all_hex s

-- 64 hexadecimal digits
unfoldable pub is_checksum : Text → Bool
is_checksum sum = length sum == 64 && all_hex sum

-- What `checksumForAsset` returns: the checksum, or one of its errors.
pub data Checksum : Type 0 where
  found : Text → Checksum
  missing : Checksum
  malformed : Checksum
  duplicate : Checksum

-- The loop of `checksumForAsset` and its end, from the value of `match`.
unfoldable pub checksum_loop : Text → Text → List Text → Checksum
checksum_loop asset_name matched [] = if is_empty matched then missing else found matched
checksum_loop asset_name matched (line ∷ lines) =
    let passed = checksum_loop asset_name matched lines in
    elim (sum_of_line asset_name line) [
      | none ↦ passed
      | some sum ↦
          let taken = checksum_loop asset_name sum lines in
          if is_checksum sum then if is_empty matched then taken else duplicate else malformed
    ]

unfoldable pub checksum_for_asset : Text → Text → Checksum
checksum_for_asset contents asset_name = checksum_loop asset_name [] (split 10 contents)

-- The comparison in `verifyDownloadedAssetChecksum`; between hexadecimal digits `strings.EqualFold` compares
-- lower case.
unfoldable pub accepts : Text → Checksum → Bool
accepts actual (found expected) = text_eq (to_lower expected) (to_lower actual)
accepts actual missing = false
accepts actual malformed = false
accepts actual duplicate = false

-- `verifyDownloadedAssetChecksum`, as whether it returns no error, from the contents of the list and the
-- digest of the asset.
unfoldable pub is_verified : Text → Text → Text → Bool
is_verified contents asset_name actual = accepts actual (checksum_for_asset contents asset_name)

-- `rejectDowngrade`, as whether it returns an error.
unfoldable pub reject_downgrade : Text → Semantic → Bool
reject_downgrade current_version target = elim (parse current_version) [
  | none ↦ false
  | some current ↦ less target current
]

-- What `resolveUpgradeVersion` returns: the tag and the version of the release, or one of its errors.
pub data Target : Type 0 where
  resolved : Text → Semantic → Target
  unresolved_latest : Target
  invalid_release : Target
  downgrade : Target

unfoldable pub resolve_tag : Text → Text → Target
resolve_tag current_version tag = elim (parse tag) [
  | none ↦ invalid_release
  | some release_version ↦
      if reject_downgrade current_version release_version
      then downgrade
      else resolved (format release_version) release_version
]

-- `latest` is the tag that `latestReleaseTag` gets from the service, where it gets one.
unfoldable pub resolve_upgrade_version : Text → Option Text → Text → Target
resolve_upgrade_version current_version latest requested =
    if is_empty requested
    then elim latest [ none ↦ unresolved_latest | some tag ↦ resolve_tag current_version tag ]
    else resolve_tag current_version requested

abbrev pub max_upgrade_binary_bytes : ℕ
max_upgrade_binary_bytes = 64 * 1024 * 1024

-- What is read of an entry of the archive, on a system whose separator is the slash.
pub record ArchiveEntry : Type 0 where
  pub name : Text
  pub is_symlink : Bool
  pub is_regular : Bool
  pub is_dir : Bool
  pub uncompressed_size : ℕ

pub data EntryError : Type 0 where
  unsafe_entry : EntryError
  irregular_entry : EntryError
  unexpected_entry : EntryError
  other_entry : EntryError
  oversized_entry : EntryError

unfoldable pub is_unsafe : Text → Bool
is_unsafe name =
    has_prefix name (codes "/") || contains name (codes "../") || contains name (codes "\\")

-- `validateUpgradeArchiveEntry`, with the error where there is one.
unfoldable pub validate_upgrade_archive_entry : ArchiveEntry → Text → Option EntryError
validate_upgrade_archive_entry f binary_name =
    if is_unsafe f.name
    then some unsafe_entry
    else if f.is_symlink || not f.is_regular && not f.is_dir
    then some irregular_entry
    else if not f.is_regular
    then some unexpected_entry
    else if not (text_eq f.name binary_name)
    then some other_entry
    else if ltb max_upgrade_binary_bytes f.uncompressed_size
    then some oversized_entry
    else none

pub data Extracted : Type 0 where
  extracted : ArchiveEntry → Extracted
  invalid_entry : EntryError → Extracted
  duplicate_binary : Extracted
  no_binary : Extracted

-- The loop of `extractBinaryFromZip` and its end, from the value of `selected`.
unfoldable pub extract_loop : Text → Option ArchiveEntry → List ArchiveEntry → Extracted
extract_loop binary_name none [] = no_binary
extract_loop binary_name (some selected) [] = extracted selected
extract_loop binary_name selected (f ∷ files) =
    let rest = extract_loop binary_name (some f) files in
    elim (validate_upgrade_archive_entry f binary_name) [
      | some e ↦ invalid_entry e
      | none ↦ elim selected [ some g ↦ duplicate_binary | none ↦ rest ]
    ]

unfoldable pub extract_binary_from_zip : List ArchiveEntry → Text → Extracted
extract_binary_from_zip files binary_name = extract_loop binary_name none files
