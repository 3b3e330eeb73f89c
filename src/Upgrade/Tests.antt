-- ===== src/Upgrade/Tests.antt =====
-- A list of checksums, and versions.
use cmdshape.Base.{
  inl, inr, false, ℕ, arith, none, some, true, ◌∷◌, ◌++◌, [], Text, codes, split, to_lower, ◌≡◌,
  refl, lower_rune, is_space, trim_space,
}
use cmdshape.Upgrade.{
  is_checksum, is_verified, sum_of_line, sum_of_fields, fields_onto, trim_prefix,
  checksum_for_asset, checksum_loop, duplicate, ArchiveEntry, is_unsafe, extracted,
  duplicate_binary, extract_binary_from_zip, extract_loop, validate_upgrade_archive_entry,
  resolve_upgrade_version, downgrade,
}
use cmdshape.Version.{Semantic, format}
use cmdshape.Version.Decimal.{format_uint, format_digits}
use cmdshape.Version.RoundTrip.{IsVersion}
use cmdshape.Upgrade.Forward.{resolve_upgrade_version_iff, chosen}
use cmdshape.Upgrade.Archive.{IsBinary, extract_binary_from_zip_iff}
use cmdshape.Upgrade.Checksums.{sums, is_verified_iff}

abbrev linux : Text
linux = codes "cmdshape_linux_amd64"

abbrev sum : Text
sum = codes "00112233445566778899aabbccddeeff00112233445566778899AABBCCDDEEFF"

abbrev digest : Text
digest = codes "00112233445566778899aabbccddeeff00112233445566778899aabbccddeeff"

abbrev line : Text
line = sum ++ codes "  *./cmdshape_linux_amd64"

abbrev contents : Text
contents = codes "# checksums of the release" ++ (10 ∷ (line ++ 10 ∷ []))

sums-contents : sums linux (split 10 contents) ≡ sum ∷ []
unfolding sum_of_line sum_of_fields fields_onto trim_prefix is_space trim_space
sums-contents = refl

is_checksum-sum : is_checksum sum ≡ true
unfolding is_checksum
is_checksum-sum = refl

to_lower-sum : to_lower sum ≡ to_lower digest
unfolding to_lower lower_rune
to_lower-sum = refl

is_verified_iff_example : is_verified contents linux digest ≡ true
is_verified_iff_example =
    (is_verified_iff contents linux digest).1
      (sum, (sums-contents, (is_checksum-sum, to_lower-sum)))

two_checksums : checksum_for_asset (contents ++ contents) linux ≡ duplicate
unfolding checksum_for_asset checksum_loop is_checksum sum_of_line sum_of_fields fields_onto
    trim_prefix is_space trim_space
two_checksums = refl

abbrev version : ℕ → ℕ → ℕ → Semantic
version a b c = record { major = a; minor = b; patch = c }

running : IsVersion (version 1 20 3)
running = record { major = omega arith; minor = omega arith; patch = omega arith }

asked : chosen none (codes "1.9.11") ≡ some (format (version 1 9 11))
unfolding format format_uint format_digits
asked = refl

asked-IsVersion : IsVersion (version 1 9 11)
asked-IsVersion = record { major = omega arith; minor = omega arith; patch = omega arith }

resolve_upgrade_version_iff_example :
    resolve_upgrade_version (format (version 1 20 3)) none (codes "1.9.11") ≡ downgrade
resolve_upgrade_version_iff_example =
    (resolve_upgrade_version_iff (version 1 20 3) (version 1 9 11) (codes "1.9.11") (codes "1.9.11")
        none running).1.1
      (version 1 9 11, asked, asked-IsVersion, inr (inl (refl, omega arith)))

abbrev program : ArchiveEntry
program = record {
  name = codes "cmdshape";
  is_symlink = false;
  is_regular = true;
  is_dir = false;
  uncompressed_size = 9000000;
}

safe : is_unsafe (codes "cmdshape") ≡ false
unfolding is_unsafe
safe = refl

program-IsBinary : IsBinary (codes "cmdshape") program
program-IsBinary = record { named = refl; regular = refl; direct = refl; limited = refl }

extract_binary_from_zip_iff_example :
    extract_binary_from_zip (program ∷ []) (codes "cmdshape") ≡ extracted program
extract_binary_from_zip_iff_example =
    (extract_binary_from_zip_iff (program ∷ []) (codes "cmdshape") program safe).1
      (refl, program-IsBinary)

twice : extract_binary_from_zip (program ∷ program ∷ []) (codes "cmdshape") ≡ duplicate_binary
unfolding extract_binary_from_zip extract_loop validate_upgrade_archive_entry is_unsafe
twice = refl
